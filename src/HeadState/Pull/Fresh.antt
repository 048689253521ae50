-- ===== src/HeadState/Pull/Fresh.antt =====
-- dashboard/head_state.py: no pull request is shown as ready to merge from an old check reading.
use vibe_verifier.Base.{
  ℕ, String, ◌==◌, ◌+◌, ◌-◌, ◌*◌, ◌/◌, ◌≤◌, ◌≡◌, refl, ap, ◌∙◌, ◌↔◌, inl, inr, Bool, true, false,
  not, ◌&&◌, Option, none, some, if◌then◌else◌, leb, arith, Bool-cases, Option-cases,
}
use vibe_verifier.Base.Json.{Json, bool, int, str, Fields, truthy}
use vibe_verifier.Base.Json.Dict.{set, at, present, at-set, at-set_other, at-present}
use vibe_verifier.HeadState.Pull.{
  Calendar, Head, second, beat_seconds, is_text, is_same, parse_time, head_differs, has_reading,
  previous_push, before_change, aged_of, with_age, by_age, withheld, behind, show_stored,
  reconcile_pull, withhold_if_old,
}

-- The dashboard paints the pull request as ready to merge.
abbrev pub is_ready : Fields → Bool
is_ready pull = truthy (at "merge_ready" pull)

pub ready-set_other :
    (k : String) (v : Json) (pull : Fields)
    → ("merge_ready" == k) ≡ false
    → is_ready (set k v pull) ≡ is_ready pull
ready-set_other k v pull h = ap truthy (at-set_other "merge_ready" k v pull h)

pub ready-set : (pull : Fields) → is_ready (set "merge_ready" (bool false) pull) ≡ false
unfolding truthy
ready-set pull = ap truthy (at-set "merge_ready" (bool false) pull)

ready-aged : (pull : Fields) → is_ready (aged_of pull) ≡ false
unfolding aged_of
ready-aged pull =
    ready-set_other "stale" (bool true) (set "merge_ready" (bool false) pull) refl ∙ ready-set pull

ready-with_age :
    (sampled now : ℕ) (pull : Fields) → is_ready (with_age sampled now pull) ≡ is_ready pull
unfolding with_age
ready-with_age sampled now pull =
    ready-set_other "checks_age_seconds" (int ((now - sampled) / second)) pull refl

ready-present : (pull : Fields) → present "merge_ready" pull ≡ false → is_ready pull ≡ false
unfolding truthy
ready-present pull h = ap truthy (at-present "merge_ready" pull h)

-- A reading that is none, or at a time, and what it lets stand
abbrev FreshAt : Option ℕ → Fields → ℕ → Bool → Type 0
FreshAt o pull now repo_stale =
    (sampled : ℕ) × (o ≡ some sampled)
    × (sampled ≤ now)
    × (now ≤ sampled + beat_seconds * second)
    × (truthy (at "stale" pull) ≡ false)
    × (repo_stale ≡ false)

abbrev passes : ℕ → Fields → ℕ → Bool → Bool
passes sampled pull now repo_stale =
    leb sampled now
    && leb (now - sampled) (beat_seconds * second)
    && not (truthy (at "stale" pull))
    && not repo_stale

passes-FreshAt :
    (sampled : ℕ) (pull : Fields) (now : ℕ) (repo_stale : Bool)
    → passes sampled pull now repo_stale ≡ true
    → FreshAt (some sampled) pull now repo_stale
passes-FreshAt sampled pull now repo_stale h =
    (sampled, refl, ground arith, ground arith, ground arith, ground arith)

by_age-ready :
    (o : Option ℕ) (pull : Fields) (now : ℕ) (repo_stale : Bool)
    → is_ready (by_age o pull now repo_stale) ≡ true
    → (is_ready pull ≡ true) × FreshAt o pull now repo_stale
unfolding by_age
by_age-ready none pull now repo_stale h = ground (arith, ready-aged pull)
by_age-ready (some sampled) pull now repo_stale h =
    elim (Bool-cases (passes sampled pull now repo_stale)) [
      | inl e ↦ (rw (e, by_age) at h, passes-FreshAt sampled pull now repo_stale e)
      | inr e ↦ absurd (ground (arith, ready-aged pull, ready-with_age sampled now (aged_of pull)))
    ]

by_age-fresh :
    (o : Option ℕ) (pull : Fields) (now : ℕ) (repo_stale : Bool)
    → FreshAt o pull now repo_stale
    → by_age o pull now repo_stale ≡ pull
unfolding by_age
by_age-fresh o pull now repo_stale (sampled, e, past, recent, unstale, current) =
    rw (e, by_age) (ground arith)

unready : {b : Bool} (P : Type 0) → b ≡ false → (b ≡ true) ↔ ((b ≡ true) × P)
unready P h = (λ e. absurd (cc), λ both. both.0)

module _ (calendar : Calendar) where
  -- The checks were read at most three minutes ago, and neither they nor the repository's are stale.
  abbrev pub IsFresh : Fields → ℕ → Bool → Type 0
  IsFresh pull now repo_stale =
      (sampled : ℕ) × (parse_time calendar (at "checks_sampled_at" pull) ≡ some sampled)
      × (sampled ≤ now)
      × (now ≤ sampled + beat_seconds * second)
      × (truthy (at "stale" pull) ≡ false)
      × (repo_stale ≡ false)

  withheld-ready : (pull : Fields) (now : ℕ) → is_ready (withheld calendar pull now) ≡ false
  unfolding withheld
  withheld-ready pull now =
      elim (Option-cases (parse_time calendar (at "checks_sampled_at" pull))) [
        | inl e ↦ rw (e, withheld) (ready-aged pull)
        | inr (sampled, e) ↦
            rw (e, withheld) (ready-with_age sampled now (aged_of pull) ∙ ready-aged pull)
      ]

  behind-ready :
      (pull : Fields) (head : Head) (now : ℕ) → is_ready (behind calendar pull head now) ≡ false
  unfolding behind
  behind-ready pull head now =
      let aged = withheld calendar pull now in
      let moved =
        is_text (at "head_sha" aged) && not (is_same (at "head_sha" aged) (some head.sha)) in
      let why = str (if moved then previous_push else before_change) in
      let noted = set "attention" (bool true) aged in
      ready-set_other "head_changed" (bool moved) (set "attention_reason" why noted) refl
      ∙ ready-set_other "attention_reason" why noted refl
      ∙ ready-set_other "attention" (bool true) aged refl
      ∙ withheld-ready pull now

  -- What is shown from the store is never ready.
  pub show_stored-ready :
      (pull : Fields) (head : Option Head) (now : ℕ)
      → is_ready (show_stored calendar pull head now) ≡ false
  unfolding show_stored
  show_stored-ready pull none now = withheld-ready pull now
  show_stored-ready pull (some head) now = elim (Bool-cases (head_differs pull head)) [
    | inl e ↦ rw e (behind-ready pull head now)
    | inr e ↦ rw e (withheld-ready pull now)
  ]

  pub reconcile_pull-ready :
      (pull : Fields) (head : Option Head) (now : ℕ)
      → is_ready (reconcile_pull calendar pull head now) ≡ false
  unfolding reconcile_pull
  reconcile_pull-ready pull head now =
      ground (arith, show_stored-ready pull head now, ready-present pull)

  pub withhold_if_old-ready :
      (pull : Fields) (now : ℕ) (repo_stale : Bool)
      → (is_ready (withhold_if_old calendar pull now repo_stale) ≡ true)
        ↔ ((is_ready pull ≡ true) × IsFresh pull now repo_stale)
  unfolding withhold_if_old
  withhold_if_old-ready pull now repo_stale = elim (Bool-cases (has_reading pull)) [
    | inr e ↦ rw (e, withhold_if_old) (unready _ (ready-present pull (ground arith)))
    | inl e ↦
        let sampled = parse_time calendar (at "checks_sampled_at" pull) in
        rw (e, withhold_if_old)
          (
            by_age-ready sampled pull now repo_stale,
            λ both. ap is_ready (by_age-fresh sampled pull now repo_stale both.1) ∙ both.0,
          )
  ]
