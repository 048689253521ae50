-- ===== src/HeadState/Reading/Numbers.antt =====
-- dashboard/head_state.py: a pull request keeps its number through a reading.
use vibe_verifier.Base.{
  ℕ, ◌-◌, ◌/◌, ◌≡◌, refl, ◌∙◌, inl, inr, true, false, not, ◌&&◌, Option, none, some, if◌then◌else◌,
  arith, Bool-cases, Option-cases,
}
use vibe_verifier.Base.Json.{bool, int, str, Fields}
use vibe_verifier.Base.Json.Dict.{set, at, at-set_other}
use vibe_verifier.HeadState.Pull.{
  Calendar, Head, second, is_text, is_same, previous_push, before_change, head_differs, parse_time,
  aged_of, with_age, withheld, behind, show_stored, reconcile_pull,
}
use vibe_verifier.HeadState.Reading.{stamp_under}
use vibe_verifier.HeadState.Reading.Open.{at-stamp_under}

number-aged_of : (pull : Fields) → at "number" (aged_of pull) ≡ at "number" pull
unfolding aged_of
number-aged_of pull =
    at-set_other "number" "stale" (bool true) (set "merge_ready" (bool false) pull) refl
    ∙ at-set_other "number" "merge_ready" (bool false) pull refl

number-with_age :
    (sampled now : ℕ) (pull : Fields) → at "number" (with_age sampled now pull) ≡ at "number" pull
unfolding with_age
number-with_age sampled now pull =
    at-set_other "number" "checks_age_seconds" (int ((now - sampled) / second)) pull refl

module _ (calendar : Calendar) where
  number-withheld :
      (pull : Fields) (now : ℕ) → at "number" (withheld calendar pull now) ≡ at "number" pull
  unfolding withheld
  number-withheld pull now =
      elim (Option-cases (parse_time calendar (at "checks_sampled_at" pull))) [
        | inl e ↦ rw (e, withheld) (number-aged_of pull)
        | inr (sampled, e) ↦
            rw (e, withheld) (number-with_age sampled now (aged_of pull) ∙ number-aged_of pull)
      ]

  number-behind :
      (pull : Fields) (head : Head) (now : ℕ)
      → at "number" (behind calendar pull head now) ≡ at "number" pull
  unfolding behind
  number-behind pull head now =
      let aged = withheld calendar pull now in
      let moved =
        is_text (at "head_sha" aged) && not (is_same (at "head_sha" aged) (some head.sha)) in
      let why = str (if moved then previous_push else before_change) in
      let noted = set "attention" (bool true) aged in
      at-set_other "number" "head_changed" (bool moved) (set "attention_reason" why noted) refl
      ∙ at-set_other "number" "attention_reason" why noted refl
      ∙ at-set_other "number" "attention" (bool true) aged refl
      ∙ number-withheld pull now

  number-show_stored :
      (pull : Fields) (head : Option Head) (now : ℕ)
      → at "number" (show_stored calendar pull head now) ≡ at "number" pull
  unfolding show_stored
  number-show_stored pull none now = number-withheld pull now
  number-show_stored pull (some head) now = elim (Bool-cases (head_differs pull head)) [
    | inl e ↦ rw e (number-behind pull head now)
    | inr e ↦ rw e (number-withheld pull now)
  ]

  number-reconcile_pull :
      (pull : Fields) (head : Option Head) (now : ℕ)
      → at "number" (reconcile_pull calendar pull head now) ≡ at "number" pull
  unfolding reconcile_pull
  number-reconcile_pull pull head now = ground (arith, number-show_stored pull head now)

  pub number-shown :
      (head : Option Head) (pull : Fields) (now : ℕ)
      → at "number" (stamp_under head (reconcile_pull calendar pull head now)) ≡ at "number" pull
  number-shown head pull now =
      at-stamp_under "number" head (reconcile_pull calendar pull head now) refl refl
      ∙ number-reconcile_pull pull head now
