-- ===== src/HeadState/Detail/Ready.antt =====
-- dashboard/head_state.py: how long a pull request that was detailed may be shown as ready to merge.
use vibe_verifier.Base.{
  ℕ, String, ◌==◌, ◌+◌, ◌*◌, ◌≤◌, ◌≡◌, refl, sym, ap, ◌∙◌, subst, ◌↔◌, Bool, true, false, not, ◌&&◌,
  Option, none, some, if◌then◌else◌, arith,
}
use vibe_verifier.Base.Json.{Json, bool, str, Fields, truthy}
use vibe_verifier.Base.Json.Dict.{set, remove, at, at-set, at-set_other, at-remove_other}
use vibe_verifier.HeadState.Pull.{
  Calendar, Head, parse_time, beat_seconds, second, of_text, withhold_if_old,
}
use vibe_verifier.HeadState.Pull.Fresh.{
  is_ready, IsFresh, ready-set, ready-set_other, withhold_if_old-ready,
}
use vibe_verifier.HeadState.Collect.{Key, find, find_at, Collector}
use vibe_verifier.HeadState.Detail.{is_known, rollup_of, or_success, detailed, remember_pull}

-- What `detailed` writes, with the values that it computes as variables
written : Json → Json → Json → Fields → Fields
written known rollup sampled judged = set "rollup_known" known (
    set "rollup" rollup (
      remove "checks_age_seconds"
        (set "stale" (bool false) (set "checks_sampled_at" sampled judged))))

at-written :
    (k : String) (known rollup sampled : Json) (judged : Fields)
    → (k == "rollup_known") ≡ false
    → (k == "rollup") ≡ false
    → (k == "checks_age_seconds") ≡ false
    → at k (written known rollup sampled judged)
      ≡ at k (set "stale" (bool false) (set "checks_sampled_at" sampled judged))
unfolding written
at-written k known rollup sampled judged a b c =
    at-set_other k "rollup_known" known _ a
    ∙ at-set_other k "rollup" rollup _ b
    ∙ at-remove_other k "checks_age_seconds" _ c

-- The rollup of the head lets the pull request be ready.
abbrev pub IsSuccess : Option Head → Fields → Type 0
IsSuccess head pull = is_known head pull ≡ true → or_success (rollup_of head) ≡ true

ready-written :
    (known rollup sampled : Json) (judged : Fields)
    → is_ready (written known rollup sampled judged) ≡ is_ready judged
ready-written known rollup sampled judged =
    ap truthy (at-written "merge_ready" known rollup sampled judged refl refl refl)
    ∙ ready-set_other "stale" (bool false) (set "checks_sampled_at" sampled judged) refl
    ∙ ready-set_other "checks_sampled_at" sampled judged refl

ready_unless :
    (known good : Bool) (pull : Fields)
    → (is_ready (if known && not good then set "merge_ready" (bool false) pull else pull) ≡ true)
      ↔ ((is_ready pull ≡ true) × (known ≡ true → good ≡ true))
ready_unless false good pull = (λ h. (h, λ e. absurd (cc)), λ both. both.0)
ready_unless true true pull = (λ h. (h, λ e. refl), λ both. both.0)
ready_unless true false pull =
    let unready = ready-set pull in (λ h. absurd (cc), λ both. absurd (let b = both.1 refl in cc))

detailed-ready :
    (calendar : Calendar) (head : Option Head) (pull : Fields) (now : ℕ)
    → (is_ready (detailed calendar head pull now) ≡ true)
      ↔ ((is_ready pull ≡ true) × IsSuccess head pull)
unfolding detailed written
detailed-ready calendar head pull now =
    let known = is_known head pull in
    let rollup = if known then rollup_of head else none in
    let judged =
      if known && not (or_success rollup) then set "merge_ready" (bool false) pull else pull in
    let same_ready =
      ready-written (bool known) (of_text rollup) (str (calendar.write now)) judged in
    let both = ready_unless known (or_success rollup) pull in
    (
      λ h.
          let parts = both.0 (sym same_ready ∙ h) in
          (
            parts.0,
            λ k. subst (λ b. or_success (if b then rollup_of head else none) ≡ true) k (parts.1 k),
          ),
      λ parts.
          same_ready
          ∙ both.1 (
            parts.0,
            λ k.
                subst (λ b. or_success (if b then rollup_of head else none) ≡ true) (sym k)
                  (parts.1 k),
          ),
    )

at-detailed :
    (calendar : Calendar) (head : Option Head) (pull : Fields) (now : ℕ)
    → (at "checks_sampled_at" (detailed calendar head pull now) ≡ str (calendar.write now))
      × (at "stale" (detailed calendar head pull now) ≡ bool false)
unfolding detailed written
at-detailed calendar head pull now =
    let known = is_known head pull in
    let rollup = if known then rollup_of head else none in
    let judged =
      if known && not (or_success rollup) then set "merge_ready" (bool false) pull else pull in
    let sampled = str (calendar.write now) in
    (
      at-written "checks_sampled_at" (bool known) (of_text rollup) sampled judged refl refl refl
          ∙ at-set_other "checks_sampled_at" "stale" (bool false)
              (set "checks_sampled_at" sampled judged) refl
          ∙ at-set "checks_sampled_at" sampled judged,
      at-written "stale" (bool known) (of_text rollup) sampled judged refl refl refl
          ∙ at-set "stale" (bool false) (set "checks_sampled_at" sampled judged),
    )

-- Two times in the order of a calendar that reads what it writes
module _ (calendar : Calendar) (reads : (t : ℕ) → calendar.parse (calendar.write t) ≡ some t) where
  detailed-IsFresh :
      (head : Option Head) (pull : Fields) (start now : ℕ)
      → IsFresh calendar (detailed calendar head pull start) now false
        ↔ ((start ≤ now) × (now ≤ start + beat_seconds * second))
  unfolding parse_time truthy
  detailed-IsFresh head pull start now =
      let fields = at-detailed calendar head pull start in
      let sampled : parse_time calendar (at "checks_sampled_at" (detailed calendar head pull start))
          ≡ some start =
        ap (parse_time calendar) fields.0 ∙ reads start in
      let unstale : truthy (at "stale" (detailed calendar head pull start)) ≡ false =
        ap truthy fields.1 in
      (
        λ (t, e, past, recent, unstale_so, current).
            let equal : t ≡ start = ground (arith, sym e ∙ sampled) in (omega arith, omega arith),
        λ (past, recent). (start, sampled, past, recent, unstale, refl),
      )

  detailed_shown :
      (head : Option Head) (pull : Fields) (start now : ℕ)
      → (is_ready (withhold_if_old calendar (detailed calendar head pull start) now false) ≡ true)
        ↔ ((is_ready pull ≡ true)
            × IsSuccess head pull
            × (start ≤ now)
            × (now ≤ start + beat_seconds * second))
  detailed_shown head pull start now =
      let judged = withhold_if_old-ready calendar (detailed calendar head pull start) now false in
      let found = detailed-ready calendar head pull start in
      let fresh = detailed-IsFresh head pull start now in
      (
        λ h.
            let both = judged.0 h in
            let ready = found.0 both.0 in
            let time = fresh.0 both.1 in (ready.0, ready.1, time.0, time.1),
        λ (ready, success, past, recent).
            judged.1 (found.1 (ready, success), fresh.1 (past, recent)),
      )

  -- A pull request that a pass has detailed is shown as ready to merge exactly where the pass found it
  -- ready, no rollup other than SUCCESS is known of its head, and the time is within three minutes after
  -- the pass, if the calendar reads back the times that it writes and the repository is not stale.
  pub remember_pull-ready :
      (collector : Collector) (key : Option Key) (pull : Fields) (start now : ℕ)
      → (is_ready
            (withhold_if_old calendar (remember_pull calendar collector key pull start).1 now false)
          ≡ true)
        ↔ ((is_ready pull ≡ true)
            × IsSuccess (find_at key collector.heads) pull
            × (start ≤ now)
            × (now ≤ start + beat_seconds * second))
  unfolding remember_pull
  remember_pull-ready collector none pull start now = detailed_shown none pull start now
  remember_pull-ready collector (some key) pull start now =
      detailed_shown (find key collector.heads) pull start now
