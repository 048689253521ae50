-- ===== src/PinBump/Started.antt =====
-- gates/_pin_bump.py, `recent_runs`: how many runs started in the last hour.
use Prim.Native.Nat.{max}
use vibe_verifier.Base.{
  ℕ, ◌+◌, ◌-◌, ◌≡◌, ◌∙◌, ◌↔◌, refl, sym, ap, not, Bool, List, [], ◌∷◌, Result, ok, select, length,
  returned, arith,
}
use vibe_verifier.Base.Text.{Text, text, same}
use vibe_verifier.PinMerge.Changes.{Stop}
use vibe_verifier.PinBump.{Recent, Lane, recent_runs, sum_recent}

-- How many of the events are of scheduled runs
abbrev pub scheduled : List Text → ℕ
scheduled events = length (select (λ event. same event (text "schedule")) events)

-- Every repository answered, and so many runs started there, counted or listed, that were not listed as
-- scheduled.
abbrev pub Started : List Lane → ℕ → Type 0
Started [] n = n ≡ 0
Started (repo ∷ repos) n =
    (answer : Recent) × (more : ℕ) × (repo.recent ≡ ok answer)
    × Started repos more
    × (n + scheduled answer.events ≡ max answer.total_count (length answer.events) + more)

length-parts :
    (p : Text → Bool) (events : List Text)
    → length (select (λ event. not (p event)) events) + length (select p events) ≡ length events
length-parts p [] = refl
length-parts p (event ∷ events) = ground (arith, length-parts p events)

recent_runs-answered :
    (repo : Lane) (answer : Recent)
    → repo.recent ≡ ok answer
    → (runs : ℕ) × (recent_runs repo ≡ ok runs)
      × (runs + scheduled answer.events ≡ max answer.total_count (length answer.events))
unfolding recent_runs
recent_runs-answered repo answer e = (
  (answer.total_count - length answer.events)
      + length (select (λ event. not (same event (text "schedule"))) answer.events),
  rw e refl,
  omega (arith, length-parts (λ event. same event (text "schedule")) answer.events),
)

sum_recent-ok :
    (repo : Lane) (repos : List Lane) (n : ℕ)
    → sum_recent (repo ∷ repos) ≡ ok n
    → (answer : Recent) × (more : ℕ) × (repo.recent ≡ ok answer) × (sum_recent repos ≡ ok more)
unfolding recent_runs
sum_recent-ok repo repos n h =
    let (runs, counted, h') = returned (recent_runs repo) _ n h in
    let (answer, read, _) = returned repo.recent _ runs counted in
    let (more, summed, _) = returned (sum_recent repos) _ n h' in (answer, more, read, summed)

sum_recent-cons :
    (repo : Lane) (repos : List Lane) (answer : Recent) (more : ℕ)
    → repo.recent ≡ ok answer
    → sum_recent repos ≡ ok more
    → (n : ℕ) × (sum_recent (repo ∷ repos) ≡ ok n)
      × (n + scheduled answer.events ≡ max answer.total_count (length answer.events) + more)
sum_recent-cons repo repos answer more e e' =
    let (runs, counted, fits) = recent_runs-answered repo answer e in
    (runs + more, rw (counted, e') refl, omega (arith, fits))

ok-number : (a b : ℕ) → ◌≡◌ {A = Result Stop ℕ} (ok a) (ok b) → a ≡ b
ok-number a b h = cc

pub sum_recent-Started : (repos : List Lane) (n : ℕ) → (sum_recent repos ≡ ok n) ↔ Started repos n
sum_recent-Started [] n = (λ h. sym (ok-number 0 n h), λ h. ap ok (sym h))
sum_recent-Started (repo ∷ repos) n = (
  λ h.
      let (answer, more, read, summed) = sum_recent-ok repo repos n h in
      let (m, counted, fits) = sum_recent-cons repo repos answer more read summed in
      let same_count = ok-number m n (sym counted ∙ h) in
      (
        answer,
        more,
        read,
        (sum_recent-Started repos more).0 summed,
        omega (arith, fits, same_count),
      ),
  λ (answer, more, read, started, e).
      let summed = (sum_recent-Started repos more).1 started in
      let (m, counted, fits) = sum_recent-cons repo repos answer more read summed in
      let same_count : m ≡ n = omega (arith, fits, e) in counted ∙ ap ok same_count,
)
