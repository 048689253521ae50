-- ===== src/Contract/Report/Verdict.antt =====
-- What the exit code of a gate says, and what a soak changes.
use vibe_verifier.Base.{
  ◌≡◌, ◌≢◌, ◌↔◌, ◌⊎◌, refl, sym, subst, Bool, true, Option, none, some, List, [], ◌∷◌, Result, ok,
  err, arith, All, is_empty,
}
use vibe_verifier.Base.Text.{Text}
use vibe_verifier.Contract.Report.{
  Finding, Outcome, Failure, ended, Format, plain, github, json, blocking, report, run_gate,
}

-- The gate's own result: what is planted stands before the check.
abbrev pub judged :
    Option (Result Failure (List Finding))
    → Result Failure (List Finding)
    → Result Failure (List Finding)
judged none checked = checked
judged (some (ok [])) checked = checked
judged (some (ok (f ∷ fs))) checked = ok (f ∷ fs)
judged (some (err why)) checked = err why

-- No finding blocks.
abbrev pub IsClean : List Finding → Type 0
IsClean = All (λ f. f.advisory ≡ true)

blocking-IsClean : (fs : List Finding) → (is_empty (blocking fs) ≡ true) ↔ IsClean fs
blocking-IsClean [] = (λ _. tt, λ _. refl)
blocking-IsClean (f ∷ fs) = ground (arith, blocking-IsClean fs)

report-code :
    (soak_file : Bool) (gate : Text) (fs : List Finding) (fmt : Format) (soak : Bool)
    → ((report soak_file gate fs fmt soak).code ≢ 2)
      × (((report soak_file gate fs fmt soak).code ≡ 0) ↔ ((soak ≡ true) ⊎ IsClean fs))
unfolding report
report-code soak_file gate fs fmt soak = ground (arith, blocking-IsClean fs)

abbrev Judges : Outcome → Bool → Result Failure (List Finding) → Type 0
Judges o soak r =
    ((o.code ≡ 2) ↔ ((why : Failure) × (r ≡ err why)))
    × ((o.code ≡ 0) ↔ ((fs : List Finding) × (r ≡ ok fs) × ((soak ≡ true) ⊎ IsClean fs)))

ok-injective :
    {fs gs : List Finding} → ◌≡◌ {A = Result Failure (List Finding)} (ok fs) (ok gs) → fs ≡ gs
ok-injective p = cc

ended-code :
    (soak_file : Bool) (gate : Text) (fmt : Format) (soak : Bool)
    (r : Result Failure (List Finding))
    → Judges (ended soak_file gate fmt soak r) soak r
ended-code a g fmt s (ok fs) = (
  (λ h. absurd ((report-code a g fs fmt s).0 h), λ (why, p). cc),
  (
    λ h. (fs, refl, (report-code a g fs fmt s).1.0 h),
    λ (gs, p, k).
        (report-code a g fs fmt s).1.1
          (subst (λ l. (s ≡ true) ⊎ IsClean l) (sym (ok-injective p)) k),
  ),
)
ended-code a g plain s (err why) =
    ((λ _. (why, refl), λ _. refl), (λ h. absurd (omega arith), λ (gs, p, k). cc))
ended-code a g github s (err why) =
    ((λ _. (why, refl), λ _. refl), (λ h. absurd (omega arith), λ (gs, p, k). cc))
ended-code a g json s (err why) =
    ((λ _. (why, refl), λ _. refl), (λ h. absurd (omega arith), λ (gs, p, k). cc))

-- A gate exits with 2 exactly where it could not judge, a soak or not. It exits with 0 exactly where
-- it judged and the run is a soak or none of its findings blocks.
pub run_gate-exit_code :
    (soak_file : Bool) (gate : Text) (fmt : Format) (soak : Bool)
    (evidence : Option (Result Failure (List Finding))) (checked : Result Failure (List Finding))
    → (((run_gate soak_file gate fmt soak evidence checked).code ≡ 2)
        ↔ ((why : Failure) × (judged evidence checked ≡ err why)))
      × (((run_gate soak_file gate fmt soak evidence checked).code ≡ 0) ↔ (
          (fs : List Finding) × (judged evidence checked ≡ ok fs) × ((soak ≡ true) ⊎ IsClean fs)))
unfolding run_gate
run_gate-exit_code a g t s none c = ended-code a g t s c
run_gate-exit_code a g t s (some (ok [])) c = ended-code a g t s c
run_gate-exit_code a g t s (some (ok (f ∷ fs))) c = ended-code a g t s (ok (f ∷ fs))
run_gate-exit_code a g t s (some (err why)) c = ended-code a g t s (err why)
