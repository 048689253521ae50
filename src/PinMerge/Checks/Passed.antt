-- ===== src/PinMerge/Checks/Passed.antt =====
-- gates/_pin_merge.py, `checks`: a head that it has nothing to say of has passed.
use vibe_verifier.Base.{
  inl, inr, ◌≡◌, Bool, true, false, ◌&&◌, ◌||◌, none, some, List, any, is_empty, All, All-map,
  arith, Option-cases, none_selected, All-both,
}
use vibe_verifier.Base.Text.{Text}
use vibe_verifier.PinMerge.Checks.{
  Check, one_of, passed, gate_checks, has_failed, is_running, is_success, checks,
}

-- A check that has finished, and has not failed
pub Finished : Check → Type 0
Finished check =
    (result : Text) × (check.result ≡ some result)
    × ((is_empty result || one_of passed result) ≡ true)

Finished-of_tests :
    (check : Check) → has_failed check ≡ false → is_running check ≡ false → Finished check
unfolding has_failed Finished
Finished-of_tests check unfailed ended = elim (Option-cases check.result) [
  | inl e ↦ ground arith
  | inr (result, e) ↦ (result, e, ground arith)
]

-- What `checks` has to find before it lets a head pass
pub Passes : List Check → Bool → Type 0
Passes results gated =
    All Finished results
    × ((gated ≡ true) → any (λ c. one_of gate_checks c.name && is_success c) results ≡ true)
    × (any is_success results ≡ true)

-- A head about which `checks` has nothing to say: every check has finished and none has failed, one
-- succeeded, and where the bump is of the catalog's pins the gate job succeeded.
pub checks-Passes :
    (results : List Check) (gated : Bool) → checks results gated ≡ none → Passes results gated
unfolding checks Passes
checks-Passes results gated h = (
  All-map (λ c. (has_failed c ≡ false) × (is_running c ≡ false)) Finished
      (λ c tests. Finished-of_tests c tests.0 tests.1) results
      (All-both (λ c. has_failed c ≡ false) (λ c. is_running c ≡ false) results
        (none_selected has_failed results (ground arith))
        (none_selected is_running results (ground arith))),
  (λ is_gated. ground arith),
  ground arith,
)
