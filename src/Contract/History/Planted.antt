-- ===== src/Contract/History/Planted.antt =====
-- Evidence that the pull request committed is never judged.
use vibe_verifier.Base.{
  ◌≡◌, ◌⊎◌, inl, inr, refl, Bool, true, false, some, List, [], ◌∷◌, ◌++◌, Result, ok, arith,
  is_empty, select-kept, is_empty-map,
}
use vibe_verifier.Base.Text.{Text, text, same, starts_with, same_iff, starts_with-append}
use vibe_verifier.Contract.Report.{Finding, Failure, Format, run_gate, blocking}
use vibe_verifier.Contract.History.{at_or_under, tracked_at, planted}

-- The directory is inside the repository, as `_tracked_at` reads its relative path.
abbrev pub IsInside : Text → Type 0
IsInside rel = (same rel (text "..") ≡ false) × (starts_with rel (text "../") ≡ false)

-- `path` is the directory itself, a file under it, or a link or submodule on the way to it.
abbrev pub IsSupplied : Text → Text → Type 0
IsSupplied rel path =
    (path ≡ rel)
    ⊎ ((name : Text) × (path ≡ rel ++ text "/" ++ name))
    ⊎ ((name : Text) × (rel ≡ path ++ text "/" ++ name))

at_or_under_of : (rel path : Text) → IsSupplied rel path → at_or_under rel path ≡ true
unfolding at_or_under
at_or_under_of rel path (inl e) = ground (arith, (same_iff path rel).1 e)
at_or_under_of rel path (inr (inl (name, e))) =
    rw e (ground (arith, starts_with-append (rel ++ text "/") name))
at_or_under_of rel path (inr (inr (name, e))) =
    rw e (ground (arith, starts_with-append (path ++ text "/") name))

tracked_at-supplied :
    (rel path : Text) (before after others : List Text)
    → IsInside rel
    → IsSupplied rel path
    → is_empty (tracked_at true (rel ∷ others) (before ++ path ∷ after)) ≡ false
unfolding tracked_at
tracked_at-supplied rel path before after others inside supplied =
    rw (inside.0, inside.1, is_empty-map)
      (select-kept _ before path after (rw (at_or_under_of rel path supplied)))

planted-blocks :
    (artifacts writer : Text) (tracked links : List Text)
    → is_empty tracked ≡ false
    → is_empty (blocking (planted artifacts writer tracked links)) ≡ false
unfolding planted
planted-blocks a w [] links h = cc
planted-blocks a w (t ∷ ts) links h = refl

run_gate-blocked :
    (soak_file : Bool) (gate : Text) (fmt : Format) (fs : List Finding)
    (checked : Result Failure (List Finding))
    → is_empty (blocking fs) ≡ false
    → (run_gate soak_file gate fmt false (some (ok fs)) checked).code ≡ 1
unfolding run_gate
run_gate-blocked sf gate fmt [] checked h = cc
run_gate-blocked sf gate fmt (f ∷ fs) checked h = ground arith

-- What the branch tracks at, under or on the way to the evidence directory, whatever else it
-- tracks, makes a gate that takes the evidence exit with 1 (the run being no soak), whatever its
-- own check would say of that evidence.
pub run_gate-planted :
    (rel path : Text) (before after others links : List Text)
    → IsInside rel
    → IsSupplied rel path
    → (artifacts writer gate : Text) (fmt : Format) (soak_file : Bool)
      (checked : Result Failure (List Finding))
    → (run_gate soak_file gate fmt false
        (some (
          ok (
            planted artifacts writer
              (tracked_at true (rel ∷ others) (before ++ path ∷ after))
              links)))
        checked).code
      ≡ 1
run_gate-planted rel path before after others links inside supplied a w gate fmt sf checked =
    run_gate-blocked sf gate fmt _ checked (
      planted-blocks a w _ links (tracked_at-supplied rel path before after others inside supplied))
