-- ===== src/Contract/History.antt =====
-- gates/_contract.py, what a gate reads of the repository: the base it compares with, renamed
-- files, and evidence that the checkout supplied.
pub mod Planted
use vibe_verifier.Base.{
  Bool, false, not, ◌&&◌, ◌||◌, Option, none, some, List, [], ◌∷◌, ◌++◌, map, Result, ok, err, any,
  select, first, is_empty, if◌then◌else◌,
}
use vibe_verifier.Base.Text.{Text, text, same, starts_with}
use vibe_verifier.Contract.Report.{Finding, Failure, cannot_run}

module _ (is_commit : Text → Bool) where
  -- `for candidate in ("origin/" + name, name)`
  unfoldable pub candidate : Text → Option Text
  candidate name = first is_commit ((text "origin/" ++ name) ∷ name ∷ [])

  abbrev pub fallback : List Text → Option Text
  fallback [] = none
  fallback (name ∷ names) =
      let later = fallback names in
      if is_empty name then later else elim (candidate name) [ none ↦ later | some ref ↦ some ref ]

  abbrev pub or_previous : Option Text → Result Failure Text
  or_previous (some ref) = ok ref
  or_previous none =
      if is_commit (text "HEAD~1")
      then ok (text "HEAD~1")
      else err (
          cannot_run (
            text
              "no base ref to compare against: pass --base-ref, or fetch history (fetch-depth: 0)"))

  abbrev pub or_misconfigured : Text → Option Text → Result Failure Text
  or_misconfigured explicit (some ref) = ok ref
  or_misconfigured explicit none =
      err (cannot_run (text "--base-ref '" ++ explicit ++ text "' does not resolve to a commit"))

  -- `resolve_base`; `%r` is written for a name without quotes or backslashes. Git's answers are `is_commit`; an environment variable that is not set reads
  -- as the empty text, which `filter(None, ...)` drops too.
  unfoldable pub resolve_base : Text → Text → Text → Result Failure Text
  unfolding candidate
  resolve_base explicit base_env github_env =
      if is_empty explicit
      then or_previous (fallback (base_env ∷ github_env ∷ text "main" ∷ text "master" ∷ []))
      else or_misconfigured explicit (candidate explicit)

-- `_rename_pairs`: the old path of each new one. None is the IndexError of a record cut short.
-- A later pair of a path stands in front, as the later assignment to the dict holds.
unfoldable pub rename_pairs : List Text → List (Text × Text) → Option (List (Text × Text))
rename_pairs [] pairs = some pairs
rename_pairs (status ∷ []) pairs = if starts_with status (text "R") then none else some pairs
rename_pairs (status ∷ a ∷ []) pairs = if starts_with status (text "R") then none else some pairs
rename_pairs (status ∷ old ∷ new ∷ fields) pairs =
    let renamed = rename_pairs fields ((new, old) ∷ pairs) in
    let other = rename_pairs (new ∷ fields) pairs in
    if starts_with status (text "R") then renamed else other

-- The test of `_tracked_at`: `path` is `rel`, under it, or on the way to it.
unfoldable pub at_or_under : Text → Text → Bool
at_or_under rel path =
    same path rel || starts_with path (rel ++ text "/") || starts_with rel (path ++ text "/")

-- `_tracked_at` from the sorted tracked paths and the spellings of the directory relative to the repository; a spelling outside
-- the repository is dropped, and outside a repository nothing is tracked.
unfoldable pub tracked_at : Bool → List Text → List Text → List Text
unfolding at_or_under
tracked_at in_repository spellings tracked =
    let inside =
      select (λ rel. not (same rel (text "..")) && not (starts_with rel (text "../"))) spellings in
    if is_empty inside || not in_repository
    then []
    else map (λ path. text "the pull request tracks " ++ path)
        (select (λ path. any (λ rel. at_or_under rel path) inside) tracked)

-- `planted` from the tracked paths and the symbolic links of the evidence directory.
unfoldable pub planted : Text → Text → List Text → List Text → List Finding
planted artifacts writer tracked links =
    map
      (λ why. record {
        message =
            text "the evidence in "
            ++ artifacts
            ++ text " is not only the run's own, so none of it is judged: "
            ++ why
            ++ text ". It holds what "
            ++ writer
            ++ text " wrote and nothing else: remove that from the pull request";
        path = none;
        line = none;
        advisory = false;
      })
      (tracked ++ links)
