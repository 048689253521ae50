-- ===== src/MergeGrant/Decide/Paths.antt =====
-- gates/_merge_grant.py, `_paths`: what a test of the sorted paths says of each changed file.
use vibe_verifier.Base.{
  ◌≡◌, refl, sym, ◌∙◌, Bool, false, not, ◌&&◌, List, [], ◌∷◌, any, select, is_empty, if◌then◌else◌,
  All, arith,
}
use vibe_verifier.Base.Text.{Text}
use vibe_verifier.Base.Text.Order.{any-sorted_set}
use vibe_verifier.MergeGrant.Policy.{Row, all_paths, paths}

-- What a test says of both paths of a file, where it has them
abbrev pub BothPaths : (Text → Bool) → Row → Type 0
BothPaths p row =
    (not (is_empty row.old) && p row.old ≡ false) × (not (is_empty row.new) && p row.new ≡ false)

both_parts :
    (p : Text → Bool) (old new : Text) (rest : List Text)
    → any p (
        if not (is_empty old)
        then old ∷ (if not (is_empty new) then new ∷ rest else rest)
        else if not (is_empty new)
        then new ∷ rest
        else rest)
      ≡ false
    → (not (is_empty old) && p old ≡ false)
      × (not (is_empty new) && p new ≡ false)
      × (any p rest ≡ false)
both_parts p [] [] rest h = (refl, refl, h)
both_parts p [] (d ∷ new) rest h = (refl, ground arith, ground arith)
both_parts p (c ∷ old) [] rest h = (ground arith, refl, ground arith)
both_parts p (c ∷ old) (d ∷ new) rest h = (ground arith, ground arith, ground arith)

any-both :
    (p : Text → Bool) (rows : List Row)
    → any p (select (λ path. not (is_empty path)) (all_paths rows)) ≡ false
    → All (BothPaths p) rows
any-both p [] h = tt
any-both p (row ∷ rows) h =
    let parts =
      both_parts p row.old row.new (select (λ path. not (is_empty path)) (all_paths rows)) h in
    ((parts.0, parts.1), any-both p rows parts.2)

pub any-paths :
    (p : Text → Bool) (rows : List Row) → any p (paths rows) ≡ false → All (BothPaths p) rows
unfolding paths
any-paths p rows h =
    any-both p rows
      (sym (any-sorted_set p (select (λ path. not (is_empty path)) (all_paths rows))) ∙ h)
