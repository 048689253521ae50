-- ===== src/Ratchet.antt =====
-- gates/_ratchet.py: the findings of a tool that are more than they were, counted by file and rule.
pub mod Counts
use vibe_verifier.Base.{
  ℕ, zero, suc, ◌+◌, Bool, true, false, not, ◌&&◌, ◌||◌, Option, none, some, List, [], ◌∷◌, ◌++◌,
  map, if◌then◌else◌, select, is_empty, ltb, eqb,
}
use vibe_verifier.Base.Text.{Text, text, same, decimal}
use vibe_verifier.Base.Text.Order.{before}
use vibe_verifier.Contract.Report.{Finding}

-- A finding of a tool, with the rule that its parser named
pub record Scanned : Type 0 where
  pub finding : Finding
  pub named_rule : Option Text

-- `rule`
unfoldable pub rule : Scanned → Text
rule f = elim f.named_rule [
  | none ↦ f.finding.message
  | some name ↦ if is_empty name then f.finding.message else name
]

-- `moved.get(path, path)`
abbrev pub origin : List (Text × Text) → Text → Text
origin [] path = path
origin ((new, old) ∷ moved) path =
    let rest = origin moved path in if same new path then old else rest

-- `_write_base`: the files written, with their text; `at_start` is git's file at the merge base.
unfoldable pub write_base :
    (Text → Option Text) → List (Text × Text) → List Text → List (Text × Text)
write_base at_start moved [] = []
write_base at_start moved (path ∷ files) = elim (at_start (origin moved path)) [
  | none ↦ write_base at_start moved files
  | some content ↦ (path, content) ∷ write_base at_start moved files
]

abbrev pub or_empty : Option Text → Text
or_empty none = []
or_empty (some s) = s

abbrev pub or_zero : Option ℕ → ℕ
or_zero none = 0
or_zero (some n) = n

-- `a < b` on the keys that the blocking findings are sorted by
unfoldable pub sorts_before : Finding → Finding → Bool
sorts_before a b =
    let a_path = or_empty a.path in
    let b_path = or_empty b.path in
    before a_path b_path
    || same a_path b_path
      && (ltb (or_zero a.line) (or_zero b.line)
          || eqb (or_zero a.line) (or_zero b.line) && before a.message b.message)

-- `sorted`, which keeps the order of findings with the same key
unfoldable pub insert : Scanned → List Scanned → List Scanned
unfolding sorts_before
insert f [] = f ∷ []
insert f (g ∷ gs) =
    let rest = insert f gs in if sorts_before g.finding f.finding then g ∷ rest else f ∷ g ∷ gs

unfoldable pub sorted : List Scanned → List Scanned
unfolding insert
sorted [] = []
sorted (f ∷ fs) = insert f (sorted fs)

abbrev pub blocks : Scanned → Bool
blocks f = not f.finding.advisory

-- The findings of one file and rule
pub record Key : Type 0 where
  pub path : Option Text
  pub rule_name : Text

abbrev pub same_path : Option Text → Option Text → Bool
same_path none none = true
same_path none (some b) = false
same_path (some a) none = false
same_path (some a) (some b) = same a b

unfoldable pub key_of : Scanned → Key
unfolding rule
key_of f = record { path = f.finding.path; rule_name = rule f }

unfoldable pub same_key : Key → Key → Bool
same_key a b = same_path a.path b.path && same a.rule_name b.rule_name

-- `Counter(...)[key]`
unfoldable pub count : Key → List Scanned → ℕ
unfolding key_of same_key
count key [] = 0
count key (f ∷ fs) = (if same_key (key_of f) key then 1 else 0) + count key fs

-- One finding of `rose`
unfoldable pub risen : Scanned → ℕ → ℕ → Finding
unfolding rule
risen f was now = record {
  message =
      f.finding.message
      ++ text " ("
      ++ rule f
      ++ text " results in this file: "
      ++ decimal was
      ++ text " at the base, "
      ++ decimal now
      ++ text " now)";
  path = f.finding.path;
  line = f.finding.line;
  advisory = false;
}

-- `rose`, of the blocking findings that are left; `was` and `blocking` are counted.
unfoldable pub rose : List Scanned → List Scanned → List Scanned → List Finding
unfolding count risen
rose was blocking [] = []
rose was blocking (f ∷ fs) =
    let rest = rose was blocking fs in
    let old = count (key_of f) was in
    let now = count (key_of f) blocking in if ltb old now then risen f old now ∷ rest else rest

abbrev pub scanned : (List (Text × Text) → List Scanned) → List (Text × Text) → List Scanned
scanned scan [] = []
scanned scan (file ∷ files) = scan (file ∷ files)

-- `count_ratchet`; `scan` runs the tool on the files written.
unfoldable pub count_ratchet :
    (Text → Option Text)
    → List (Text × Text)
    → (List (Text × Text) → List Scanned)
    → List Text
    → List Scanned
    → List Finding
unfolding write_base sorted rose
count_ratchet at_start moved scan files head =
    let found = scanned scan (write_base at_start moved files) in
    let blocking = sorted (select blocks head) in
    map (λ f. f.finding) (select (λ f. f.finding.advisory) head)
    ++ rose (select blocks found) blocking blocking
