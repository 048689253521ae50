-- ===== src/Base/Fnmatch.antt =====
-- `fnmatch.fnmatchcase`: `*`, `?` and a set in brackets, against the whole text.
use vibe_verifier.Base.{
  ℕ, Bool, true, false, not, ◌&&◌, ◌||◌, List, [], ◌∷◌, ◌++◌, if◌then◌else◌, any, is_empty, eqb,
  leb,
}
use vibe_verifier.Base.Text.{Text}

-- An item of a set: the characters between two.
abbrev pub Range : Type 0
Range = ℕ × ℕ

pub data Part : Type 0 where
  star : Part
  one : Part
  char : ℕ → Part
  set : Bool → List Range → Part

abbrev pub in_range : ℕ → Range → Bool
in_range c (low, high) = leb low c && leb c high

abbrev pub part_takes : Part → ℕ → Bool
part_takes star c = false
part_takes one c = true
part_takes (char d) c = eqb c d
part_takes (set negated ranges) c =
    if negated then not (any (in_range c) ranges) else any (in_range c) ranges

-- The items of a set; a hyphen between two characters makes a range.
abbrev pub ranges_of : Text → List Range
ranges_of [] = []
ranges_of (a ∷ []) = (a, a) ∷ []
ranges_of (a ∷ b ∷ []) = (a, a) ∷ (b, b) ∷ []
ranges_of (a ∷ b ∷ c ∷ s) =
    let apart = (a, a) ∷ ranges_of (b ∷ c ∷ s) in
    let range = (a, c) ∷ ranges_of s in if eqb b 45 then range else apart

abbrev pub set_of : Text → Part
set_of [] = set false []
set_of (c ∷ s) = if eqb c 33 then set true (ranges_of s) else set false (ranges_of (c ∷ s))

-- Outside a set, or in one with the characters read so far
pub data Mode : Type 0 where
  plain : Mode
  opened : Text → Mode

-- `]` ends a set unless it stands first, behind a `!` or not.
abbrev pub ends_set : Text → ℕ → Bool
ends_set [] c = false
ends_set (b ∷ []) c = eqb c 93 && not (eqb b 33)
ends_set (b ∷ d ∷ read) c = eqb c 93

-- Whether a set that was opened has an end; one that has none is a bracket of its own.
abbrev pub has_end : Text → Text → Bool
has_end read [] = false
has_end read (c ∷ s) = ends_set read c || has_end (read ++ c ∷ []) s

-- The parts of a pattern; a set is opened only where it has an end.
unfoldable pub parts_from : Mode → Text → List Part
parts_from plain [] = []
parts_from (opened read) [] = []
parts_from plain (c ∷ s) =
    let rest = parts_from plain s in
    let in_set = parts_from (opened []) s in
    if eqb c 91 && has_end [] s
    then in_set
    else if eqb c 42
    then star ∷ rest
    else if eqb c 63
    then one ∷ rest
    else char c ∷ rest
parts_from (opened read) (c ∷ s) =
    let rest = parts_from plain s in
    let more = parts_from (opened (read ++ c ∷ [])) s in
    if ends_set read c then set_of read ∷ rest else more

abbrev pub star_from : (Text → Bool) → Text → Bool
star_from rest [] = rest []
star_from rest (c ∷ s) = rest (c ∷ s) || star_from rest s

abbrev pub one_from : Part → (Text → Bool) → Text → Bool
one_from part rest [] = false
one_from part rest (c ∷ s) = part_takes part c && rest s

unfoldable pub matches_parts : List Part → Text → Bool
matches_parts [] s = is_empty s
matches_parts (star ∷ parts) s = star_from (matches_parts parts) s
matches_parts (one ∷ parts) s = one_from one (matches_parts parts) s
matches_parts (char c ∷ parts) s = one_from (char c) (matches_parts parts) s
matches_parts (set negated ranges ∷ parts) s = one_from (set negated ranges) (matches_parts parts) s

-- `fnmatch.fnmatchcase(name, pattern)`
unfoldable pub fnmatchcase : Text → Text → Bool
unfolding parts_from matches_parts
fnmatchcase name pattern = matches_parts (parts_from plain pattern) name
