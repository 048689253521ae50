-- ===== src/MergeGrant/Lines.antt =====
-- gates/_merge_grant.py, `_in_context`, `_changed_lines` and `_line_hit`: the lines of a file that a pull
-- request removes or adds, each compared under the lines that it is nested in.
pub mod Unchanged
use vibe_verifier.Base.{
  ℕ, zero, suc, ◌-◌, Bool, true, false, not, ◌&&◌, ◌||◌, Option, none, some, List, [], ◌∷◌, ◌++◌,
  map, if◌then◌else◌, any, is_empty, leb, length,
}
use vibe_verifier.Base.Text.{Text, starts_with, split, strip, lstrip, join}
use vibe_verifier.Base.Diff.{Line, diff}

-- A line that others are nested in: its indentation and its text
pub record Nested : Type 0 where
  pub indent : ℕ
  pub shown : Text

-- `while stack and stack[-1][0] >= indent: stack.pop()`, the top first
unfoldable pub unwind : ℕ → List Nested → List Nested
unwind indent [] = []
unwind indent (top ∷ stack) =
    let rest = unwind indent stack in if leb indent top.indent then rest else top ∷ stack

abbrev pub indent_of : Text → ℕ
indent_of line = length line - length (lstrip line)

-- The stack behind a line; blank lines and comments leave it.
unfoldable pub stack_behind : List Nested → Text → List Nested
unfolding unwind
stack_behind stack line =
    let shown = strip line in
    if not (is_empty shown) && not (starts_with shown (35 ∷ []))
    then record { indent = indent_of line; shown = shown } ∷ unwind (indent_of line) stack
    else stack

abbrev pub below_top : List Nested → List Nested
below_top [] = []
below_top (top ∷ stack) = stack

-- The texts of a stack, the bottom first
abbrev pub from_bottom : List Nested → List Text
from_bottom [] = []
from_bottom (top ∷ stack) = from_bottom stack ++ top.shown ∷ []

-- `_in_context`, with each line kept beside its key
unfoldable pub in_context : List Nested → List Text → List Line
unfolding stack_behind
in_context stack [] = []
in_context stack (line ∷ lines) =
    let stack' = stack_behind stack line in
    record {
      compared = join (31 ∷ []) (from_bottom (below_top stack')) ++ 0 ∷ line;
      written = line;
    }
    ∷ in_context stack' lines

-- A compiled pattern, by what `search` finds, and `sub(" ", ...)` of one
abbrev pub Search : Type 0
Search = Text → Bool

-- `lines` of an exclusion
pub record LinesRule : Type 0 where
  pub changed : Option Search
  pub removed : Option Search
  pub strip_all : Option (Text → Text)
  pub ignore_case : Bool

abbrev pub or_empty : Option Text → Text
or_empty none = []
or_empty (some s) = s

abbrev pub written_of : List Line → List Text
written_of [] = []
written_of (line ∷ lines) = line.written ∷ written_of lines

-- The lines of a file, in their context
abbrev pub context_of : Option Text → List Line
context_of content = in_context [] (split 10 (or_empty content))

abbrev pub finds : Option Search → List Text → Bool
finds none lines = false
finds (some search) lines = any search lines

-- `lower` is Unicode's lower case of a text.
module _ (lower : Text → Text) where
  -- `prepare`
  abbrev pub prepare : LinesRule → Text → Text
  prepare rule line =
      let folded = if rule.ignore_case then lower line else line in
      elim rule.strip_all [ none ↦ folded | some sub ↦ sub folded ]

  -- `_changed_lines`
  unfoldable pub changed_lines : LinesRule → Option Text → Option Text → List Text × List Text
  unfolding in_context diff
  changed_lines rule base head =
      let (removed, added) = diff (context_of base) (context_of head) in
      (map (prepare rule) (written_of removed), map (prepare rule) (written_of added))

  -- `_line_hit`
  unfoldable pub line_hit : LinesRule → Option Text → Option Text → Bool
  unfolding changed_lines
  line_hit rule base head =
      let (removed, added) = changed_lines rule base head in
      finds rule.changed (removed ++ added) || finds rule.removed removed
