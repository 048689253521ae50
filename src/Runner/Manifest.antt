-- ===== src/Runner/Manifest.antt =====
-- bin/cli/runner.py, `parse_entries` and `judged_entries`: the lines of a manifest, and on a pull
-- request the union of the head's lines with the base's.
pub mod Union
use vibe_verifier.Base.{
  ℕ, zero, suc, Bool, true, false, not, ◌&&◌, ◌||◌, Option, none, some, List, [], ◌∷◌, ◌++◌, Result,
  ok, err, ◌>>=◌, if◌then◌else◌, any, is_empty,
}
use vibe_verifier.Base.Text.{Text, text, same, splitlines, decimal}
use vibe_verifier.Base.Shlex.{shlex_split}

-- One manifest line: a gate and its arguments.
pub record Entry : Type 0 where
  pub gate : Text
  pub args : List Text

abbrev pub same_texts : List Text → List Text → Bool
same_texts [] [] = true
same_texts [] (b ∷ bs) = false
same_texts (a ∷ as') [] = false
same_texts (a ∷ as') (b ∷ bs) = same a b && same_texts as' bs

-- `a == b` on two lines
unfoldable pub same_entry : Entry → Entry → Bool
same_entry a b = same a.gate b.gate && same_texts a.args b.args

abbrev pub add_words : List Text → List Entry → List Entry
add_words [] entries = entries
add_words (gate ∷ args) entries = record { gate = gate; args = args } ∷ entries

-- The loop of `parse_entries`; a line that shlex cannot read ends the run with the message of `fail`.
unfoldable pub parse_from : Text → ℕ → List Text → Result Text (List Entry)
unfolding shlex_split
parse_from origin number [] = ok []
parse_from origin number (raw ∷ lines) = elim (shlex_split raw) [
  | none ↦ err (
      origin
      ++ text " line "
      ++ decimal number
      ++ text ": No closing quotation or escaped character")
  | some words ↦ parse_from origin (suc number) lines >>= λ entries. ok (add_words words entries)
]

-- `parse_entries`
unfoldable pub parse_entries : Text → Text → Result Text (List Entry)
unfolding parse_from
parse_entries s origin = parse_from origin 1 (splitlines s)

abbrev pub subscribed : Text → List Entry → Result Text (List Entry)
subscribed path [] = err (path ++ text " subscribes to no gates")
subscribed path (e ∷ es) = ok (e ∷ es)

-- `parse_manifest`; the file is none where there is none.
unfoldable pub parse_manifest : Text → Option Text → Result Text (List Entry)
unfolding parse_entries
parse_manifest path none = err (text "no manifest at " ++ path)
parse_manifest path (some s) = parse_entries s path >>= subscribed path

-- `left.remove(line)`, where the line is there
unfoldable pub remove_line : Entry → List Entry → List Entry
remove_line line [] = []
remove_line line (e ∷ left) =
    let rest = remove_line line left in if same_entry line e then left else e ∷ rest

-- The first loop of `judged_entries`: the base lines that no head line has claimed, and the head lines
-- that are no base line.
unfoldable pub claim_identical : List Entry → List Entry → List Entry × List Entry
claim_identical left [] = (left, [])
claim_identical left (line ∷ head) =
    let claimed = claim_identical (remove_line line left) head in
    let (rest, fresh) = claim_identical left head in
    let unclaimed : List Entry × List Entry = (rest, line ∷ fresh) in
    if any (same_entry line) left then claimed else unclaimed

-- `next((taken for taken in left if taken[0] == line[0]), None)` and its removal: the base lines that
-- are left, or none where no line of the gate is left. The line found is the first of its gate, and
-- `remove` takes the first line equal to it, so that is the line removed.
unfoldable pub take_gate : Text → List Entry → Option (List Entry)
take_gate gate [] = none
take_gate gate (e ∷ left) =
    let later : Option (List Entry) = elim (take_gate gate left) [
      | none ↦ none
      | some rest ↦ some (e ∷ rest)
    ] in
    if same e.gate gate then some left else later

-- The second loop of `judged_entries`: the head lines beyond the base's.
unfoldable pub claim_changed : List Entry → List Entry → List Entry
claim_changed left [] = []
claim_changed left (line ∷ fresh) = elim (take_gate line.gate left) [
  | some rest ↦ claim_changed rest fresh
  | none ↦ line ∷ claim_changed left fresh
]

-- The lines that `judged_entries` adds to the base's
unfoldable pub added_lines : List Entry → List Entry → List Entry
unfolding claim_identical claim_changed
added_lines base head = let (left, fresh) = claim_identical base head in claim_changed left fresh

-- `judged_entries` from the two manifests; the base's is none where no base resolves, the manifest
-- lies outside the repository, or the base has none. The notice that it prints is not modelled.
unfoldable pub judged_entries : List Entry → Option (List Entry) → List Entry
unfolding added_lines
judged_entries head none = head
judged_entries head (some []) = head
judged_entries head (some (e ∷ base)) = (e ∷ base) ++ added_lines (e ∷ base) head
