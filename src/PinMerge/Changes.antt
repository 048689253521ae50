-- ===== src/PinMerge/Changes.antt =====
-- gates/_pin_merge.py, `not_pins` and `file_not_pins`: whether a bump changes pin lines alone. `\w` is
-- the parameter `is_word`, as for a pin.
pub mod Lines
use vibe_verifier.Base.{
  ℕ, zero, suc, ◌-◌, Bool, true, false, not, ◌&&◌, ◌||◌, Option, none, some, List, [], ◌∷◌, ◌++◌,
  Result, ok, err, ◌>>=◌, if◌then◌else◌, all, is_empty, leb, ltb, eqb, length, take, drop,
}
use vibe_verifier.Base.Text.{Text, text, same, has, starts_with, strip, split, decimal}
use vibe_verifier.PinMerge.Pin.{span, is_name_char, moved_pin}

-- What ends a judgement early: `CannotRead`, or an exception that nothing catches.
pub data Stop : Type 0 where
  cannot_read : Text → Stop
  crashed : Text → Stop

-- A changed file of the compare answer
pub record File : Type 0 where
  pub filename : Text
  pub status : Option Text

pub record Compare : Type 0 where
  pub files : List File
  pub behind_by : ℕ
  pub merge_base : Text

-- `text`: the file of a path at a ref, none where the contents API gives no text
abbrev pub Contents : Type 0
Contents = Text → Text → Result Stop (Option Text)

abbrev pub ends_with : Text → Text → Bool
ends_with s end = same (drop (length s - length end) s) end

-- `[^/]+` and the ending, of what is behind the directory
abbrev pub is_file_name : Text → Text → Bool
is_file_name end s = not (has 47 s) && ends_with s end && ltb (length end) (length s)

-- `WORKFLOW.fullmatch`
unfoldable pub is_workflow : Text → Bool
is_workflow path =
    let directory = text ".github/workflows/" in
    let name = drop (length directory) path in
    starts_with path directory
    && (is_file_name (text ".yml") name || is_file_name (text ".yaml") name)

abbrev pub shown : Option Text → Text
shown none = text "None"
shown (some s) = s

-- `other`: the second of the first two lines that differ and are no moved pin
unfoldable pub other_line : (Text → Text → Bool) → List Text → List Text → Option Text
other_line pin [] new = none
other_line pin (before ∷ old) [] = none
other_line pin (before ∷ old) (after' ∷ new) =
    let rest = other_line pin old new in
    if not (same before after') && not (pin before after') then some after' else rest

-- The part of `file_not_pins` behind the two reads
unfoldable pub lines_not_pins :
    (Text → Text → Bool) → Text → Text → List Text → List Text → Option Text
unfolding other_line
lines_not_pins pin named path old new =
    let changed : Option Text = elim (other_line pin old new) [
      | none ↦ none
      | some other ↦ some (
          path
          ++ text " changes a line that is not a pin to "
          ++ named
          ++ text ": "
          ++ take 80 (strip other))
    ] in
    if eqb (length old) (length new) then changed else some (path ++ text " adds or removes lines")

abbrev pub texts_not_pins :
    (Text → Text → Bool) → Text → Text → Option Text → Option Text → Option Text
texts_not_pins pin named path none new = some (path ++ text " could not be read")
texts_not_pins pin named path (some old) none = some (path ++ text " could not be read")
texts_not_pins pin named path (some old) (some new) =
    lines_not_pins pin named path (split 10 old) (split 10 new)

abbrev pub is_modified : File → Bool
is_modified changed = same (shown changed.status) (text "modified")

-- `file_not_pins`; none is no reason against the file.
unfoldable pub file_not_pins :
    Contents → File → Text → Text → (Text → Text → Bool) → Text → Result Stop (Option Text)
unfolding is_workflow lines_not_pins
file_not_pins contents changed base head pin named =
    let refused =
      changed.filename
      ++ text " is "
      ++ shown changed.status
      ++ text ", not a workflow whose pins moved" in
    if not (is_modified changed) || not (is_workflow changed.filename)
    then ok (some refused)
    else contents changed.filename base >>= λ old. contents changed.filename head >>= λ new.
        ok (texts_not_pins pin named changed.filename old new)

-- `next(filter(None, ...), None)`: the reads stop at the first reason.
unfoldable pub first_reason :
    (File → Result Stop (Option Text)) → List File → Result Stop (Option Text)
first_reason reason [] = ok none
first_reason reason (changed ∷ files) = reason changed >>= λ why. elim why [
  | none ↦ first_reason reason files
  | some found ↦ ok (some found)
]

-- `BRANCH_PREFIXES`
abbrev pub catalog_prefix : Text
catalog_prefix = text "ci/vibe-verifier-pin-"

abbrev pub wrapper_prefix : Text
wrapper_prefix = text "ci/wrapper-pin-"

-- `next(p for p in BRANCH_PREFIXES if branch.startswith(p))`
unfoldable pub prefix_of : Text → Result Stop Text
prefix_of branch =
    if starts_with branch catalog_prefix
    then ok catalog_prefix
    else if starts_with branch wrapper_prefix
    then ok wrapper_prefix
    else err (crashed (text "StopIteration"))

abbrev pub first_part : List Text → Text
first_part [] = []
first_part (part ∷ parts) = part

module _ (is_word : ℕ → Bool) where
  -- `[\w.-]+` and the text behind it, at the front of a text
  abbrev pub names_then : Text → Text → Bool
  names_then behind s =
      let (name, rest) = span (is_name_char is_word) s in
      not (is_empty name) && starts_with rest behind

  -- `re.match(target, ...)`
  unfoldable pub is_of : Text → Text → Text → Bool
  unfolding span
  is_of repo prefix target =
      let owner = first_part (split 47 repo) ++ text "/" in
      if same prefix catalog_prefix
      then names_then (text "/vibe-verifier/actions/") target
      else starts_with target owner
        && names_then (text "/.github/workflows/") (drop (length owner) target)

  -- `not_pins`
  unfoldable pub not_pins :
      Contents → Text → Compare → Text → Text → (Text → Text → Bool) → Result Stop (Option Text)
  unfolding first_reason file_not_pins prefix_of is_of moved_pin
  not_pins contents repo compare head branch on_main =
      let count = length compare.files in
      if eqb count 0 || leb 300 count
      then ok (some (text "GitHub listed " ++ decimal count ++ text " changed files"))
      else prefix_of branch >>= λ prefix.
          let named = drop (length prefix) branch in
          if not (on_main prefix named)
          then ok (some (named ++ text " is not a commit on the main it pins from"))
          else first_reason
              (λ changed.
                file_not_pins contents changed compare.merge_base head
                  (moved_pin is_word (is_of repo prefix) named (on_main prefix)) named)
              compare.files
