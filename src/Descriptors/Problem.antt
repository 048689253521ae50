-- ===== src/Descriptors/Problem.antt =====
-- gates/_descriptors.py, `_problem` and what it calls: what is wrong with a descriptor.
use vibe_verifier.Base.{
  ℕ, String, Bool, true, false, not, ◌&&◌, ◌||◌, Option, none, some, List, [], ◌∷◌, ◌++◌,
  if◌then◌else◌, any, all, is_empty, leb, eqb, contains,
}
use vibe_verifier.Base.Text.{Text, text, same, join}
use vibe_verifier.Base.Json.{Json, str, arr, obj, Fields, end, field, to_list}
use vibe_verifier.Base.Json.Dict.{at, present}

-- `re.match(r"^...$", s)` of a class of characters behind a first one: `$` holds before a last line feed too.
abbrev pub is_rest : (ℕ → Bool) → Text → Bool
is_rest p [] = true
is_rest p (c ∷ []) = p c || eqb c 10
is_rest p (c ∷ d ∷ s) = p c && is_rest p (d ∷ s)

abbrev pub is_lower : ℕ → Bool
is_lower c = leb 97 c && leb c 122

abbrev pub is_digit : ℕ → Bool
is_digit c = leb 48 c && leb c 57

abbrev pub is_dashed : ℕ → Bool
is_dashed c = is_lower c || is_digit c || eqb c 45

abbrev pub is_plain : ℕ → Bool
is_plain c = is_lower c || is_digit c || leb 65 c && leb c 90

-- `NAME`
unfoldable pub is_name : Text → Bool
is_name [] = false
is_name (c ∷ s) = is_dashed c && is_rest is_dashed s

-- `TOOL`
unfoldable pub is_tool : Text → Bool
is_tool [] = false
is_tool (c ∷ s) =
    is_plain c && is_rest (λ d. is_plain d || eqb d 46 || eqb d 95 || eqb d 43 || eqb d 45) s

-- `FLAG`
unfoldable pub is_flag : Text → Bool
is_flag (a ∷ b ∷ c ∷ s) = eqb a 45 && eqb b 45 && is_lower c && is_rest is_dashed s
is_flag _ = false

abbrev pub is_str : Json → Bool
is_str (str s) = true
is_str v = false

-- `_strings`
abbrev pub is_strings : Json → Bool
is_strings (arr vs) = all is_str (to_list vs)
is_strings v = false

abbrev pub text_or_empty : Json → Text
text_or_empty (str s) = s
text_or_empty v = []

-- The texts of a list of texts
abbrev pub strings_of : List Json → List Text
strings_of [] = []
strings_of (v ∷ vs) = text_or_empty v ∷ strings_of vs

abbrev pub items_of : Json → List Json
items_of (arr vs) = to_list vs
items_of v = []

abbrev pub all_keys : (String → Bool) → Fields → Bool
all_keys p end = true
all_keys p (field k v fs) = p k && all_keys p fs

abbrev pub all_values : (Json → Bool) → Fields → Bool
all_values p end = true
all_values p (field k v fs) = p v && all_values p fs

-- `low <= set(d) <= high`
abbrev pub keys_between : List String → List String → Fields → Bool
keys_between low high fs = all (λ k. present k fs) low && all_keys (contains high) fs

-- What a check finds: nothing, a problem, or it raises a TypeError.
pub data Problem : Type 0 where
  fine : Problem
  problem : Text → Problem
  type_error : Problem

-- A test that gives a problem, or else the next
abbrev pub unless : Bool → Text → Problem → Problem
unless b why other = if b then other else problem why

-- `p or q`
abbrev pub or_next : Problem → Problem → Problem
or_next fine other = other
or_next found other = found

-- `d.get(key, default)`, where the default passes the test
abbrev pub at_or_passes : String → (Json → Bool) → Fields → Bool
at_or_passes k p fs = if present k fs then p (at k fs) else true

-- `OUTPUTS`, with the optional keys
abbrev pub output_keys : Text → Option (List String × List String)
output_keys parser =
    if same parser (text "json")
    then some (
      "parser" ∷ "message" ∷ "path" ∷ "line" ∷ [],
      "parser" ∷ "message" ∷ "path" ∷ "line" ∷ "rule" ∷ [],
    )
    else if same parser (text "sarif") || same parser (text "zizmor") || same parser (text "bandit")
    then some ("parser" ∷ [], "parser" ∷ [])
    else none

abbrev pub fits_output : Option (List String × List String) → Fields → Bool
fits_output none fs = false
fits_output (some (low, high)) fs = keys_between low high fs && all_values is_str fs

abbrev pub output_ok : Json → Bool
output_ok (obj fs) = elim (at "parser" fs) [
  | str parser ↦ fits_output (output_keys parser) fs
  | _ ↦ false
]
output_ok v = false

-- `_output_problem`
unfoldable pub output_problem : Json → Problem
unfolding text at present
output_problem output =
    unless (output_ok output)
      (text
        "`output` must be {\"parser\": NAME} (bandit, sarif, zizmor) or {\"parser\": \"json\", \"message\": ..., \"path\": ..., \"line\": ...}, optionally with \"rule\"")
      fine

abbrev pub has_text : Text → Json → Bool
has_text s v = is_str v && same (text_or_empty v) s

-- `choices`, which hold the default where there are any
abbrev pub choices_hold : Fields → Bool
choices_hold fs =
    let choices = items_of (at "choices" fs) in
    not (present "default" fs)
    || is_empty choices
    || any (has_text (text_or_empty (at "default" fs))) choices

-- `FLAG.match(spec.get("to", "--x"))` raises where `to` is no text.
abbrev pub to_raises : Fields → Bool
to_raises fs = present "to" fs && not (is_str (at "to" fs))

abbrev pub to_fits : Fields → Bool
to_fits fs = not (present "to" fs) || is_flag (text_or_empty (at "to" fs))

abbrev pub option_text : Text
option_text =
    text
      "an option is its help text, or {\"help\", and optionally \"to\", \"default\", \"choices\"}"

-- `_option_problem`, of an option given as an object
abbrev pub spec_problem : Fields → Problem
spec_problem fs =
    unless
      (keys_between ("help" ∷ []) ("help" ∷ "to" ∷ "default" ∷ "choices" ∷ []) fs
        && is_str (at "help" fs))
      option_text
      (if to_raises fs
        then type_error
        else unless (to_fits fs && at_or_passes "default" is_str fs)
            (text "an option's `to` is a --flag and its `default` a string")
            (unless (at_or_passes "choices" is_strings fs && choices_hold fs)
              (text "an option's `choices` are strings, and hold its `default`") fine))

-- A help text alone is an option without problem.
unfoldable pub option_problem : Json → Problem
unfolding text at present is_flag
option_problem (str help) = fine
option_problem (obj fs) = spec_problem fs
option_problem v = problem option_text

-- `RESERVED`
abbrev pub reserved : List String
reserved =
    "--repo" ∷ "--base-ref" ∷ "--format" ∷ "--soak" ∷ "--all" ∷ "--source" ∷ "--exclude" ∷ "--help"
    ∷ "--artifacts" ∷ []

abbrev pub taken : Fields → List Text
taken end = []
taken (field k v fs) =
    let rest = taken fs in
    if not (is_flag (text k)) || contains reserved k then text k ∷ rest else rest

abbrev pub first_option_problem : Fields → Problem
first_option_problem end = fine
first_option_problem (field k v fs) = or_next (option_problem v) (first_option_problem fs)

-- `_options_problem`
unfoldable pub options_problem : Json → Problem
unfolding option_problem text is_flag
options_problem (obj fs) =
    unless (is_empty (taken fs))
      (text "`options` cannot declare "
        ++ join (text ", ") (taken fs)
        ++ text ": a flag is --lowercase-words, and not one the runner or the gate contract reads")
      (first_option_problem fs)
options_problem v = problem (text "`options` must map each flag to its help text or spec")

abbrev pub descriptor_keys : List String
descriptor_keys = "gate" ∷ "description" ∷ "tool" ∷ "args" ∷ "files" ∷ "output" ∷ []

abbrev pub all_descriptor_keys : List String
all_descriptor_keys =
    "gate" ∷ "description" ∷ "tool" ∷ "args" ∷ "files" ∷ "output" ∷ "options" ∷ "exclude"
    ∷ "ratchet" ∷ []

abbrev pub full : Json → Bool
full v = is_str v && not (is_empty (text_or_empty v))

-- `_problem` of an object; `stem` is the name of its file without `.json`, and `pinned` says whether a tool
-- must be pinned, and is then given whether it is. `shown` is `%r` of a text.
module _ (shown : Text → Text) where
  abbrev pub object_problem : Fields → Text → Option (Text → Bool) → Problem
  object_problem fs stem pinned =
      unless (keys_between descriptor_keys all_descriptor_keys fs)
        (text
          "a descriptor has the keys args, description, files, gate, output, tool, and may have exclude, options, ratchet")
        (unless (has_text stem (at "gate" fs) && is_name stem)
          (text "`gate` must be the file's own name, in lowercase letters, digits and dashes")
          (unless (full (at "description" fs) && full (at "tool" fs))
            (text "`description` and `tool` must be non-empty strings")
            (unless (is_tool (text_or_empty (at "tool" fs)))
              (text "`tool` must be a bare command name, not a path")
              (unless
                (is_strings (at "args" fs)
                  && is_strings (at "files" fs)
                  && not (is_empty (items_of (at "files" fs)))
                  && at_or_passes "exclude" is_strings fs)
                (text "`args` and `exclude` must be lists of strings and `files` a non-empty one")
                (unless (at_or_passes "ratchet" (has_text (text "count")) fs)
                  (text "`ratchet` is \"count\"")
                  (or_next (output_problem (at "output" fs)) (
                    or_next
                      (if present "options" fs then options_problem (at "options" fs) else fine)
                      (elim pinned as (λ _. Problem) [
                        | none ↦ fine
                        | some is_pinned ↦
                            unless (is_pinned (text_or_empty (at "tool" fs)))
                              (text
                                  "a catalog descriptor runs a tool pinned in gates/_tools.py or tools/<name>/, and "
                                ++ shown (text_or_empty (at "tool" fs))
                                ++ text " is not")
                              fine
                      ]))))))))

  -- `_problem`
  unfoldable pub descriptor_problem : Json → Text → Option (Text → Bool) → Problem
  unfolding output_problem options_problem is_name is_tool text at present
  descriptor_problem (obj fs) stem pinned = object_problem fs stem pinned
  descriptor_problem v stem pinned = problem (
      text
        "a descriptor has the keys args, description, files, gate, output, tool, and may have exclude, options, ratchet")
