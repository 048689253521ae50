-- ===== src/Descriptors/Conflicts.antt =====
-- gates/_descriptors.py, `repository_files`, `conflicts` and `descriptor_for`: the descriptor that a run
-- judges with, and who else claims its name or its tool.
pub mod Chosen
pub mod Alone
pub mod Base
pub mod Blame
use vibe_verifier.Base.{
  ℕ, String, Bool, true, false, not, ◌&&◌, ◌||◌, Option, none, some, List, [], ◌∷◌, ◌++◌, Result,
  ok, err, ◌>>=◌, if◌then◌else◌, any, all, is_empty, select, leb, eqb, length, map, first,
}
use vibe_verifier.Base.Text.{Text, text, same, join, has, starts_with, replace}
use vibe_verifier.Base.Text.Order.{before, sorted_set}
use vibe_verifier.Base.Json.{Json, Fields, obj}
use vibe_verifier.Base.Json.Dict.{at}
use vibe_verifier.Descriptors.Problem.{
  Problem, fine, problem, type_error, text_or_empty, descriptor_problem,
}

-- A file of descriptors: its path, where it was read, and its text
pub record File : Type 0 where
  pub path : Text
  pub origin : Text
  pub text : Text

-- What is read of the repository; an error is the text of a `CannotRun`.
pub record Repository : Type 0 where
  pub is_repository : Bool
  pub base : Option Text
  pub at_base : Text → Result Text (List Text)
  pub show : Text → Text → Result Text Text
  pub tracked : Result Text (List Text)
  pub read : Text → Result Text Text

-- `.vibe-verifier-tools/` and the name of a file in it
abbrev pub folder : Text
folder = text ".vibe-verifier-tools/"

abbrev pub behind_prefix : Text → Text → Text
behind_prefix [] s = s
behind_prefix (c ∷ p) [] = []
behind_prefix (c ∷ p) (d ∷ s) = behind_prefix p s

abbrev pub ends_with : Text → Text → Bool
ends_with [] ending = is_empty ending
ends_with (c ∷ s) ending = same (c ∷ s) ending || ends_with s ending

-- `_in_repository`
unfoldable pub in_repository : Text → Bool
unfolding text
in_repository path =
    starts_with path folder
    && not (has 47 (behind_prefix folder path))
    && ends_with path (text ".json")

abbrev pub has_path : Text → List File → Bool
has_path path files = any (λ file. same path file.path) files

-- The files of the base, in the order that they are listed
abbrev pub read_base : Repository → Text → List Text → Result Text (List File)
read_base repository base [] = ok []
read_base repository base (path ∷ paths) =
    if in_repository path
    then (repository.show base path >>= λ shown. read_base repository base paths >>= λ files.
        ok (record { path = path; origin = base ++ text ":" ++ path; text = shown } ∷ files))
    else read_base repository base paths

-- `files.setdefault(path, (path, text))` of the files of the head
abbrev pub add_head : Repository → List File → List Text → Result Text (List File)
add_head repository files [] = ok files
add_head repository files (path ∷ paths) =
    if in_repository path
    then (repository.read path >>= λ shown.
        add_head repository
          (if has_path path files
            then files
            else files ++ record { path = path; origin = path; text = shown } ∷ [])
          paths)
    else add_head repository files paths

abbrev pub base_files : Repository → Result Text (List File)
base_files repository = elim repository.base as (λ _. Result Text (List File)) [
  | none ↦ ok []
  | some base ↦ repository.at_base base >>= read_base repository base
]

-- `repository_files`; what it prints of a changed file is not modelled.
unfoldable pub repository_files : Repository → Result Text (List File)
unfolding in_repository
repository_files repository =
    if repository.is_repository
    then (repository.tracked >>= λ paths.
        base_files repository >>= λ files. add_head repository files paths)
    else ok []

-- `sorted(files)`
abbrev pub put_file : File → List File → List File
put_file file [] = file ∷ []
put_file file (other ∷ files) =
    let rest = put_file file files in
    if before other.path file.path then other ∷ rest else file ∷ other ∷ files

abbrev pub sorted_files : List File → List File
sorted_files [] = []
sorted_files (file ∷ files) = put_file file (sorted_files files)

-- A descriptor that was parsed, with where it was read
pub record Named : Type 0 where
  pub origin : Text
  pub fields : Fields

abbrev pub gate_of : Named → Text
gate_of named = text_or_empty (at "gate" named.fields)

abbrev pub tool_of : Named → Text
tool_of named = text_or_empty (at "tool" named.fields)

-- Who claims a name or a tool; `gate` is the descriptor gate of a descriptor.
pub record Claim : Type 0 where
  pub is_tool : Bool
  pub value : Text
  pub origin : Text
  pub gate : Option Text

-- The Python gates by name, and the tools that they run with the file that runs each
pub record Gates : Type 0 where
  pub names : List Text
  pub tools : List (Text × Text)

abbrev pub name_claims : List Text → List Claim
name_claims [] = []
name_claims (name ∷ names) =
    record {
      is_tool = false;
      value = name;
      origin = text "gates/" ++ replace 45 (text "_") name ++ text ".py";
      gate = none;
    }
    ∷ name_claims names

abbrev pub tool_claims : List (Text × Text) → List Claim
tool_claims [] = []
tool_claims ((tool, path) ∷ tools) =
    record { is_tool = true; value = tool; origin = path; gate = none } ∷ tool_claims tools

abbrev pub gate_claim : Named → Claim
gate_claim named = record {
  is_tool = false;
  value = gate_of named;
  origin = named.origin;
  gate = some (gate_of named);
}

abbrev pub tool_claim : Named → Claim
tool_claim named = record {
  is_tool = true;
  value = tool_of named;
  origin = named.origin;
  gate = some (gate_of named);
}

abbrev pub descriptor_claims : List Named → List Claim
descriptor_claims [] = []
descriptor_claims (named ∷ more) = gate_claim named ∷ tool_claim named ∷ descriptor_claims more

-- `claims`, as a list of what is put under its keys
unfoldable pub claims : Gates → List Named → List Claim
claims gates found = name_claims gates.names ++ tool_claims gates.tools ++ descriptor_claims found

abbrev pub is_for : Bool → Text → Claim → Bool
is_for true value claim = claim.is_tool && same value claim.value
is_for false value claim = not claim.is_tool && same value claim.value

-- The holders of a key
abbrev pub holders : Bool → Text → List Claim → List Claim
holders kind value = select (is_for kind value)

abbrev pub of_kind : Bool → Claim → Bool
of_kind true claim = claim.is_tool
of_kind false claim = not claim.is_tool

abbrev pub values : Bool → List Claim → List Text
values kind [] = []
values kind (claim ∷ more) =
    let rest = values kind more in if of_kind kind claim then claim.value ∷ rest else rest

abbrev pub is_named : Text → Option Text → Bool
is_named gate none = false
is_named gate (some other) = same gate other

-- Whether the claim is that of a descriptor gate
abbrev pub is_gate : Text → Claim → Bool
is_gate gate claim = is_named gate claim.gate

abbrev pub blames : Text → List (Text × Text) → Bool
blames gate why = any (λ entry. same gate entry.0) why

-- `why.setdefault(gate, reason)`, where the holder is a descriptor
abbrev pub blame_one : Text → Option Text → List (Text × Text) → List (Text × Text)
blame_one reason none why = why
blame_one reason (some gate) why = if blames gate why then why else why ++ (gate, reason) ∷ []

abbrev pub blame : Text → List Claim → List (Text × Text) → List (Text × Text)
blame reason [] why = why
blame reason (claim ∷ more) why = blame reason more (blame_one reason claim.gate why)

abbrev pub origins : List Claim → List Text
origins [] = []
origins (claim ∷ more) = claim.origin ∷ origins more

-- `RULE`
abbrev pub rule_of : Bool → Text
rule_of true = text "two gates may not run one tool"
rule_of false = text "two gates may not share a name"

abbrev pub kind_text : Bool → Text
kind_text true = text "tool"
kind_text false = text "gate"

-- `shown` is `%r` of a text.
module _ (shown : Text → Text) where
  abbrev pub reason_of : Bool → Text → List Claim → Text
  reason_of kind value held =
      kind_text kind
      ++ text " "
      ++ shown value
      ++ text " is in "
      ++ join (text " and ") (origins held)
      ++ text ", and "
      ++ rule_of kind
      ++ text ": remove the new one, or extend the existing gate"

  -- The loop of `conflicts` over the keys of one kind, in their order
  abbrev pub conflicts_of : Bool → List Text → List Claim → List (Text × Text) → List (Text × Text)
  conflicts_of kind [] all_claims why = why
  conflicts_of kind (value ∷ more) all_claims why =
      let held = holders kind value all_claims in
      conflicts_of kind more all_claims
        (if leb 2 (length held) then blame (reason_of kind value held) held why else why)

  -- `conflicts`; `gate` sorts before `tool`.
  unfoldable pub conflicts : Gates → List Named → List (Text × Text)
  unfolding claims sorted_set
  conflicts gates found =
      let all_claims = claims gates found in
      conflicts_of true (sorted_set (values true all_claims)) all_claims
        (conflicts_of false (sorted_set (values false all_claims)) all_claims [])
