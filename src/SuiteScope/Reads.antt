-- ===== src/SuiteScope/Reads.antt =====
-- actions/suite-scope/suite_scope.py, what is read of GitHub: `gh`, `base_list` and `changed_paths`.
use vibe_verifier.Base.{
  ℕ, zero, suc, ◌+◌, ◌-◌, ◌/◌, Option, none, some, List, [], ◌∷◌, ◌++◌, Result, ok, err, ◌>>=◌, eqb,
  if◌then◌else◌, any, length, map,
}
use vibe_verifier.Base.Text.{Text, text, same, decimal, within}
use vibe_verifier.Base.Json.{
  Json, str, arr, obj, Fields, end, field, Misread, type_error, type_name, get, truthy, to_list,
}
use vibe_verifier.Base.Url.{quote}
use vibe_verifier.SuiteScope.InertList.{Patterns, parse_list}

-- What `judge` can raise: `Malformed`, `Unread`, or an exception of a read that does not fit.
pub data Fault : Type 0 where
  malformed : Text → Fault
  unread : Text → Fault
  misread : Misread → Fault

abbrev pub read_as {ℓ} : {A : Type ℓ} → Result Misread A → Result Fault A
read_as (ok a) = ok a
read_as (err why) = err (misread why)

-- `gh`, as the job reaches GitHub: the text that an endpoint answers, or the message of `Unread`; and
-- `json.loads` of that text, which raises a fault of its own where it is no JSON.
pub record GitHub : Type 0 where
  pub raw : Text → Result Text Text
  pub json : Text → Result Fault Json
  pub wording : Misread → Text

pub record Args : Type 0 where
  pub repo : Text
  pub list : Text
  pub pr : Text
  pub sha : Text
  pub also_run : Text

abbrev pub listed_limit : ℕ
listed_limit = 3000

abbrev pub page_size : ℕ
page_size = 100

-- A value that must be a text: GitHub gives one, and slicing any other raises (a list would be shown).
abbrev pub as_text : Json → Result Misread Text
as_text (str s) = ok s
as_text v = err (type_error (type_name v))

abbrev pub list_or_none : Result Text Text → Result Fault (Option Patterns)
list_or_none (err why) = if within (text "HTTP 404") why then ok none else err (unread why)
list_or_none (ok s) = elim (parse_list s) [
  | ok patterns ↦ ok (some patterns)
  | err why ↦ err (malformed why)
]

abbrev pub list_endpoint : Text → Text → Text → Text
list_endpoint repo path branch =
    text "repos/"
    ++ repo
    ++ text "/contents/"
    ++ quote (47 ∷ []) path
    ++ text "?ref="
    ++ quote (47 ∷ []) (text "refs/heads/" ++ branch)

-- `base_list`
unfoldable pub base_list : GitHub → Text → Text → Text → Result Fault (Option Patterns)
base_list gh repo path branch = list_or_none (gh.raw (list_endpoint repo path branch))

abbrev pub keys_of : Fields → List Json
keys_of end = []
keys_of (field k v fs) = str (text k) ∷ keys_of fs

-- What `files += v` adds: a list its items; a text its characters and an object its keys are no files.
abbrev pub extend : Json → Result Misread (List Json)
extend (arr vs) = ok (to_list vs)
extend (str s) = ok (map (λ c. str (c ∷ [])) s)
extend (obj fs) = ok (keys_of fs)
extend v = err (type_error (type_name v))

abbrev pub files_endpoint : Text → Text → ℕ → Text
files_endpoint repo number page =
    text "repos/"
    ++ repo
    ++ text "/pulls/"
    ++ number
    ++ text "/files?per_page="
    ++ decimal page_size
    ++ text "&page="
    ++ decimal page

-- The loop over the pages that are left
unfoldable pub pages : GitHub → Text → Text → ℕ → ℕ → Result Fault (List Json)
pages gh repo number zero page = ok []
pages gh repo number (suc left) page = gh.json (files_endpoint repo number page) >>= λ answer.
    read_as (extend answer) >>= λ files.
    pages gh repo number left (suc page) >>= λ more. ok (files ++ more)

-- The name that a listed file must have
abbrev pub file_name : Json → Result Fault Text
file_name (str (c ∷ s)) = ok (c ∷ s)
file_name v = err (unread (text "GitHub listed a changed file with no name"))

-- The paths of one file: its name, and the name that it had.
unfoldable pub file_paths : Json → Result Fault (Text × List Json)
file_paths file = read_as (get "filename" file) >>= λ named. file_name named >>= λ name.
    read_as (get "previous_filename" file) >>= λ previous.
    ok (name, str name ∷ (if truthy previous then previous ∷ [] else []))

-- `names`, the set as a list without repetitions, and `paths`
unfoldable pub collect : List Json → List Text → Result Fault (List Text × List Json)
unfolding file_paths
collect [] names = ok (names, [])
collect (file ∷ files) names = file_paths file >>= λ (name, paths).
    collect files (if any (same name) names then names else name ∷ names) >>= λ (all_names, more).
    ok (all_names, paths ++ more)

-- `changed_paths` once every file was read: a file listed twice can hide one never listed.
abbrev pub distinct : ℕ → List Text × List Json → Result Fault (List Json)
distinct count (names, paths) =
    if eqb (length names) count
    then ok paths
    else err (unread (text "GitHub listed a changed file twice"))

-- `changed_paths` once every page was read
abbrev pub counted : ℕ → List Json → Result Fault (List Json)
counted count files =
    if eqb (length files) count
    then (collect files [] >>= distinct count)
    else err (
        unread (
          text "GitHub listed "
          ++ decimal (length files)
          ++ text " of the pull request's "
          ++ decimal count
          ++ text " changed files"))

-- `changed_paths`
unfoldable pub changed_paths : GitHub → Text → Text → ℕ → Result Fault (List Json)
changed_paths gh repo number count =
    pages gh repo number ((count + (page_size - 1)) / page_size) 1 >>= counted count
