-- ===== src/SuiteScope/Decide.antt =====
-- actions/suite-scope/suite_scope.py, `decide`: the verdict for a pull request.
pub mod Files
pub mod Distinct
pub mod Evidence
pub mod Steps
use vibe_verifier.Base.{
  ℕ, zero, suc, ◌+◌, ◌-◌, ◌/◌, Bool, true, false, not, ◌&&◌, ◌||◌, Option, none, some, List, [],
  ◌∷◌, ◌++◌, Result, ok, err, ◌>>=◌, ◌>>◌, eqb, ltb, if◌then◌else◌, any, is_empty, length, take,
  select, map,
}
use vibe_verifier.Base.Text.{Text, text, same, strip, decimal, within}
use vibe_verifier.Base.Json.{
  Json, null, bool, int, str, arr, obj, Items, nil, cons, Fields, end, field, Misread, type_error,
  attribute_error, type_name, index, get, truthy, to_list,
}
use vibe_verifier.Base.Url.{quote}
use vibe_verifier.SuiteScope.InertList.{Patterns, parse_list, is_inert, under_e2e}
use vibe_verifier.SuiteScope.Reads.{
  Fault, read_as, GitHub, Args, listed_limit, page_size, as_text, list_or_none, list_endpoint,
  base_list, keys_of, extend, files_endpoint, pages, file_name, file_paths, collect, distinct,
  counted, changed_paths, malformed, unread, misread,
}

-- `Verdict`
pub record Verdict : Type 0 where
  pub not_applicable : Bool
  pub reason : Text
  pub unread : Bool

-- `run(reason)`
abbrev pub run : Text → Verdict
run reason = record { not_applicable = false; reason = reason; unread = false }

abbrev pub run_unread : Text → Verdict
run_unread reason = record { not_applicable = false; reason = reason; unread = true }

-- `[path for path in paths if not is_inert(path, patterns)]`; a path that is no text has no `split`.
unfoldable pub active : List Json → Patterns → Result Misread (List Text)
active [] patterns = ok []
active (str path ∷ paths) patterns =
    active paths patterns >>= λ rest. ok (if is_inert path patterns then rest else path ∷ rest)
active (v ∷ paths) patterns = err (attribute_error (type_name v))

abbrev pub or_no_commit : Text → Text
or_no_commit [] = text "no commit"
or_no_commit (c ∷ s) = c ∷ s

-- The count that `changed_files` gives, or none where it is no integer from 1 up; a Boolean is an integer.
abbrev pub count_of : Json → Option ℕ
count_of (int zero) = none
count_of (int (suc n)) = some (suc n)
count_of (bool true) = some 1
count_of v = none

abbrev pub has_inert : Option Patterns → Bool
has_inert none = false
has_inert (some patterns) = not (is_empty patterns.inert)

-- The verdict for the paths that are not inert
abbrev pub scope_verdict : Text → ℕ → List Text → Verdict
scope_verdict list_name count [] = record {
  not_applicable = true;
  reason =
      text "Not applicable: every changed path ("
      ++ decimal count
      ++ text ") is on the inert list ("
      ++ list_name
      ++ text ")";
  unread = false;
}
scope_verdict list_name count (path ∷ more) = run (
    path
    ++ text " "
    ++ (if under_e2e path
        then text "has a path segment named e2e, which is never inert"
        else text "is not on the inert list (" ++ list_name ++ text ")")
    ++ (if is_empty more
        then []
        else text ", and "
          ++ decimal (length more)
          ++ text " more changed path"
          ++ (if eqb (length more) 1 then text " is" else text "s are")
          ++ text " not inert"))

abbrev pub judge_paths : GitHub → Args → Text → ℕ → Option Patterns → Result Fault Verdict
judge_paths gh args list_name count none =
    ok (run (list_name ++ text " names no inert path, so nothing is inert until a list merges"))
judge_paths gh args list_name count (some patterns) =
    if is_empty patterns.inert
    then ok
        (run (list_name ++ text " names no inert path, so nothing is inert until a list merges"))
    else (changed_paths gh args.repo args.pr count >>= λ paths.
        read_as (active paths patterns) >>= λ moved.
        ok (scope_verdict list_name (length paths) moved))

abbrev pub judge_count : GitHub → Args → Text → Option ℕ → Result Fault Verdict
judge_count gh args default none = ok (run (text "the pull request reports no changed file"))
judge_count gh args default (some count) =
    if ltb listed_limit count
    then ok (
        run (
          text "the pull request changes "
          ++ decimal count
          ++ text " files and GitHub lists only "
          ++ decimal listed_limit
          ++ text " of them"))
    else (base_list gh args.repo args.list default
        >>= judge_paths gh args (args.list ++ text " on " ++ default) count)

abbrev pub judge_base : GitHub → Args → Json → Text → Text → Result Fault Verdict
judge_base gh args pull default ref =
    if same ref default
    then (read_as (index "changed_files" pull) >>= λ count.
        judge_count gh args default (count_of count))
    else ok (
        run
          (text "the pull request targets " ++ ref ++ text ", not the default branch " ++ default))

abbrev pub judge_head : GitHub → Args → Json → Json → Text → Result Fault Verdict
judge_head gh args pull base head =
    if same head args.sha
    then (read_as (index "repo" base >>= index "default_branch" >>= as_text) >>= λ default.
        read_as (index "ref" base >>= as_text) >>= judge_base gh args pull default)
    else ok (
        run (
          text "this run is for "
          ++ or_no_commit (take 8 args.sha)
          ++ text " and the pull request's head is "
          ++ take 8 head))

-- `judge`
unfoldable pub judge : GitHub → Args → Json → Result Fault Verdict
judge gh args pull = read_as (index "head" pull >>= index "sha" >>= as_text) >>= λ head.
    read_as (index "base" pull) >>= λ base. judge_head gh args pull base head

-- The handlers of `decide`
abbrev pub handled : GitHub → Args → Result Fault Verdict → Verdict
handled gh args (ok verdict) = verdict
handled gh args (err (malformed why)) = run_unread (
    text "the default branch's inert list "
    ++ args.list
    ++ text " is malformed ("
    ++ why
    ++ text ")")
handled gh args (err (unread why)) = run_unread why
handled gh args (err (misread why)) =
    run_unread (text "GitHub's answer could not be read (" ++ gh.wording why ++ text ")")

-- `decide`
unfoldable pub decide : GitHub → Args → Verdict
decide gh args =
    if not (is_empty (strip args.also_run))
    then run args.also_run
    else if is_empty args.pr
    then run (text "no pull request is named, and only a pull request's diff can be inert")
    else handled gh args
        (gh.json (text "repos/" ++ args.repo ++ text "/pulls/" ++ args.pr) >>= judge gh args)
