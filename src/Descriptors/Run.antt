-- ===== src/Descriptors/Run.antt =====
-- gates/_descriptors.py, the run of the tool of a descriptor: `resolve`, `judged_files`, `report_findings`,
-- `run_tool` and the check. The parsers of a report and `count_ratchet` are given as functions.
pub mod Judged
use vibe_verifier.Base.{
  ℕ, String, Bool, true, false, not, ◌&&◌, ◌||◌, Option, none, some, List, [], ◌∷◌, ◌++◌, Result,
  ok, err, ◌>>=◌, if◌then◌else◌, any, is_empty, select, map, leb, eqb,
}
use vibe_verifier.Base.Text.{Text, text, same, decimal, strip, splitlines}
use vibe_verifier.Base.Text.Order.{before}
use vibe_verifier.Base.Json.{Json, str, obj, Fields, end, field}
use vibe_verifier.Base.Json.Dict.{at, present}
use vibe_verifier.Contract.Glob.{matches}
use vibe_verifier.Contract.Report.{Finding}
use vibe_verifier.Descriptors.Problem.{text_or_empty, strings_of, items_of}

-- How a process ended: with an exit code, or by a signal, whose code Python shows below zero
pub data Exit : Type 0 where
  exited : ℕ → Exit
  killed : ℕ → Exit

pub record Ran : Type 0 where
  pub exit : Exit
  pub stdout : Text
  pub stderr : Text

-- What a run reads and starts; an error is the text of a `CannotRun`. A parser is told its name, the report
-- and `output`; its error is the text of the exception.
pub record Tools : Type 0 where
  pub is_binary : Text → Bool
  pub ensure : Text → Result Text Text
  pub is_pinned : Text → Bool
  pub ensure_python : Text → Result Text Text
  pub which : Text → Option Text
  pub run : List Text → Ran
  pub parser : Text → Text → Json → Result Text (List Finding)
  pub own_path : Text → Text

-- The flags of a run; `value` is what the flag of an option has.
pub record Args : Type 0 where
  pub source : List Text
  pub exclude : List Text
  pub value : Text → Option Text

abbrev pub strings_at : String → Fields → List Text
strings_at k fs = strings_of (items_of (at k fs))

-- `sorted(...)`
abbrev pub put_path : Text → List Text → List Text
put_path path [] = path ∷ []
put_path path (other ∷ paths) =
    let rest = put_path path paths in
    if before other path then other ∷ rest else path ∷ other ∷ paths

abbrev pub sort_paths : List Text → List Text
sort_paths [] = []
sort_paths (path ∷ paths) = put_path path (sort_paths paths)

abbrev pub is_judged : Args → Fields → Text → Bool
is_judged args descriptor path =
    matches path (if is_empty args.source then strings_at "files" descriptor else args.source)
    && not (matches path (strings_at "exclude" descriptor ++ args.exclude))

-- `judged_files`, of the names that git lists
unfoldable pub judged_files : Args → Fields → List Text → List Text
unfolding at matches
judged_files args descriptor names = sort_paths (select (is_judged args descriptor) names)

-- `option(spec).get("to", flag)`
abbrev pub passed_as : Text → Json → Text
passed_as flag (obj spec) = if present "to" spec then text_or_empty (at "to" spec) else flag
passed_as flag v = flag

abbrev pub passed : Args → Fields → List Text
passed args end = []
passed args (field flag spec options) = elim (args.value (text flag)) as (λ _. List Text) [
  | none ↦ passed args options
  | some value ↦ passed_as (text flag) spec ∷ value ∷ passed args options
]

abbrev pub options_of : Json → Fields
options_of (obj fs) = fs
options_of v = end

abbrev pub last_line : List Text → Text
last_line [] = []
last_line (line ∷ []) = line
last_line (line ∷ next ∷ lines) = last_line (next ∷ lines)

abbrev pub exit_text : Exit → Text
exit_text (exited n) = decimal n
exit_text (killed n) = text "-" ++ decimal n

-- The exit says that there is a report: 0 or 1
abbrev pub reports : Exit → Bool
reports (exited n) = leb n 1
reports (killed n) = false

abbrev pub found_something : Exit → Bool
found_something (exited n) = eqb n 1
found_something (killed n) = false

abbrev pub in_files : List Text → Option Text → Bool
in_files files none = true
in_files files (some path) = any (same path) files

module _ (tools : Tools) where
  -- `resolve`
  unfoldable pub resolve : Text → Result Text (List Text)
  unfolding text
  resolve tool =
      let on_path : Result Text (List Text) = elim (tools.which tool) [
        | none ↦ err (
            tool
            ++ text " is not on PATH; a repository's own descriptor runs a tool its job installs")
        | some found ↦ ok (found ∷ [])
      ] in
      if tools.is_binary tool
      then (tools.ensure tool >>= λ path. ok (path ∷ []))
      else if tools.is_pinned tool
      then (tools.ensure_python tool >>= λ path. ok (path ∷ text "-m" ∷ tool ∷ []))
      else on_path

  abbrev pub tool_of : Fields → Text
  tool_of descriptor = text_or_empty (at "tool" descriptor)

  abbrev pub parser_of : Fields → Text
  parser_of descriptor = text_or_empty (at "parser" (options_of (at "output" descriptor)))

  -- `stderr.strip() or "no output"`
  abbrev pub said : Ran → List Text
  said ran =
      let shown = strip ran.stderr in
      splitlines (if is_empty shown then text "no output" else shown)

  abbrev pub read_report : Fields → Ran → Result Text (List Finding)
  read_report descriptor ran =
      elim (tools.parser (parser_of descriptor) ran.stdout (at "output" descriptor))
        as (λ _. Result Text (List Finding)) [
          | ok findings ↦ ok findings
          | err why ↦ err (
              tool_of descriptor
              ++ text "'s report could not be read as "
              ++ parser_of descriptor
              ++ text ": "
              ++ why)
        ]

  -- `report_findings`
  unfoldable pub report_findings : Fields → Ran → Result Text (List Finding)
  unfolding at text strip
  report_findings descriptor ran =
      if not (reports ran.exit)
      then err (
          tool_of descriptor
          ++ text " exited "
          ++ exit_text ran.exit
          ++ text ": "
          ++ last_line (said ran))
      else read_report descriptor ran >>= λ findings.
          if found_something ran.exit && is_empty findings
          then err (tool_of descriptor ++ text " exited 1 with an empty report")
          else ok findings

  -- `finding.path and repository_path(...)`
  abbrev pub own : Option Text → Option Text
  own none = none
  own (some []) = some []
  own (some (c ∷ path)) = some (tools.own_path (c ∷ path))

  abbrev pub at_own_path : Finding → Finding
  at_own_path finding = record finding { path = own finding.path }

  -- `run_tool`
  unfoldable pub run_tool : Fields → Args → List Text → Result Text (List Finding)
  unfolding resolve report_findings at text
  run_tool descriptor args files = resolve (tool_of descriptor) >>= λ command.
      report_findings descriptor (
        tools.run (
          command
          ++ passed args (options_of (at "options" descriptor))
          ++ strings_at "args" descriptor
          ++ files))
      >>= λ findings.
          ok
            (select (λ (finding : Finding). in_files files finding.path) (map at_own_path findings))

  -- The check of a gate: `names` is what git lists, and `ratchet` is `count_ratchet` of the files and the
  -- findings, where the run has a base to count at.
  unfoldable pub check :
      Fields
      → Args
      → Result Text (List Text)
      → Option (List Text → List Finding → Result Text (List Finding))
      → Result Text (List Finding)
  unfolding run_tool judged_files present
  check descriptor args names ratchet = names >>= λ listed.
      let files = judged_files args descriptor listed in
      if is_empty files
      then ok []
      else run_tool descriptor args files >>= λ findings.
          elim ratchet as (λ _. Result Text (List Finding)) [
            | none ↦ ok findings
            | some count ↦
                if present "ratchet" descriptor then count files findings else ok findings
          ]
