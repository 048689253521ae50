-- ===== src/Contract/Report.antt =====
-- gates/_contract.py, `Finding`, `report` and `run_gate`: what a gate prints and the code it exits
-- with.
pub mod Verdict
pub mod Annotations
use vibe_verifier.Base.{
  ℕ, ◌-◌, Bool, true, false, not, ◌||◌, Option, none, some, List, [], ◌∷◌, ◌++◌, map, Result, ok,
  err, eqb, ltb, if◌then◌else◌, select, length, is_empty,
}
use vibe_verifier.Base.Text.{Text, text, join, decimal}
use vibe_verifier.Contract.Escape.{esc_data, esc_prop}

pub record Finding : Type 0 where
  pub message : Text
  pub path : Option Text
  pub line : Option ℕ
  pub advisory : Bool

abbrev pub exit_pass : ℕ
exit_pass = 0

abbrev pub exit_violations : ℕ
exit_violations = 1

abbrev pub exit_cannot_run : ℕ
exit_cannot_run = 2

pub data Format : Type 0 where
  plain : Format
  github : Format
  json : Format

-- What goes to standard output or standard error: lines, or the document that `json.dumps` writes.
pub data Printed : Type 0 where
  line : Text → Printed
  error_line : Text → Printed
  traceback : Printed
  document : Text → Text → List Finding → Printed

-- One object of the file that SOAK_FINDINGS names.
pub record Soaked : Type 0 where
  pub gate : Text
  pub message : Text
  pub path : Option Text
  pub line : Option ℕ

pub record Outcome : Type 0 where
  pub code : ℕ
  pub printed : List Printed
  pub recorded : List Soaked

-- `if finding.line`: absent and 0 are both false.
abbrev pub line_part : Text → Option ℕ → List Text
line_part prefix none = []
line_part prefix (some n) = if eqb n 0 then [] else (prefix ++ decimal n) ∷ []

abbrev pub where_props : Option Text → Option ℕ → List Text
where_props none n = []
where_props (some []) n = []
where_props (some (c ∷ cs)) n = (text "file=" ++ esc_prop (c ∷ cs)) ∷ line_part (text "line=") n

-- `_annotation`
unfoldable pub annotation : Text → Finding → Bool → Text
annotation gate f soak =
    text "::"
    ++ (if soak then text "warning" else text "error")
    ++ text " "
    ++ join (text ",") (where_props f.path f.line ++ (text "title=" ++ esc_prop gate) ∷ [])
    ++ text "::"
    ++ esc_data f.message

abbrev pub where_text : Option Text → Option ℕ → Text
where_text none n = []
where_text (some []) n = []
where_text (some (c ∷ cs)) n = (c ∷ cs) ++ join [] (line_part (text ":") n) ++ text ": "

-- `_text`
unfoldable pub text_line : Text → Finding → Text
text_line gate f =
    gate
    ++ text ": "
    ++ where_text f.path f.line
    ++ (if f.advisory then text "advisory: " else [])
    ++ f.message

abbrev pub blocking : List Finding → List Finding
blocking = select (λ f. not f.advisory)

abbrev pub finding_line : Text → Format → Bool → Finding → Printed
finding_line gate github soak f = line (annotation gate f (soak || f.advisory))
finding_line gate _ soak f = line (text_line gate f)

-- `_print_lines`
unfoldable pub print_lines : Text → List Finding → Format → Bool → List Printed
print_lines gate findings fmt soak =
    let blocks = length (blocking findings) in
    let total = length findings in
    map (finding_line gate fmt soak) findings
    ++ (if eqb blocks 0
        then []
        else line (
            gate
            ++ text ": "
            ++ decimal blocks
            ++ text " finding(s), "
            ++ (if soak then text "reported only (--soak)" else text "blocking"))
          ∷ [])
    ++ (if ltb blocks total
        then line (
            gate
            ++ text ": "
            ++ decimal (total - blocks)
            ++ text " advisory finding(s), not blocking")
          ∷ []
        else [])

abbrev pub status : Bool → Bool → Text
status clean soak = if clean then text "pass" else if soak then text "soak" else text "violations"

-- The lines of `_record_soak`
abbrev pub soak_records : Text → List Finding → List Soaked
soak_records gate =
    map (λ f. record { gate = gate; message = f.message; path = f.path; line = f.line })

abbrev pub printed_report : Text → List Finding → Format → Bool → List Printed
printed_report gate findings json soak =
    document gate (status (is_empty (blocking findings)) soak) findings ∷ []
printed_report gate findings plain soak = print_lines gate findings plain soak
printed_report gate findings github soak = print_lines gate findings github soak

-- `report` and `_record_soak`; `soak_file` says that SOAK_FINDINGS names a file.
unfoldable pub report : Bool → Text → List Finding → Format → Bool → Outcome
report soak_file gate findings fmt soak =
    let clean = is_empty (blocking findings) in
    record {
      code = if soak || clean then exit_pass else exit_violations;
      printed = printed_report gate findings fmt soak;
      recorded =
          if soak_file
          then (if soak then (if clean then [] else soak_records gate (blocking findings)) else [])
          else [];
    }

-- How a gate's check can end without findings: it raises `CannotRun`, or it crashes.
pub data Failure : Type 0 where
  cannot_run : Text → Failure
  crashed : Failure

abbrev pub failure_message : Text → Failure → Text
failure_message gate (cannot_run reason) = gate ++ text " could not run: " ++ reason
failure_message gate crashed = gate ++ text " crashed (traceback above)"

abbrev pub traceback_of : Failure → List Printed
traceback_of (cannot_run reason) = []
traceback_of crashed = traceback ∷ []

abbrev pub failed : Text → Format → Failure → Outcome
failed gate github why = record {
  code = exit_cannot_run;
  printed =
      traceback_of why
      ++ line (
          text "::error title="
          ++ esc_prop gate
          ++ text "::"
          ++ esc_data (failure_message gate why))
        ∷ [];
  recorded = [];
}
failed gate _ why = record {
  code = exit_cannot_run;
  printed = traceback_of why ++ error_line (failure_message gate why) ∷ [];
  recorded = [];
}

abbrev pub ended : Bool → Text → Format → Bool → Result Failure (List Finding) → Outcome
ended soak_file gate fmt soak (ok findings) = report soak_file gate findings fmt soak
ended soak_file gate fmt soak (err why) = failed gate fmt why

-- `planted(...) or check(args)`: the check is made only where nothing is planted.
abbrev pub planted_or :
    Result Failure (List Finding) → Result Failure (List Finding) → Result Failure (List Finding)
planted_or (ok []) checked = checked
planted_or (ok (f ∷ fs)) checked = ok (f ∷ fs)
planted_or (err why) checked = err why

-- `run_gate` from its parsed arguments. `evidence` is what `planted` gives where the gate has an
-- `--artifacts` argument.
unfoldable pub run_gate :
    Bool
    → Text
    → Format
    → Bool
    → Option (Result Failure (List Finding))
    → Result Failure (List Finding)
    → Outcome
unfolding report
run_gate soak_file gate fmt soak none checked = ended soak_file gate fmt soak checked
run_gate soak_file gate fmt soak (some evidence) checked =
    ended soak_file gate fmt soak (planted_or evidence checked)
