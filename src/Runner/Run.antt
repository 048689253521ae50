-- ===== src/Runner/Run.antt =====
-- bin/cli/runner.py, `run` and `run_entry`: one process for each line of the manifest, and one exit
-- code for the run.
pub mod Gates
use vibe_verifier.Base.{
  ℕ, zero, suc, Bool, true, false, not, ◌&&◌, ◌||◌, Option, none, some, List, [], ◌∷◌, ◌++◌, map,
  Result, ok, err, ◌>>=◌, if◌then◌else◌, any, all, is_empty, leb, eqb, ltb, length, drop, take, ◌-◌,
  ◌+◌, contains,
}
use vibe_verifier.Base.Text.{Text, text, same, has, replace}
use vibe_verifier.Runner.Manifest.{Entry, parse_entries, parse_manifest, judged_entries}

-- `subprocess.run(...).returncode`: an exit status, or minus the signal that ended the process.
pub data ReturnCode : Type 0 where
  exited : ℕ → ReturnCode
  signalled : ℕ → ReturnCode

-- What a run reads: its arguments, the gate names, and which files are there.
pub record Setup : Type 0 where
  pub repo : Text
  pub github : Bool
  pub base_ref : Option Text
  pub executable : Text
  pub gates_path : Text
  pub is_file : Text → Bool
  pub catalog : List Text
  pub repository_names : Option (List Text)

-- One row of the results: the gate, its arguments, the exit code 0, 1 or 2 and the note.
pub record Outcome : Type 0 where
  pub gate : Text
  pub args : List Text
  pub code : ℕ
  pub note : Text

-- `gate_process`, for the entry at a position of the run. It is the world's answer.
abbrev pub Processes : Type 0
Processes = ℕ → List Text → ReturnCode × Text

abbrev pub one_of : List Text → Text → Bool
one_of names name = any (same name) names

abbrev pub is_gate_char : ℕ → Bool
is_gate_char c = leb 97 c && leb c 122 || leb 48 c && leb c 57 || eqb c 45

-- `[a-z0-9-]*$`: `$` also matches before a line feed that ends the text.
abbrev pub gate_chars : Text → Bool
gate_chars [] = true
gate_chars (c ∷ []) = is_gate_char c || eqb c 10
gate_chars (c ∷ d ∷ s) = is_gate_char c && gate_chars (d ∷ s)

-- `re.match(r"^[a-z0-9-]+$", gate)`
unfoldable pub is_gate_name : Text → Bool
is_gate_name [] = false
is_gate_name (c ∷ s) = is_gate_char c && gate_chars s

-- `own`, where `repository_names` can read it
abbrev pub own : Setup → List Text
own setup = elim setup.repository_names [ none ↦ [] | some names ↦ names ]

-- `gate in known`, the catalog's and the repository's names
unfoldable pub is_known : Setup → Text → Bool
is_known setup gate = one_of (setup.catalog ++ own setup) gate

-- `gate in shadowed`, the names both have
unfoldable pub is_shadowed : Setup → Text → Bool
is_shadowed setup gate = one_of setup.catalog gate && one_of (own setup) gate

abbrev pub base_ref_args : Option Text → List Text
base_ref_args none = []
base_ref_args (some ref) = if is_empty ref then [] else text "--base-ref" ∷ ref ∷ []

-- The command that runs a gate, without the entry's own arguments
unfoldable pub gate_command : Setup → Text → List Text
gate_command setup gate =
    let script = setup.gates_path ++ text "/" ++ replace 45 (text "_") gate ++ text ".py" in
    let descriptors = setup.gates_path ++ text "/_descriptors.py" in
    (if setup.is_file script
      then setup.executable ∷ script ∷ []
      else setup.executable ∷ descriptors ∷ gate ∷ [])
    ++ (text "--repo" ∷ setup.repo ∷ text "--format" ∷ [])
    ++ ((if setup.github then text "github" else text "text") ∷ base_ref_args setup.base_ref)

-- `code if code in (0, 1) else 2`
unfoldable pub gate_code : ReturnCode → ℕ
gate_code (exited code) = if leb code 1 then code else 2
gate_code (signalled number) = 2

-- `run_entry`, for the entry at position `i`. What it prints is not modelled.
unfoldable pub run_entry : Setup → Processes → ℕ → Entry → Outcome
unfolding is_gate_name is_known is_shadowed gate_command gate_code
run_entry setup processes i entry =
    let unknown = not (is_gate_name entry.gate) || not (is_known setup entry.gate) in
    let (code, note) = processes i (gate_command setup entry.gate ++ entry.args) in
    if unknown
    then record { gate = entry.gate; args = entry.args; code = 2; note = [] }
    else if is_shadowed setup entry.gate
    then record { gate = entry.gate; args = entry.args; code = 2; note = [] }
    else record { gate = entry.gate; args = entry.args; code = gate_code code; note = note }

-- `results`, one entry after another
unfoldable pub run_entries : Setup → Processes → ℕ → List Entry → List Outcome
unfolding run_entry
run_entries setup processes i [] = []
run_entries setup processes i (entry ∷ entries) =
    run_entry setup processes i entry ∷ run_entries setup processes (suc i) entries

-- `2 if 2 in codes else (1 if 1 in codes else 0)`
unfoldable pub exit_code : List Outcome → ℕ
exit_code results =
    if any (λ r. eqb r.code 2) results then 2 else if any (λ r. eqb r.code 1) results then 1 else 0

abbrev pub label : ℕ → Text
label zero = text "PASS"
label (suc zero) = text "FAIL"
label (suc (suc n)) = text "COULD NOT RUN"

-- The status of a row
unfoldable pub status : Outcome → Text
status r =
    let soak = if eqb r.code 0 && one_of r.args (text "--soak") then text " (soak)" else [] in
    let note =
      if eqb r.code 0 && not (is_empty r.note) then text " (" ++ r.note ++ text ")" else [] in
    label r.code ++ soak ++ note

-- The lines written to GITHUB_STEP_SUMMARY for the rows
unfoldable pub summary : List Outcome → List Text
unfolding status
summary results = map (λ r. text "| `" ++ r.gate ++ text "` | " ++ status r ++ text " |\n") results

-- `judged_entries` from the text of the manifest and that at the base, where there is one.
unfoldable pub judged : Text → Option Text → Text → Option Text → Result Text (List Entry)
unfolding parse_entries parse_manifest judged_entries
judged path manifest origin none =
    parse_manifest path manifest >>= λ head. ok (judged_entries head none)
judged path manifest origin (some at_base) = parse_manifest path manifest >>= λ head.
    parse_entries at_base origin >>= λ base. ok (judged_entries head (some base))

-- `run` after it: a manifest that cannot be read has ended it with exit code 2, through `sys.exit`.
unfoldable pub run_judged : Setup → Processes → Result Text (List Entry) → ℕ × List Outcome
unfolding run_entries exit_code
run_judged setup processes (err message) = (2, [])
run_judged setup processes (ok entries) =
    let results = run_entries setup processes 0 entries in
    elim setup.repository_names [ none ↦ (2, []) | some names ↦ (exit_code results, results) ]

-- `run`: its exit code and its results
unfoldable pub run : Setup → Processes → Text → Option Text → Text → Option Text → ℕ × List Outcome
unfolding run_judged judged
run setup processes path manifest origin at_base =
    run_judged setup processes (judged path manifest origin at_base)
