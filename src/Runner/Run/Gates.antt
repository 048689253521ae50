-- ===== src/Runner/Run/Gates.antt =====
-- What the exit code of a run says of the gates that the base's manifest names.
use vibe_verifier.Base.{
  ℕ, suc, ◌≤◌, ◌≡◌, ◌≢◌, ◌↔◌, inl, inr, refl, subst, ap, true, false, Option, none, some, List, [],
  ◌∷◌, ◌++◌, Result, ok, err, ◌>>=◌, arith, All, Option-cases,
}
use vibe_verifier.Base.Text.{Text}
use vibe_verifier.Runner.Manifest.{
  Entry, parse_entries, parse_manifest, judged_entries, added_lines,
}
use vibe_verifier.Runner.Run.{
  Setup, Processes, ReturnCode, exited, signalled, Outcome, is_gate_name, is_known, is_shadowed,
  gate_command, gate_code, run_entry, run_entries, exit_code, judged, run_judged, run,
}

module _ (setup : Setup) (processes : Processes) where
  -- The entry at a position of the run ran its own command, with its own arguments, and the process
  -- exited with 0.
  pub Passed : ℕ → Entry → Type 0
  Passed i entry =
      (is_gate_name entry.gate ≡ true)
      × (is_known setup entry.gate ≡ true)
      × (is_shadowed setup entry.gate ≡ false)
      × ((processes i (gate_command setup entry.gate ++ entry.args)).0 ≡ exited 0)

  -- Every entry passed, the first of them at position `i`.
  abbrev pub AllPassed : ℕ → List Entry → Type 0
  AllPassed i [] = Unit
  AllPassed i (entry ∷ entries) = Passed i entry × AllPassed (suc i) entries

  gate_code-zero : (code : ReturnCode) → gate_code code ≡ 0 → code ≡ exited 0
  unfolding gate_code
  gate_code-zero (exited code) h = ap exited (ground (arith, h))
  gate_code-zero (signalled number) h = ground (arith, h)

  gate_code-bound : (code : ReturnCode) → gate_code code ≤ 2
  unfolding gate_code
  gate_code-bound (exited code) = ground arith
  gate_code-bound (signalled number) = omega arith

  run_entry-zero :
      (i : ℕ) (entry : Entry) → (run_entry setup processes i entry).code ≡ 0 → Passed i entry
  unfolding run_entry Passed
  run_entry-zero i entry h = (
    ground arith,
    ground arith,
    ground arith,
    gate_code-zero (processes i (gate_command setup entry.gate ++ entry.args)).0 (ground arith),
  )

  Passed-code :
      (i : ℕ) (entry : Entry) → Passed i entry → (run_entry setup processes i entry).code ≡ 0
  unfolding run_entry Passed gate_code
  Passed-code i entry (named, known, clear, passed) = rw (named, known, clear, passed) refl

  run_entry-bound : (i : ℕ) (entry : Entry) → (run_entry setup processes i entry).code ≤ 2
  unfolding run_entry
  run_entry-bound i entry =
      ground (arith, gate_code-bound (processes i (gate_command setup entry.gate ++ entry.args)).0)

  exit_code-cons :
      (r : Outcome) (rs : List Outcome)
      → r.code ≤ 2
      → exit_code (r ∷ rs) ≡ 0
      → (r.code ≡ 0) × (exit_code rs ≡ 0)
  unfolding exit_code
  exit_code-cons r rs bound h = ground arith

  exit_code-zero :
      (i : ℕ) (entries : List Entry)
      → exit_code (run_entries setup processes i entries) ≡ 0
      → AllPassed i entries
  unfolding run_entries
  exit_code-zero i [] h = tt
  exit_code-zero i (entry ∷ entries) h =
      let split =
        exit_code-cons (run_entry setup processes i entry)
          (run_entries setup processes (suc i) entries) (run_entry-bound i entry) h in
      (run_entry-zero i entry split.0, exit_code-zero (suc i) entries split.1)

  AllPassed-exit_code :
      (i : ℕ) (entries : List Entry)
      → AllPassed i entries
      → exit_code (run_entries setup processes i entries) ≡ 0
  unfolding run_entries exit_code
  AllPassed-exit_code i [] h = refl
  AllPassed-exit_code i (entry ∷ entries) h =
      let head = Passed-code i entry h.0 in
      let tail = AllPassed-exit_code (suc i) entries h.1 in ground arith

  AllPassed-front :
      (i : ℕ) (front back : List Entry)
      → AllPassed i (front ++ back)
      → All (λ entry. (j : ℕ) × Passed j entry) front
  AllPassed-front i [] back h = tt
  AllPassed-front i (entry ∷ front) back h = ((i, h.0), AllPassed-front (suc i) front back h.1)

  run_judged-zero :
      (judgement : Result Text (List Entry))
      → (run_judged setup processes judgement).0 ≡ 0
      → (entries : List Entry) × (judgement ≡ ok entries)
        × (setup.repository_names ≢ none)
        × AllPassed 0 entries
  unfolding run_judged
  run_judged-zero (err message) h = ground arith
  run_judged-zero (ok entries) h = elim (Option-cases setup.repository_names) [
    | inl e ↦ ground arith
    | inr (names, e) ↦
        (entries, refl, (λ none'. ground arith), exit_code-zero 0 entries (ground arith))
  ]

  run_judged-passed :
      (entries : List Entry)
      → setup.repository_names ≢ none
      → AllPassed 0 entries
      → (run_judged setup processes (ok entries)).0 ≡ 0
  unfolding run_judged
  run_judged-passed entries readable h = elim (Option-cases setup.repository_names) [
    | inl e ↦ ground arith
    | inr (names, e) ↦ ground (arith, AllPassed-exit_code 0 entries h)
  ]

judged_entries-front :
    (head base : List Entry)
    → (added : List Entry) × (judged_entries head (some base) ≡ base ++ added)
unfolding judged_entries
judged_entries-front head [] = (head, refl)
judged_entries-front head (e ∷ base) = (added_lines (e ∷ base) head, refl)

judged-front :
    (head at_base : Result Text (List Entry)) (base entries : List Entry)
    → at_base ≡ ok base
    → (head >>= λ lines. at_base >>= λ old. ok (judged_entries lines (some old))) ≡ ok entries
    → (added : List Entry) × (entries ≡ base ++ added)
judged-front (err message) at_base base entries parsed h = ground arith
judged-front (ok head) (err message) base entries parsed h = ground arith
judged-front (ok head) (ok old) base entries parsed h =
    let (added, front) = judged_entries-front head base in (added, ground (arith, front))

-- A run exits with 0 exactly where the manifests could be read, the repository's gate names too, and
-- every judged line, in its turn, ran its gate with its own arguments and the gate exited with 0.
pub run-zero :
    (setup : Setup) (processes : Processes) (path : Text) (manifest : Option Text) (origin : Text)
    (at_base : Option Text)
    → ((run setup processes path manifest origin at_base).0 ≡ 0) ↔ (
        (entries : List Entry) × (judged path manifest origin at_base ≡ ok entries)
        × (setup.repository_names ≢ none)
        × AllPassed setup processes 0 entries)
unfolding run
run-zero setup processes path manifest origin at_base = (
  run_judged-zero setup processes (judged path manifest origin at_base),
  λ (entries, e, readable, passed).
      rw e (run_judged-passed setup processes entries readable passed),
)

-- Where a run on a pull request exits with 0, every line of the base's manifest ran its gate, with the
-- base's arguments, and the gate exited with 0, whatever the branch made of the manifest.
pub run-base_gates :
    (setup : Setup) (processes : Processes) (path : Text) (manifest : Option Text)
    (origin at_base : Text) (base : List Entry)
    → parse_entries at_base origin ≡ ok base
    → (run setup processes path manifest origin (some at_base)).0 ≡ 0
    → All (λ entry. (i : ℕ) × Passed setup processes i entry) base
unfolding run judged
run-base_gates setup processes path manifest origin at_base base parsed h =
    let (entries, e, readable, passed) =
      run_judged-zero setup processes (judged path manifest origin (some at_base)) h in
    let (added, front) =
      judged-front (parse_manifest path manifest) (parse_entries at_base origin) base entries parsed
        e in
    AllPassed-front setup processes 0 base added (subst (AllPassed setup processes 0) front passed)
