-- ===== src/Tests/Runner.antt =====
-- The theorems on the runner at concrete inputs (bin/cli/runner.py).
use Prim.Native.Nat.{max}
use vibe_verifier.Base.{ℕ, ◌≡◌, ◌≢◌, ◌↔◌, refl, true, false, none, some, List, [], ◌∷◌, ok, All}
use vibe_verifier.Base.Text.{text, splitlines}
use vibe_verifier.Runner.Manifest.{Entry, same_entry, take_gate, judged_entries, parse_entries}
use vibe_verifier.Runner.Manifest.Union.{gate_count, judged_entries-count}
use vibe_verifier.Runner.Run.{Setup, Processes, exited, judged, run}
use vibe_verifier.Runner.Run.Gates.{Passed, AllPassed, run-zero, run-base_gates}

abbrev prose : Entry
prose = record { gate = text "prose"; args = text "--all" ∷ [] }

abbrev copies : Entry
copies = record { gate = text "copy-audit"; args = [] }

judged_entries-count_example :
    gate_count (text "prose") (judged_entries (copies ∷ []) (some (prose ∷ [])))
    ≡ max (gate_count (text "prose") (prose ∷ [])) (gate_count (text "prose") (copies ∷ []))
judged_entries-count_example = judged_entries-count (text "prose") (copies ∷ []) prose []

abbrev setup : Setup
setup = record {
  repo = text ".";
  github = false;
  base_ref = none;
  executable = text "python3";
  gates_path = text "gates";
  is_file = λ path. true;
  catalog = text "prose" ∷ text "copy-audit" ∷ [];
  repository_names = some [];
}

abbrev passing : Processes
passing i command = (exited 0, [])

run-zero_example :
    ((run setup passing
        (text "m")
        (some (text "copy-audit"))
        (text "b")
        (some (text "prose --all"))).0
      ≡ 0)
    ↔ ((entries : List Entry) × (judged
            (text "m")
            (some (text "copy-audit"))
            (text "b")
            (some (text "prose --all"))
          ≡ ok entries)
        × (setup.repository_names ≢ none)
        × AllPassed setup passing 0 entries)
run-zero_example =
    run-zero setup passing (text "m") (some (text "copy-audit")) (text "b")
      (some (text "prose --all"))

-- The branch took the gate out of its manifest.
run-base_gates_example : All (λ entry. (i : ℕ) × Passed setup passing i entry) (prose ∷ [])
unfolding run parse_entries text splitlines same_entry take_gate
run-base_gates_example =
    run-base_gates setup passing (text "m") (some (text "copy-audit")) (text "b")
      (text "prose --all") (prose ∷ []) refl refl
