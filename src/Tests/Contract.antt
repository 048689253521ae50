-- ===== src/Tests/Contract.antt =====
-- The contract's theorems at concrete inputs (gates/_contract.py).
use vibe_verifier.Base.{
  ◌≡◌, ◌↔◌, ◌⊎◌, inl, refl, Bool, true, false, none, some, List, [], ◌∷◌, ◌++◌, Result, ok, err,
}
use vibe_verifier.Base.Text.{Text, text, has, replace, join, decimal}
use vibe_verifier.Contract.Escape.{esc_data, esc_prop}
use vibe_verifier.Contract.Escape.Decode.{unescape, unescape-esc_data}
use vibe_verifier.Contract.Report.{
  Finding, Failure, cannot_run, github, plain, run_gate, annotation,
}
use vibe_verifier.Contract.Report.Verdict.{judged, IsClean, run_gate-exit_code}
use vibe_verifier.Contract.Report.Annotations.{annotation_one_line}
use vibe_verifier.Contract.Glob.{glob_to_regex, regex_fullmatch}
use vibe_verifier.Contract.Glob.Segments.{slashes, slashes-fullmatch}
use vibe_verifier.Contract.History.{tracked_at, planted, rename_pairs}
use vibe_verifier.Contract.History.Planted.{run_gate-planted}

-- A message that tries to write a command of its own
abbrev hostile : Text
hostile = text "50% done" ++ 10 ∷ text "::error::planted"

abbrev finding : Finding
finding = record {
  message = hostile;
  path = some (text "src/a.py");
  line = some 7;
  advisory = false;
}

escaped_hostile : esc_data hostile ≡ text "50%25 done%0A::error::planted"
unfolding esc_data text replace
escaped_hostile = refl

unescape-esc_data_example : unescape 0 (esc_data hostile) ≡ hostile
unescape-esc_data_example = unescape-esc_data hostile

annotation_written :
    annotation (text "gitleaks") (record finding { message = text "a key" }) false
    ≡ text "::error file=src/a.py,line=7,title=gitleaks::a key"
unfolding annotation text join esc_prop replace decimal
annotation_written = refl

annotation_one_line_example :
    (has 10 (annotation (text "gitleaks") finding false) ≡ false)
    × (has 13 (annotation (text "gitleaks") finding false) ≡ false)
annotation_one_line_example = annotation_one_line (text "gitleaks") finding false

abbrev broken : Result Failure (List Finding)
broken = err (cannot_run (text "no history"))

run_gate-exit_code_example :
    (((run_gate true (text "gitleaks") github true none broken).code ≡ 2)
      ↔ ((why : Failure) × (judged none broken ≡ err why)))
    × (((run_gate true (text "gitleaks") github true none broken).code ≡ 0) ↔ (
        (fs : List Finding) × (judged none broken ≡ ok fs)
        × ((◌≡◌ {A = Bool} true true) ⊎ IsClean fs)))
run_gate-exit_code_example = run_gate-exit_code true (text "gitleaks") github true none broken

run_gate-planted_example :
    (run_gate false
      (text "qae-artifacts")
      plain
      false
      (some (
        ok (
          planted
            (text "qae-artifacts")
            (text "the explorers")
            (tracked_at true (text "qae-artifacts" ∷ []) ([] ++ text "qae-artifacts" ∷ []))
            [])))
      (ok [])).code
    ≡ 1
unfolding text
run_gate-planted_example =
    run_gate-planted (text "qae-artifacts") (text "qae-artifacts") [] [] [] [] (refl, refl)
      (inl refl) (text "qae-artifacts") (text "the explorers") (text "qae-artifacts") plain false
      (ok [])

in_segment : regex_fullmatch (glob_to_regex (text "src/*.py")) (text "src/a.py") ≡ true
unfolding regex_fullmatch glob_to_regex text
in_segment = refl

across_segments : regex_fullmatch (glob_to_regex (text "src/**/*.py")) (text "src/x/y/a.py") ≡ true
unfolding regex_fullmatch glob_to_regex text
across_segments = refl

slashes-fullmatch_example : slashes (text "src/a.py") ≡ slashes (text "src/*.py")
unfolding text
slashes-fullmatch_example = slashes-fullmatch (text "src/*.py") (text "src/a.py") refl in_segment

renamed_and_kept :
    rename_pairs (text "R100" ∷ text "a" ∷ text "b" ∷ text "M" ∷ text "c" ∷ []) []
    ≡ some ((text "b", text "a") ∷ [])
unfolding rename_pairs text
renamed_and_kept = refl
