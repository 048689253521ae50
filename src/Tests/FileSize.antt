-- ===== src/Tests/FileSize.antt =====
-- The theorems on the file size gate at concrete inputs (gates/max_file_lines.py).
use vibe_verifier.Base.{◌≡◌, refl, Option, none, some, List, [], ◌∷◌, ok, All, if◌then◌else◌}
use vibe_verifier.Base.Text.{Text, text, same}
use vibe_verifier.FileSize.{Args, Blob, Repository, changed, candidates, judged_files, check}
use vibe_verifier.FileSize.Ratchet.{FileFits, check-FileFits}

abbrev args : Args
args = record {
  max = 1;
  max_tokens = 0;
  source = text "**/*.py" ∷ [];
  exclude = [];
  scope = changed;
}

-- Three lines that were three lines
abbrev long : Blob
long = record { decoded = text "a\nb\nc"; bytes = 5 }

abbrev repository : Repository
repository = record {
  tracked = ok (text "a.py" ∷ []);
  staged_changes = ok ([], []);
  changes = ok (text "a.py" ∷ [], (text "a.py", text "b.py") ∷ [], text "main");
  at_commit = λ commit path. if same path (text "b.py") then some long else none;
  in_index = λ path. none;
  on_disk = λ path. some long;
}

check-FileFits_example :
    (tracked : List Text) × (found : List Text) × (moved : List (Text × Text)) × (start : Option
      Text)
    × (repository.tracked ≡ ok tracked)
    × (candidates repository args.scope tracked ≡ ok (found, moved, start))
    × All (FileFits repository args start moved) (judged_files args tracked found)
unfolding check text
check-FileFits_example = check-FileFits [] repository args refl
