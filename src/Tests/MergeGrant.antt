-- ===== src/Tests/MergeGrant.antt =====
-- The theorems on the merge grant at concrete inputs (gates/_merge_grant.py).
use vibe_verifier.Base.{◌≡◌, refl, true, false, none, some, [], ◌∷◌, ok, In}
use vibe_verifier.Base.Text.{Text, text, has, split, join, strip}
use vibe_verifier.MergeGrant.Lines.{LinesRule, or_empty, changed_lines}
use vibe_verifier.MergeGrant.Lines.Unchanged.{changed_lines_complete}
use vibe_verifier.MergeGrant.Policy.{Grant, base, head, Reads, Python}
use vibe_verifier.MergeGrant.Decide.{decide}
use vibe_verifier.MergeGrant.Decide.Granted.{Holds, decide-Granted}

abbrev at_sign : LinesRule
at_sign = record { changed = some (has 64); removed = none; strip_all = none; ignore_case = true }

abbrev as_written : Text → Text
as_written s = s

same_file :
    changed_lines as_written at_sign (some (text "a\n  b")) (some (text "a\n  b")) ≡ ([], [])
unfolding changed_lines split text join strip
same_file = refl

changed_lines_complete_example : or_empty (some (text "a\n  b")) ≡ or_empty (some (text "a\n  b"))
unfolding text
changed_lines_complete_example =
    changed_lines_complete as_written at_sign (some (text "a\n  b")) (some (text "a\n  b")) refl
      refl same_file

abbrev docs : Grant
docs = record {
  name = text "docs";
  repos = some (text "acme/*" ∷ []);
  title = none;
  category_names = text "markdown" ∷ [];
  categories = some ((record { path = has 46; changes_only = []; unchanged = [] } ∷ []) ∷ []);
  exclusions =
      record { description = text "a workflow"; path = has 47; exempt = none; lines = none }
      ∷ record {
        description = text "a mention";
        path = has 46;
        exempt = none;
        lines = some at_sign;
      }
      ∷ [];
}

abbrev edit : Reads
edit = record {
  files = ok (record { old = text "a.md"; new = text "a.md" } ∷ []);
  title = ok (text "Docs");
  read = λ path side. elim side [ base ↦ ok (some (text "a\nb")) | head ↦ ok (some (text "a\nc")) ];
}

abbrev python : Python
python = record { loads = λ s. none; same_float = λ a b. false; lower = as_written }

granted : decide python edit (text "acme/site") (docs ∷ []) ≡ ok (text "docs")
unfolding decide split text join strip
granted = refl

decide-Granted_example :
    (grant : Grant) × In grant (docs ∷ [])
    × (grant.name ≡ text "docs")
    × Holds python edit (text "acme/site") grant
decide-Granted_example =
    decide-Granted python edit (text "acme/site") (docs ∷ []) (text "docs") granted
