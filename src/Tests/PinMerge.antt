-- ===== src/Tests/PinMerge.antt =====
-- The theorems on the merging of pin bumps at concrete inputs (gates/_pin_merge.py).
use vibe_verifier.Base.{
  ℕ, ◌≡◌, refl, inl, Bool, true, ◌&&◌, ◌||◌, none, some, List, [], ◌∷◌, ◌++◌, ok, if◌then◌else◌,
  leb, eqb,
}
use vibe_verifier.Base.Text.{Text, text, same, split, is_space, decimal}
use vibe_verifier.PinMerge.Pin.{moved_pin}
use vibe_verifier.PinMerge.Pin.Line.{MovedPin, moved_pin-MovedPin}
use vibe_verifier.PinMerge.Changes.{Compare, is_of, catalog_prefix, not_pins}
use vibe_verifier.PinMerge.Changes.Lines.{OnlyPins, not_pins-OnlyPins}
use vibe_verifier.PinMerge.Checks.{Check, checks}
use vibe_verifier.PinMerge.Checks.Passed.{Passes, checks-Passes}
use vibe_verifier.PinMerge.Merge.{Pull, GitHub, Gh, judge}
use vibe_verifier.PinMerge.Merge.Ready.{Ready, judge-Ready}

abbrev ascii_word : ℕ → Bool
ascii_word c = leb 48 c && leb c 57 || leb 65 c && leb c 90 || leb 97 c && leb c 122 || eqb c 95

abbrev repo : Text
repo = text "o/r"

abbrev older : Text
older = text "1111111111111111111111111111111111111111"

abbrev newer : Text
newer = text "2222222222222222222222222222222222222222"

abbrev branch : Text
branch = catalog_prefix ++ text "2222222222"

abbrev uses_line : Text → Text
uses_line sha = text "  - uses: g/vibe-verifier/actions/gates@" ++ sha

abbrev on_main : Text → Text → Bool
on_main prefix sha = true

abbrev of_catalog : Text → Bool
of_catalog = is_of ascii_word repo catalog_prefix

moved_pin-MovedPin_example :
    MovedPin ascii_word of_catalog
      (text "2222222222")
      (on_main [])
      (uses_line older)
      (uses_line newer)
unfolding moved_pin text is_space is_of
moved_pin-MovedPin_example =
    moved_pin-MovedPin ascii_word of_catalog (text "2222222222") (on_main []) (uses_line older)
      (uses_line newer) refl

abbrev compared : Compare
compared = record {
  files =
      record { filename = text ".github/workflows/ci.yml"; status = some (text "modified") } ∷ [];
  behind_by = 0;
  merge_base = text "base";
}

abbrev green : List Check
green = record { name = text "Gates"; result = some (text "success") } ∷ []

checks-Passes_example : Passes green true
unfolding checks text
checks-Passes_example = checks-Passes green true refl

abbrev pull : Pull
pull = record {
  head_sha = text "head";
  head_ref = branch;
  base_ref = text "main";
  title = text "bump";
  changed_files = some 1;
  mergeable = some true;
  mergeable_state = some (text "clean");
}

abbrev github : GitHub
github = record {
  pull = λ number. ok pull;
  default_branch = ok (some (text "main"));
  compare = λ base head. ok compared;
  contents =
      λ path ref. ok (some (if same ref (text "base") then uses_line older else uses_line newer));
  check_runs = λ head.
      ok (
        record {
          name = text "Gates";
          status = some (text "completed");
          conclusion = some (text "success");
        }
        ∷ [])
      ∷ [];
  statuses = λ head. [];
  reviews = λ number. [];
}

not_pins-OnlyPins_example :
    OnlyPins ascii_word github.contents repo compared (text "head") branch on_main
unfolding not_pins text split is_space
not_pins-OnlyPins_example =
    not_pins-OnlyPins ascii_word github.contents repo compared (text "head") branch on_main refl

abbrev accepts : Gh
accepts call = none

judge-Ready_example : ◌≡◌ {A = ℕ} 7 7 × Ready ascii_word repo on_main github 7 (text "head")
unfolding judge text split is_space checks decimal
judge-Ready_example =
    judge-Ready ascii_word repo on_main github 7 accepts 7 (text "head") (text "bump (#7)")
      (inl refl)
