-- ===== src/Tests/Ratchet.antt =====
-- The theorem on the count ratchet at a concrete input (gates/_ratchet.py).
use vibe_verifier.Base.{false, Option, some, List, [], ◌∷◌}
use vibe_verifier.Base.Text.{Text, text}
use vibe_verifier.Ratchet.{Scanned}

abbrev unused : Scanned
unused = record {
  finding = record {
    message = text "unused";
    path = some (text "a.py");
    line = some 3;
    advisory = false;
  };
  named_rule = some (text "F401");
}

abbrev scan : List (Text × Text) → List Scanned
scan files = unused ∷ []

abbrev at_start : Text → Option Text
at_start path = some (text "import os")
