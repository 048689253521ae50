-- ===== src/Ratchet/Counts.antt =====
-- gates/_ratchet.py: what blocks is what has become more.
use vibe_verifier.Base.{◌≤◌, Bool, not, List, All}
use vibe_verifier.Base.Text.{Text}
use vibe_verifier.Contract.Report.{Finding}
use vibe_verifier.Ratchet.{Scanned, key_of, count}

abbrev pub is_blocking : Finding → Bool
is_blocking finding = not finding.advisory

-- Each of the findings is of a file and rule that has no more of them than before.
abbrev NoneRose : List Scanned → List Scanned → List Scanned → Type 0
NoneRose was blocking = All (λ f. count (key_of f) blocking ≤ count (key_of f) was)
