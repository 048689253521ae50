-- ===== src/Tests/PinBump.antt =====
-- The theorems on pin bumps at concrete inputs (gates/_pin_bump.py).
use vibe_verifier.Base.{◌≡◌, refl, true, false, none, some, [], ◌∷◌, ◌++◌, ok, err, All, Bool}
use vibe_verifier.Base.Text.{Text, text, decimal}
use vibe_verifier.PinMerge.Changes.{cannot_read, catalog_prefix, prefix_of}
use vibe_verifier.PinBump.{
  Open, Gh, Lane, is_sha, older_than, is_replaced, close_all, supersede, recent_runs, lane_jobs,
  waiting_for, lane, when, open_pulls,
}
use vibe_verifier.PinBump.Replaced.{Replaced, IsClosed, FailsOr, supersede-Replaced}

abbrev branch : Text
branch = catalog_prefix ++ text "2222222222"

-- An open bump of an older commit
abbrev old_bump : Open
old_bump = record {
  number = 3;
  head_ref = catalog_prefix ++ text "1111111111";
  head_repo = some (text "o/r");
  url = none;
}

abbrev accepts : Gh
accepts call = none

-- Git's answer: the commit is an ancestor.
abbrev every_commit : Text → Bool
every_commit short = true

supersede-Replaced_example :
    let (answer, calls) =
      supersede accepts
        (text "o/r")
        branch
        (text "u")
        (older_than every_commit)
        (ok (old_bump ∷ []) ∷ []) in
    All (Replaced (text "o/r") branch catalog_prefix every_commit (old_bump ∷ [])) calls
    × FailsOr
        (IsClosed (text "o/r") branch catalog_prefix every_commit calls)
        (old_bump ∷ [])
        answer
unfolding prefix_of open_pulls text
supersede-Replaced_example =
    supersede-Replaced accepts (text "o/r") branch (text "u") catalog_prefix every_commit
      (ok (old_bump ∷ []) ∷ []) (old_bump ∷ []) refl refl

-- The old bump is closed, and the new one is not.
closes_old :
    (supersede accepts
      (text "o/r")
      branch
      (text "u")
      (older_than every_commit)
      (ok (old_bump ∷ record old_bump { number = 4; head_ref = branch } ∷ []) ∷ [])).0
    ≡ ok (text "#3" ∷ [])
unfolding supersede prefix_of open_pulls is_replaced older_than is_sha close_all text decimal
closes_old = refl

abbrev mine : Text × Text
mine = (text "o/r", text "1")

-- A lane whose own run alone has a job that waits
abbrev idle : Lane
idle = record {
  name = text "o/r";
  recent = ok (record { total_count = 1; events = text "push" ∷ [] });
  active = ok (
      record {
        id = text "1";
        jobs = ok (record { status = text "queued"; labels = text "linux" ∷ [] } ∷ []);
      }
      ∷ []);
}

-- A lane that GitHub does not answer for
abbrev unread : Lane
unread = record idle { recent = err (cannot_read (text "HTTP 502")) }

bumps_idle : when false 100 (some 150) 200 (some (text "linux")) mine (idle ∷ []) ≡ ok true
unfolding when lane recent_runs lane_jobs waiting_for text
bumps_idle = refl

waits_unread :
    when false 100 (some 150) 200 (some (text "linux")) mine (unread ∷ [])
    ≡ err (cannot_read (text "HTTP 502"))
unfolding when lane recent_runs lane_jobs waiting_for text
waits_unread = refl
