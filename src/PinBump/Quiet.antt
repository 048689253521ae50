-- ===== src/PinBump/Quiet.antt =====
-- gates/_pin_bump.py: when `when` bumps, and when `lane` says that the lane is quiet.
use vibe_verifier.Base.{ℕ, ◌+◌, ◌≤◌, ◌≡◌, Option, some, List, ok, All, In}
use vibe_verifier.Base.Text.{Text, text}
use vibe_verifier.PinBump.{Lane, Job, all_jobs, waiting_for}
use vibe_verifier.PinBump.Started.{Started}

-- Every repository answered, at most six runs started in the last hour, no job of the label waits in a run
-- other than this one, and at most two run.
abbrev pub IsQuiet : Text × Text → Text → List Lane → Type 0
IsQuiet mine label repos =
    (recent : ℕ) × (jobs : List Job) × Started repos recent
    × (recent ≤ 6)
    × (all_jobs mine repos ≡ ok jobs)
    × All (λ job. (In label job.labels × (job.status ≡ text "queued")) → ⊥) jobs
    × (waiting_for label (text "in_progress") jobs ≤ 2)

-- The oldest release commit that waits has waited for the limit.
abbrev pub IsOverdue : ℕ → Option ℕ → ℕ → Type 0
IsOverdue overdue oldest clock = (at : ℕ) × (oldest ≡ some at) × (at + overdue ≤ clock)

-- There is a lane to wait for, and it is quiet.
abbrev pub HasQuietLane : Text × Text → Option Text → List Lane → Type 0
HasQuietLane mine label repos = (name : Text) × (label ≡ some name) × IsQuiet mine name repos
