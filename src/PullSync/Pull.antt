-- ===== src/PullSync/Pull.antt =====
-- actions/pull-sync/pull_sync.py, what is read of a pull request. Times are seconds since one
-- origin; a difference of times is compared by moving what is subtracted to the other side.
use vibe_verifier.Base.{
  ℕ, ◌+◌, Bool, true, false, not, ◌&&◌, ◌||◌, Option, none, some, List, [], ◌∷◌, ◌++◌, ltb, eqb,
  if◌then◌else◌, any,
}
use vibe_verifier.Base.Text.{Text, text, same}

-- How many checks of the head are in a state.
pub record Count : Type 0 where
  pub state : Text
  pub count : ℕ

-- `statusCheckRollup` of a commit
pub record Rollup : Type 0 where
  pub state : Text
  pub check_runs : List Count
  pub status_contexts : List Count

-- The head commit. `statuses` holds the values of `status`, none for a name with no status.
pub record Commit : Type 0 where
  pub statuses : List (Option Text)
  pub rollup : Option Rollup
  pub via_web : Bool
  pub parents : ℕ
  pub committed : ℕ

-- `compare` of the head branch, by its `aheadBy`; none where GitHub gives null.
pub record Branch : Type 0 where
  pub ahead_by : Option ℕ

pub record Pull : Type 0 where
  pub number : ℕ
  pub labels : List Text
  pub is_cross_repository : Bool
  pub base_ref : Text
  pub head_ref : Option Branch
  pub head : Text
  pub mergeable : Text
  pub is_draft : Bool
  pub updated : ℕ
  pub commit : Commit

unfoldable pub one_of : List Text → Text → Bool
one_of names s = any (same s) names

abbrev pub passed : List Text
passed = text "SUCCESS" ∷ text "NEUTRAL" ∷ text "SKIPPED" ∷ []

abbrev pub unfinished : List Text
unfinished =
    text "IN_PROGRESS" ∷ text "PENDING" ∷ text "QUEUED" ∷ text "WAITING" ∷ text "EXPECTED" ∷ []

abbrev pub red : List Text
red = text "FAILURE" ∷ text "ERROR" ∷ []

-- The sum of the counts whose state passes the test
unfoldable pub total : (Text → Bool) → List Count → ℕ
total test [] = 0
total test (row ∷ rows) = (if test row.state then row.count else 0) + total test rows

unfoldable pub failed_status : Option Text → Bool
unfolding one_of
failed_status none = false
failed_status (some state) = one_of red state

-- `needs_update_failed`
unfoldable pub count_failed : List (Option Text) → ℕ
unfolding failed_status
count_failed [] = 0
count_failed (s ∷ ss) = (if failed_status s then 1 else 0) + count_failed ss

unfoldable pub needs_update_failed : Pull → ℕ
unfolding count_failed
needs_update_failed pull = count_failed pull.commit.statuses

unfoldable pub is_running : Count → Bool
unfolding one_of
is_running row = not (eqb row.count 0) && one_of unfinished row.state

abbrev pub rollup_running : Option Rollup → Bool
rollup_running none = false
rollup_running (some rollup) = any is_running (rollup.check_runs ++ rollup.status_contexts)

-- `running`
unfoldable pub running : Pull → Bool
unfolding is_running
running pull = rollup_running pull.commit.rollup

-- The failures that `checks` counts
unfoldable pub failed_checks : Rollup → ℕ
unfolding total one_of
failed_checks rollup =
    total (λ s. not (one_of (passed ++ unfinished) s)) rollup.check_runs
    + total (one_of red) rollup.status_contexts

abbrev pub rollup_checks : Option Rollup → Bool → ℕ → Bool → Text
rollup_checks none named named_failed is_running = []
rollup_checks (some rollup) named named_failed is_running =
    if not (one_of red rollup.state) || not named || eqb named_failed 0
    then rollup.state
    else if ltb named_failed (failed_checks rollup)
    then rollup.state
    else if is_running
    then text "PENDING"
    else text "SUCCESS"

-- `checks`; the flag says that --needs-update names a status.
unfoldable pub checks : Pull → Bool → Text
unfolding one_of failed_checks needs_update_failed running
checks pull needs_update =
    rollup_checks pull.commit.rollup needs_update (needs_update_failed pull) (running pull)

-- `is_update`
unfoldable pub is_update : Pull → Bool
is_update pull = pull.commit.via_web && eqb pull.commit.parents 2

abbrev pub is_none {ℓ} : {A : Type ℓ} → Option A → Bool
is_none none = true
is_none (some a) = false

-- `holds_slot`
unfoldable pub holds_slot : Pull → ℕ → ℕ → Bool
unfolding is_update running
holds_slot pull now quiet =
    is_update pull
    && (running pull || is_none pull.commit.rollup && ltb now (pull.commit.committed + quiet))

abbrev pub opt_out_label : Text
opt_out_label = text "no-auto-sync"

abbrev pub conflict_label : Text
conflict_label = text "sync-conflict"

abbrev pub ref_scope : Option Branch → Text → Text
ref_scope none base = text "its head branch is gone"
ref_scope (some branch) base =
    if is_none branch.ahead_by then text "GitHub could not compare it with " ++ base else []

-- `out_of_scope`: the empty text where the pull request is in scope
unfoldable pub out_of_scope : Pull → Text → Text
unfolding one_of
out_of_scope pull base =
    if one_of pull.labels opt_out_label
    then text "label " ++ opt_out_label
    else if pull.is_cross_repository
    then text "from a fork"
    else if not (same pull.base_ref base)
    then text "into " ++ pull.base_ref ++ text ", not " ++ base
    else ref_scope pull.head_ref base

abbrev pub behind_of : Option Branch → ℕ
behind_of none = 0
behind_of (some branch) = elim branch.ahead_by [ none ↦ 0 | some n ↦ n ]

-- `pull["headRef"]["compare"]["aheadBy"]`, read only in scope, where both are there
unfoldable pub behind : Pull → ℕ
behind pull = behind_of pull.head_ref
