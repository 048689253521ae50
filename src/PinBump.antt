-- ===== src/PinBump.antt =====
-- gates/_pin_bump.py: when pins are bumped, and which open bumps a new one replaces. Times are whole
-- seconds.
pub mod Quiet
pub mod Replaced
pub mod Started
use vibe_verifier.Base.{
  ℕ, zero, suc, ◌+◌, ◌-◌, ◌/◌, Bool, true, false, not, ◌&&◌, ◌||◌, Option, none, some, List, [],
  ◌∷◌, ◌++◌, Result, ok, err, ◌>>=◌, if◌then◌else◌, any, all, select, is_empty, leb, eqb, length,
  drop,
}
use vibe_verifier.Base.Text.{Text, text, same, starts_with, decimal}
use vibe_verifier.PinMerge.Pin.{is_hex}
use vibe_verifier.PinMerge.Changes.{Stop, cannot_read, prefix_of}
use vibe_verifier.PinMerge.Checks.{paged, is_text}

-- `is_sha`
unfoldable pub is_sha : Text → ℕ → Bool
is_sha s shortest = leb shortest (length s) && leb (length s) 40 && all is_hex s

-- `older_than`; `is_ancestor` is git's answer for a commit and the target.
unfoldable pub older_than : (Text → Bool) → Text → Bool
unfolding is_sha
older_than is_ancestor short = is_sha short 7 && is_ancestor short

-- An open pull request; the repository of its head may be gone.
pub record Open : Type 0 where
  pub number : ℕ
  pub head_ref : Text
  pub head_repo : Option Text
  pub url : Option Text

-- `open_pulls`, from the pages of the listing
unfoldable pub open_pulls : List (Result Stop (List Open)) → Result Stop (List Open)
unfolding paged
open_pulls pages = paged pages

-- `close`: the pull request and the comment
pub record Close : Type 0 where
  pub number : ℕ
  pub comment : Text

-- What `gh pr close` answered: none, or the message of its CannotRead
abbrev pub Gh : Type 0
Gh = Close → Option Text

-- The test of `supersede`
unfoldable pub is_replaced : Text → Text → Text → (Text → Bool) → Open → Bool
is_replaced repo prefix branch older pull =
    starts_with pull.head_ref prefix
    && not (same pull.head_ref branch)
    && is_text repo pull.head_repo
    && older (drop (length prefix) pull.head_ref)

abbrev pub shown_url : Open → Text
shown_url pull = elim pull.url [ none ↦ text "#" ++ decimal pull.number | some url ↦ url ]

abbrev pub close_of : Text → Open → Close
close_of url pull = record {
  number = pull.number;
  comment = text "Superseded by " ++ url ++ text ", which moves the same pins to a newer commit.";
}

abbrev pub then_closed :
    Open → Result Stop (List Text) × List Close → Result Stop (List Text) × List Close
then_closed pull (answer, made) = (answer >>= λ urls. ok (shown_url pull ∷ urls), made)

-- The loop of `supersede` over the pull requests that pass its test: the URLs closed, and the calls
-- made; one that fails ends it.
unfoldable pub close_all : Gh → Text → List Open → Result Stop (List Text) × List Close
close_all gh url [] = (ok [], [])
close_all gh url (pull ∷ pulls) =
    let call = close_of url pull in
    let (answer, made) = then_closed pull (close_all gh url pulls) in
    elim (gh call) as (λ _. Result Stop (List Text) × List Close) [
      | none ↦ (answer, call ∷ made)
      | some message ↦ (err (cannot_read message), call ∷ [])
    ]

abbrev pub close_listed :
    Gh → Text → (Open → Bool) → Result Stop (List Open) → Result Stop (List Text) × List Close
close_listed gh url test (err stop) = (err stop, [])
close_listed gh url test (ok pulls) = close_all gh url (select test pulls)

abbrev pub close_level :
    Gh
    → Text
    → Text
    → Text
    → (Text → Bool)
    → List (Result Stop (List Open))
    → Result Stop Text
    → Result Stop (List Text) × List Close
close_level gh repo branch url older pages (err stop) = (err stop, [])
close_level gh repo branch url older pages (ok prefix) =
    close_listed gh url (is_replaced repo prefix branch older) (open_pulls pages)

-- `supersede`
unfoldable pub supersede :
    Gh
    → Text
    → Text
    → Text
    → (Text → Bool)
    → List (Result Stop (List Open))
    → Result Stop (List Text) × List Close
unfolding is_replaced close_all prefix_of open_pulls
supersede gh repo branch url older pages =
    close_level gh repo branch url older pages (prefix_of branch)

-- A job of a run, and a run with its jobs
pub record Job : Type 0 where
  pub status : Text
  pub labels : List Text

pub record Run : Type 0 where
  pub id : Text
  pub jobs : Result Stop (List Job)

-- GitHub's answer for the runs of the last hour: their count, and the events of those on the page
pub record Recent : Type 0 where
  pub total_count : ℕ
  pub events : List Text

-- What the lane reads of a repository: the runs of the last hour, and the queued and running runs; each
-- read can raise CannotRead.
pub record Lane : Type 0 where
  pub name : Text
  pub recent : Result Stop Recent
  pub active : Result Stop (List Run)

-- `recent_runs`
unfoldable pub recent_runs : Lane → Result Stop ℕ
recent_runs repo = repo.recent >>= λ answer. ok (
    (answer.total_count - length answer.events)
    + length (select (λ event. not (same event (text "schedule"))) answer.events))

abbrev pub sum_recent : List Lane → Result Stop ℕ
sum_recent [] = ok 0
sum_recent (repo ∷ repos) =
    recent_runs repo >>= λ runs. sum_recent repos >>= λ more. ok (runs + more)

abbrev pub jobs_of : List Run → Result Stop (List Job)
jobs_of [] = ok []
jobs_of (run ∷ runs) = run.jobs >>= λ jobs. jobs_of runs >>= λ more. ok (jobs ++ more)

-- `lane_jobs`; `mine` is the repository and the id of this run.
unfoldable pub lane_jobs : Text × Text → Lane → Result Stop (List Job)
lane_jobs (my_repo, my_run) repo = repo.active >>= λ runs.
    jobs_of (select (λ run. not (same repo.name my_repo && same run.id my_run)) runs)

abbrev pub all_jobs : Text × Text → List Lane → Result Stop (List Job)
all_jobs mine [] = ok []
all_jobs mine (repo ∷ repos) =
    lane_jobs mine repo >>= λ jobs. all_jobs mine repos >>= λ more. ok (jobs ++ more)

-- How many jobs of the label have a status
unfoldable pub waiting_for : Text → Text → List Job → ℕ
waiting_for label status jobs =
    length (select (λ job. any (same label) job.labels && same job.status status) jobs)

abbrev pub judge_jobs : Text → List Job → Bool
judge_jobs label jobs =
    eqb (waiting_for label (text "queued") jobs) 0
    && leb (waiting_for label (text "in_progress") jobs) 2

-- `lane`: whether it is quiet. The sentence that says why is not modelled.
unfoldable pub lane : Text × Text → Text → List Lane → Result Stop Bool
unfolding recent_runs lane_jobs waiting_for
lane mine label repos = sum_recent repos >>= λ recent.
    if not (leb recent 6)
    then ok false
    else all_jobs mine repos >>= λ jobs. ok (judge_jobs label jobs)

-- Whether the oldest release commit that waits has waited for the limit
abbrev pub is_overdue : ℕ → Option ℕ → ℕ → Bool
is_overdue overdue none clock = false
is_overdue overdue (some oldest) clock = leb (oldest + overdue) clock

-- `when`: whether to bump now; `oldest` is `first_waiting`.
unfoldable pub when :
    Bool → ℕ → Option ℕ → ℕ → Option Text → Text × Text → List Lane → Result Stop Bool
unfolding lane
when now overdue oldest clock none mine repos = ok true
when now overdue oldest clock (some label) mine repos =
    if now || is_overdue overdue oldest clock || is_empty label
    then ok true
    else lane mine label repos
