-- ===== src/PullSync/Plan.antt =====
-- actions/pull-sync/pull_sync.py, `plan`: the rows of all pull requests, and who gets a slot.
pub mod Slots
use vibe_verifier.Base.{
  ℕ, suc, ◌+◌, ◌-◌, Bool, true, false, not, ◌&&◌, ◌||◌, List, [], ◌∷◌, ◌++◌, map, eqb,
  if◌then◌else◌, any, select, drop, length,
}
use vibe_verifier.Base.Text.{Text, text}
use vibe_verifier.PullSync.Pull.{Pull, holds_slot}
use vibe_verifier.PullSync.Judge.{Line, Action, sync, wait, judge}

abbrev pub is_sync : Action → Bool
is_sync sync = true
is_sync _ = false

-- A row that needs a slot
abbrev pub needs_slot : Line → Bool
needs_slot line = is_sync line.action && not line.replaces

-- `sorted(..., key=lambda line: not line.ready)`: Python's sort is stable, so the ready rows come
-- first and each part keeps its order.
unfoldable pub candidates : List Line → List Line
candidates lines =
    let found = select needs_slot lines in
    select (λ line. line.ready) found ++ select (λ line. not line.ready) found

-- `line.number in waiting`
abbrev pub is_waiting : List Line → Line → Bool
is_waiting waiting line = any (λ other. eqb line.number other.number) waiting

unfoldable pub give_slot : List Line → Line → Line
give_slot waiting line =
    if is_waiting waiting line
    then record line { action = wait; reason = line.reason ++ text "; no free slot" }
    else line

-- The end of `plan`, from the rows and the free slots
unfoldable pub give_slots : List Line → ℕ → List Line
unfolding candidates give_slot
give_slots lines free = map (give_slot (drop free (candidates lines))) lines

pub record Planned : Type 0 where
  pub lines : List Line
  pub in_flight : ℕ
  pub free : ℕ

-- `plan`
unfoldable pub plan : List Pull → Text → ℕ → ℕ → ℕ → ℕ → Bool → Bool → Planned
unfolding give_slots
plan pulls base now max_in_flight quiet stale_after strict needs_update =
    let in_flight = length (select (λ pull. holds_slot pull now quiet) pulls) in
    let free = max_in_flight - in_flight in
    record {
      lines =
          give_slots (map (λ pull. judge pull base now quiet stale_after strict needs_update) pulls)
            free;
      in_flight = in_flight;
      free = free;
    }
