-- ===== src/PullSync/Judge.antt =====
-- actions/pull-sync/pull_sync.py, `judge`: one pull request's row before slots are given out.
pub mod Safety
use vibe_verifier.Base.{
  ℕ, ◌+◌, ◌/◌, Bool, true, false, not, ◌&&◌, ◌||◌, ◌++◌, [], ltb, leb, eqb, if◌then◌else◌, is_empty,
}
use vibe_verifier.Base.Text.{Text, text, same, decimal}
use vibe_verifier.PullSync.Pull.{
  Pull, one_of, red, running, checks, conflict_label, out_of_scope, behind,
}

pub data Action : Type 0 where
  sync conflict wait skip : Action

-- What becomes of the conflict label
pub data Relabel : Type 0 where
  add remove keep : Relabel

pub record Line : Type 0 where
  pub number : ℕ
  pub action : Action
  pub reason : Text
  pub head : Text
  pub label : Relabel
  pub ready : Bool
  pub replaces : Bool

-- `Line(number, action, reason, label=label)`
abbrev pub plain_line : ℕ → Action → Text → Relabel → Line
plain_line number action reason label = record {
  number = number;
  action = action;
  reason = reason;
  head = [];
  label = label;
  ready = false;
  replaces = false;
}

pub data Tier : Type 0 where
  ready stale : Tier
  later : Text → Tier

-- `tier`
unfoldable pub tier : Pull → ℕ → ℕ → Bool → Tier
tier pull now stale_after needs_update =
    if not pull.is_draft && same (checks pull needs_update) (text "SUCCESS")
    then ready
    else if leb (pull.commit.committed + stale_after) now
    then stale
    else later (
        text "not ready, and its head is newer than "
        ++ decimal (stale_after / 3600)
        ++ text " hours")

-- `while_running`
unfoldable pub while_running : Pull → Text → ℕ → ℕ → Bool → Relabel → Bool → Line
while_running pull base now quiet strict unlabel needs_update =
    if not strict
    then plain_line pull.number skip (text "checks running") unlabel
    else if pull.is_draft || one_of red (checks pull needs_update)
    then plain_line pull.number skip
        (text "checks running, and it is "
          ++ (if pull.is_draft then text "a draft" else text "already red"))
        unlabel
    else if ltb now (pull.commit.committed + quiet)
    then plain_line pull.number skip
        (text "checks running, and its head was pushed in the last "
          ++ decimal (quiet / 60)
          ++ text " minutes")
        unlabel
    else record {
      number = pull.number;
      action = sync;
      reason =
          text "checks running on a head "
          ++ decimal (behind pull)
          ++ text " behind "
          ++ base
          ++ text ", which merges only an up-to-date head";
      head = pull.head;
      label = unlabel;
      ready = false;
      replaces = true;
    }

abbrev pub tier_line : Tier → Pull → Text → Relabel → Line
tier_line (later why) pull base unlabel = plain_line pull.number skip why unlabel
tier_line ready pull base unlabel = record {
  number = pull.number;
  action = sync;
  reason = text "ready, " ++ decimal (behind pull) ++ text " behind " ++ base;
  head = pull.head;
  label = unlabel;
  ready = true;
  replaces = false;
}
tier_line stale pull base unlabel = record {
  number = pull.number;
  action = sync;
  reason = text "stale, " ++ decimal (behind pull) ++ text " behind " ++ base;
  head = pull.head;
  label = unlabel;
  ready = false;
  replaces = false;
}

unfoldable pub is_labelled : Pull → Bool
unfolding one_of
is_labelled pull = one_of pull.labels conflict_label

unfoldable pub is_mergeable : Pull → Bool
is_mergeable pull = same pull.mergeable (text "MERGEABLE")

-- `unlabel` of `judge`
unfoldable pub unlabel_of : Pull → Relabel
unfolding is_labelled is_mergeable
unlabel_of pull = if is_labelled pull && is_mergeable pull then remove else keep

-- `judge`
unfoldable pub judge : Pull → Text → ℕ → ℕ → ℕ → Bool → Bool → Line
unfolding is_mergeable
judge pull base now quiet stale_after strict needs_update =
    let number = pull.number in
    let reason = out_of_scope pull base in
    let unlabel = unlabel_of pull in
    if not (is_empty reason)
    then plain_line number skip reason keep
    else if same pull.mergeable (text "CONFLICTING")
    then plain_line number conflict (text "conflicts with " ++ base)
        (if is_labelled pull then keep else add)
    else if eqb (behind pull) 0
    then plain_line number skip (text "up to date") unlabel
    else if not (is_mergeable pull)
    then plain_line number skip (text "GitHub has not said whether it merges cleanly") keep
    else if running pull
    then while_running pull base now quiet strict unlabel needs_update
    else if ltb now (pull.updated + quiet)
    then plain_line number skip
        (text "changed in the last " ++ decimal (quiet / 60) ++ text " minutes") unlabel
    else tier_line (tier pull now stale_after needs_update) pull base unlabel
