-- ===== src/Tests/PullSync.antt =====
-- The theorems on pull-sync at concrete inputs (actions/pull-sync/pull_sync.py).
use vibe_verifier.Base.{
  ◌+◌, ◌≤◌, ◌<◌, ◌≡◌, ◌↔◌, ◌⊎◌, refl, true, false, none, some, List, [], ◌∷◌, Result, ok, err,
  select, length, any, All, arith,
}
use vibe_verifier.Base.Text.{Text, text}
use vibe_verifier.PullSync.Pull.{Pull, holds_slot, out_of_scope, running, one_of, behind, checks}
use vibe_verifier.PullSync.Judge.{
  Line, sync, add, remove, keep, judge, tier, unlabel_of, is_labelled,
}
use vibe_verifier.PullSync.Judge.Safety.{InScope, IsReplaceable, IsQuiet, judge-sync, judge-label}
use vibe_verifier.PullSync.Plan.{needs_slot, give_slots, plan}
use vibe_verifier.PullSync.Plan.Slots.{stale_candidates, plan_capped, give_slots-ready_first}
use vibe_verifier.PullSync.Write.{Args, Gh, sync_repo}
use vibe_verifier.PullSync.Write.Calls.{is_refused, IsAllowed, sync_repo-code, sync_repo-IsAllowed}

abbrev main : Text
main = text "main"

-- A pull request whose checks passed, and that is three commits behind
abbrev green : Pull
green = record {
  number = 7;
  labels = [];
  is_cross_repository = false;
  base_ref = main;
  head_ref = some (record { ahead_by = some 3 });
  head = text "abc";
  mergeable = text "MERGEABLE";
  is_draft = false;
  updated = 100;
  commit = record {
    statuses = [];
    rollup = some (record { state = text "SUCCESS"; check_runs = []; status_contexts = [] });
    via_web = false;
    parents = 1;
    committed = 100;
  };
}

abbrev args : Args
args = record {
  act = true;
  max_in_flight = 1;
  quiet = 1800;
  stale_after = 86400;
  needs_update = [];
}

abbrev refuses : Gh
refuses call = some (text "HTTP 422")

green_syncs : (judge green main 10000 1800 86400 false false).action ≡ sync
unfolding judge out_of_scope running text one_of behind checks tier unlabel_of
green_syncs = refl

judge-sync_example : ((judge green main 10000 1800 86400 false false).action ≡ sync) ↔ (
    InScope green main
    × (green.mergeable ≡ text "MERGEABLE")
    × (((running green ≡ true) × IsReplaceable green 10000 1800 false false)
        ⊎ ((running green ≡ false) × IsQuiet green 10000 1800 86400 false)))
judge-sync_example = judge-sync green main 10000 1800 86400 false false

judge-label_example :
    (((judge green main 10000 1800 86400 false false).label ≡ add) ↔ (
      (out_of_scope green main ≡ [])
      × (green.mergeable ≡ text "CONFLICTING")
      × (is_labelled green ≡ false)))
    × (((judge green main 10000 1800 86400 false false).label ≡ remove) ↔ (
        (out_of_scope green main ≡ [])
        × (is_labelled green ≡ true)
        × (green.mergeable ≡ text "MERGEABLE")))
judge-label_example = judge-label green main 10000 1800 86400 false false

plan_capped_example :
    let planned = plan (green ∷ []) main 10000 1 1800 86400 false false in
    (planned.in_flight ≡ length (select (λ pull. holds_slot pull 10000 1800) (green ∷ [])))
    × ((planned.in_flight + length (select needs_slot planned.lines) ≤ 1)
        ⊎ ((1 < planned.in_flight) × (length (select needs_slot planned.lines) ≡ 0)))
plan_capped_example = plan_capped (green ∷ []) main 10000 1 1800 86400 false false

-- A ready row and a stale one, with one slot
abbrev rows : List Line
rows =
    record {
      number = 1;
      action = sync;
      reason = text "stale";
      head = text "a";
      label = keep;
      ready = false;
      replaces = false;
    }
    ∷ record {
      number = 2;
      action = sync;
      reason = text "ready";
      head = text "b";
      label = keep;
      ready = true;
      replaces = false;
    }
    ∷ []

give_slots-ready_first_example : stale_candidates (give_slots rows 1) ≡ []
give_slots-ready_first_example = give_slots-ready_first rows 1 (omega arith)

sync_repo-code_example :
    let run = sync_repo refuses (text "o/r") args 10000 (ok (main, green ∷ [])) none in
    ((run.code ≡ 2) ↔ (
      (why : Text) × (◌≡◌ {A = Result Text (Text × List Pull)} (ok (main, green ∷ [])) (err why))))
    × ((run.code ≡ 1) ↔ (any (is_refused refuses) run.written.made ≡ true))
    × (args.act ≡ false → run.written.made ≡ [])
sync_repo-code_example = sync_repo-code refuses (text "o/r") args 10000 (ok (main, green ∷ [])) none

sync_repo-IsAllowed_example :
    All
      (IsAllowed (green ∷ []) main)
      (sync_repo refuses (text "o/r") args 10000 (ok (main, green ∷ [])) none).written.made
sync_repo-IsAllowed_example =
    sync_repo-IsAllowed refuses (text "o/r") args 10000 main (green ∷ []) none
