-- ===== src/Tests/HeadState.antt =====
-- The theorems on the heads of the pull requests at concrete inputs (dashboard/head_state.py).
use vibe_verifier.Base.{
  ℕ, ◌+◌, ◌*◌, ◌≤◌, ◌≡◌, refl, ◌↔◌, Bool, true, false, Option, none, some, List, [], ◌∷◌, ok, All,
  length, select,
}
use vibe_verifier.Base.Text.{Text, text}
use vibe_verifier.Base.Json.{null, bool, int, str, arr, obj, nil, cons, Fields, end, field}
use vibe_verifier.HeadState.Pull.{Calendar, Head, beat_seconds, second, withhold_if_old}
use vibe_verifier.HeadState.Pull.Fresh.{is_ready}
use vibe_verifier.HeadState.Collect.{Key, from, find, find_at, Collector, Queued, queue_pulls}
use vibe_verifier.HeadState.Collect.Keys.{is_some}
use vibe_verifier.HeadState.Collect.Kinds.{KindFits}
use vibe_verifier.HeadState.Collect.Order.{Ordered, count_rows, queue_pulls-Ordered}
use vibe_verifier.HeadState.Detail.{remember_pull}
use vibe_verifier.HeadState.Detail.Ready.{IsSuccess, remember_pull-ready}
use vibe_verifier.HeadState.Search.{Answers}
use vibe_verifier.HeadState.Unseen.{Texts}
use vibe_verifier.HeadState.Reading.{Snapshot, shows, apply_head_reading}
use vibe_verifier.HeadState.Reading.Open.{NoneReady, apply_head_reading-unready}
use vibe_verifier.HeadState.Reading.Refined.{apply_head_reading-shows_found}

-- Each time is written as one character.
abbrev parse_one : Text → Option ℕ
parse_one (t ∷ []) = some t
parse_one s = none

abbrev calendar : Calendar
calendar = record { parse = parse_one; write = λ t. t ∷ [] }

abbrev as_written : Text → Text
as_written s = s

abbrev green : Head
green = record {
  sha = text "a1";
  behind_by = some 0;
  default_branch = some (text "main");
  rollup = some (text "SUCCESS");
  merge_state = null;
  mergeable = null;
  review = null;
  repository = text "acme/site";
  title = null;
  author = null;
  draft = false;
  url = null;
  created_at = null;
}

abbrev first_key : Key
first_key = record { repository = text "acme/site"; number = from 1 }

abbrev second_key : Key
second_key = record { repository = text "acme/site"; number = from 2 }

abbrev ready_pull : Fields
ready_pull =
    field "number" (int 1)
      (field "head_sha" (str (text "a1")) (field "merge_ready" (bool true) end))

abbrev two_heads : List (Key × Head)
two_heads = (first_key, green) ∷ (second_key, green) ∷ []

abbrev collector : Collector
collector = record {
  heads = two_heads;
  complete = true;
  detail =
      (
        first_key,
        record {
          head_sha = str (text "a1");
          rollup = some (text "SUCCESS");
          rollup_known = true;
          pull = ready_pull;
        },
      )
      ∷ [];
  urgent = [];
  read_now = [];
  detailed_at = [];
}

remember_pull-ready_example :
    (is_ready (
        withhold_if_old calendar
          (remember_pull calendar collector (some first_key) ready_pull 5).1
          7
          false)
      ≡ true)
    ↔ ((is_ready ready_pull ≡ true)
        × IsSuccess (find_at (some first_key) collector.heads) ready_pull
        × (5 ≤ 7)
        × (7 ≤ 5 + beat_seconds * second))
remember_pull-ready_example =
    remember_pull-ready calendar (λ t. refl) collector (some first_key) ready_pull 5 7

abbrev listings : List (Text × List Fields)
listings = (text "acme/site", ready_pull ∷ field "number" (int 2) end ∷ []) ∷ []

queue_pulls-Ordered_example :
    Ordered (queue_pulls as_written collector [] listings)
    × ((p : Text → Fields → Bool)
        → length (
            select
              (λ (item : Queued). p item.repository item.row)
              (queue_pulls as_written collector [] listings))
          ≡ count_rows p listings)
    × All (KindFits as_written collector) (queue_pulls as_written collector [] listings)
queue_pulls-Ordered_example = queue_pulls-Ordered as_written collector [] listings

-- One page with one pull request
abbrev one_page : Answers
one_page call query = ok (
    obj (
      field "data"
        (obj (
          field "search"
            (obj (
              field "nodes"
                (arr (
                  cons
                    (obj (
                      field "number" (int 1) (
                        field "headRefOid" (str (text "a1")) (
                          field "repository"
                            (obj (field "nameWithOwner" (str (text "acme/site")) end)) end))))
                    nil))
                end))
            end))
        end))

abbrev texts : Texts
texts = record {
  casefold = as_written;
  lower = as_written;
  shown = λ v. [];
  urlparse = λ s. record { scheme = []; netloc = []; path = s; has_user = false };
}

abbrev github : Snapshot
github = record {
  owner = str (text "acme");
  repositories =
      record {
        repository = str (text "acme/site");
        subscription = null;
        stale = false;
        pulls = obj ready_pull ∷ obj (field "number" (int 9) end) ∷ [];
      }
      ∷ [];
  head_reading = none;
}

apply_head_reading-unready_example :
    NoneReady (apply_head_reading texts calendar github two_heads 9 1 1 true).repositories
apply_head_reading-unready_example =
    apply_head_reading-unready texts calendar github two_heads 9 1 1 true

apply_head_reading-shows_found_example :
    shows texts calendar second_key
      (apply_head_reading texts calendar github two_heads 9 1 1 true).repositories
    ≡ is_some (find second_key two_heads)
apply_head_reading-shows_found_example =
    apply_head_reading-shows_found texts calendar github two_heads 9 1 1 (refl, (refl, tt))
      second_key
