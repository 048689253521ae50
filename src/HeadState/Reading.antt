-- ===== src/HeadState/Reading.antt =====
-- dashboard/head_state.py, `apply_head_reading`: the heads of one search on the snapshot that is shown.
pub mod Numbers
pub mod Open
pub mod Refined
pub mod Shown
use vibe_verifier.Base.{
  ℕ, ◌-◌, ◌/◌, String, Bool, true, false, not, ◌&&◌, ◌||◌, Option, none, some, List, [], ◌∷◌, ◌++◌,
  if◌then◌else◌, any, is_empty, ltb, select, take, leb, length,
}
use vibe_verifier.Base.Text.{Text, text, same, split}
use vibe_verifier.Base.Json.{
  Json, null, bool, int, negsuc, str, arr, obj, Items, nil, Fields, end, field, truthy,
}
use vibe_verifier.Base.Json.Dict.{at, set}
use vibe_verifier.HeadState.Pull.{
  Calendar, Head, Repository, second, is_text, is_same, of_text, parse_time, stamp_behind,
  reconcile_pull, beat_seconds,
}
use vibe_verifier.HeadState.Collect.{
  Key, Number, from, below, same_key, find, find_at, add_key, head_key,
}
use vibe_verifier.HeadState.Unseen.{Texts, unseen_pull, owner_of}
use vibe_verifier.HeadState.Search.{calls_per_hour}

-- What a snapshot has of a reading of the heads
pub record HeadReading : Type 0 where
  pub sampled_at : ℕ
  pub calls : ℕ
  pub points : ℕ
  pub calls_per_hour : ℕ
  pub points_per_hour : ℕ

pub record Snapshot : Type 0 where
  pub owner : Json
  pub repositories : List Repository
  pub head_reading : Option HeadReading

abbrev pub stamp_under : Option Head → Fields → Fields
stamp_under none pull = pull
stamp_under (some head) pull = stamp_behind pull head

abbrev pub with_pulls : Repository → List Json → Repository
with_pulls row pulls = record {
  repository = row.repository;
  subscription = row.subscription;
  stale = row.stale;
  pulls = pulls;
}

abbrev pub is_key : Key → Option Key → Bool
is_key key none = false
is_key key (some k) = same_key key k

module _ (texts : Texts) (calendar : Calendar) where
  abbrev pub key_of : Json → Fields → Option Key
  key_of repository pull = head_key texts.casefold repository (at "number" pull)

  -- A pull request under the head that the search found of it
  abbrev pub read_pull : List (Key × Head) → Json → Fields → ℕ → Fields
  read_pull heads repository pull now =
      let head = find_at (key_of repository pull) heads in
      stamp_under head (reconcile_pull calendar pull head now)

  -- `_open_pulls`: those that are still open
  unfoldable pub open_pulls : List (Key × Head) → Json → ℕ → List Json → List Json
  unfolding reconcile_pull head_key at set
  open_pulls heads repository now [] = []
  open_pulls heads repository now (obj pull ∷ pulls) =
      let rest = open_pulls heads repository now pulls in
      elim (find_at (key_of repository pull) heads) [
        | none ↦ rest
        | some head ↦ obj (read_pull heads repository pull now) ∷ rest
      ]
  open_pulls heads repository now (v ∷ pulls) = open_pulls heads repository now pulls

  -- All of them, where the search is not complete
  unfoldable pub all_pulls : List (Key × Head) → Json → ℕ → List Json → List Json
  unfolding reconcile_pull head_key at set
  all_pulls heads repository now [] = []
  all_pulls heads repository now (obj pull ∷ pulls) =
      obj (read_pull heads repository pull now) ∷ all_pulls heads repository now pulls
  all_pulls heads repository now (v ∷ pulls) = all_pulls heads repository now pulls

  abbrev pub read_rows : Bool → List (Key × Head) → ℕ → List Repository → List Repository
  read_rows complete heads now [] = []
  read_rows complete heads now (row ∷ rows) =
      with_pulls row (
        if complete
        then open_pulls heads row.repository now row.pulls
        else all_pulls heads row.repository now row.pulls)
      ∷ read_rows complete heads now rows

  -- The key of a pull request of the row
  abbrev pub shows_pull : Key → Json → Json → Bool
  shows_pull key repository (obj pull) = is_key key (key_of repository pull)
  shows_pull key repository v = false

  -- `key in seen`
  abbrev pub shows : Key → List Repository → Bool
  shows key rows = any (λ row. any (shows_pull key row.repository) row.pulls) rows

  abbrev pub is_named : Text → Json → Bool
  is_named folded (str s) = same (texts.casefold s) folded
  is_named folded v = false

  -- `_repository_row`, and the pull request in it
  unfoldable pub add_pull : Text → (Json → Fields) → List Repository → List Repository
  unfolding text
  add_pull repository pull [] =
      record {
        repository = str repository;
        subscription = str (text "unknown");
        stale = true;
        pulls = obj (pull (str (text "unknown"))) ∷ [];
      }
      ∷ []
  add_pull repository pull (row ∷ rows) =
      let rest = add_pull repository pull rows in
      if is_named (texts.casefold repository) row.repository
      then with_pulls row (row.pulls ++ obj (pull row.subscription) ∷ []) ∷ rows
      else row ∷ rest

  -- `_add_unseen`; `seen` tells the keys that the rows had.
  unfoldable pub add_unseen :
      (Key → Bool) → Text → ℕ → List (Key × Head) → List Repository → List Repository
  unfolding add_pull unseen_pull
  add_unseen seen owner now [] rows = rows
  add_unseen seen owner now ((key, head) ∷ heads) rows =
      let pull = λ (subscription : Json).
        unseen_pull texts calendar head.repository key.number head now subscription owner in
      add_unseen seen owner now heads
        (if seen key then rows else add_pull head.repository pull rows)

  -- `apply_head_reading`
  unfoldable pub apply_head_reading : Snapshot → List (Key × Head) → ℕ → ℕ → ℕ → Bool → Snapshot
  unfolding open_pulls all_pulls add_unseen
  apply_head_reading github heads now calls points complete =
      let rows = read_rows complete heads now github.repositories in
      let seen = λ (key : Key). shows key rows in
      record {
        owner = github.owner;
        repositories =
            if complete then add_unseen seen (owner_of github.owner) now heads rows else rows;
        head_reading = some (record {
          sampled_at = now;
          calls = calls;
          points = points;
          calls_per_hour = calls_per_hour calls;
          points_per_hour = calls_per_hour points;
        });
      }
