-- ===== src/HeadState/Detail.antt =====
-- dashboard/head_state.py, `remember_pull`, `stored_or_new`, `note_detail_time`: a pull request that a pass
-- has detailed, and one that it has missed.
pub mod Ready
use vibe_verifier.Base.{
  ℕ, Bool, true, false, not, ◌&&◌, ◌||◌, Option, none, some, List, [], ◌∷◌, ◌++◌, if◌then◌else◌,
  any, select,
}
use vibe_verifier.Base.Text.{Text, text, same}
use vibe_verifier.Base.Json.{Json, bool, str, Fields}
use vibe_verifier.Base.Json.Dict.{set, remove, at}
use vibe_verifier.HeadState.Pull.{Calendar, Head, is_same, of_text, show_stored}
use vibe_verifier.HeadState.Collect.{
  Key, same_key, find, find_at, store, Stored, Collector, same_option, add_key, keeps_last,
  head_key,
}

-- `head.get("sha") == pull.get("head_sha")`
abbrev pub is_known : Option Head → Fields → Bool
is_known none pull = false
is_known (some head) pull = is_same (at "head_sha" pull) (some head.sha)

abbrev pub rollup_of : Option Head → Option Text
rollup_of none = none
rollup_of (some head) = head.rollup

abbrev pub or_success : Option Text → Bool
or_success none = true
or_success (some rollup) = same rollup (text "SUCCESS")

-- The pull request as it is kept: not ready where the rollup of its head is not a success
unfoldable pub detailed : Calendar → Option Head → Fields → ℕ → Fields
unfolding set remove at text
detailed calendar head pull now =
    let known = is_known head pull in
    let rollup = if known then rollup_of head else none in
    let judged =
      if known && not (or_success rollup) then set "merge_ready" (bool false) pull else pull in
    let fresh =
      remove "checks_age_seconds"
        (set "stale" (bool false) (set "checks_sampled_at" (str (calendar.write now)) judged)) in
    set "rollup_known" (bool known) (set "rollup" (of_text rollup) fresh)

abbrev pub discard : Key → List Key → List Key
discard key keys = select (λ k. not (same_key key k)) keys

-- What the collector keeps of it
abbrev pub remembered : Collector → Key → Option Head → Fields → Fields → Collector
remembered collector key head pull kept = record {
  heads = collector.heads;
  complete = collector.complete;
  detail =
      store key
        (record {
          head_sha = at "head_sha" pull;
          rollup = if is_known head pull then rollup_of head else none;
          rollup_known = is_known head pull;
          pull = kept;
        })
        collector.detail;
  urgent = discard key collector.urgent;
  read_now = add_key key collector.read_now;
  detailed_at = collector.detailed_at;
}

-- `remember_pull`; the pull request is changed in place.
unfoldable pub remember_pull : Calendar → Collector → Option Key → Fields → ℕ → Collector × Fields
unfolding detailed at
remember_pull calendar collector none pull now = (collector, detailed calendar none pull now)
remember_pull calendar collector (some key) pull now =
    let head = find key collector.heads in
    let kept = detailed calendar head pull now in (remembered collector key head pull kept, kept)

abbrev pub lookup_time : Text → List (Text × ℕ) → Option ℕ
lookup_time name [] = none
lookup_time name ((other, t) ∷ more) =
    let rest = lookup_time name more in if same name other then some t else rest

abbrev pub forget : Text → List (Text × ℕ) → List (Text × ℕ)
forget name = select (λ entry. not (same name entry.0))

module _ (calendar : Calendar) (casefold : Text → Text) where
  -- `stored_or_new`
  unfoldable pub stored_or_new : Collector → Text → Fields → Text → Fields → ℕ → Fields
  unfolding head_key keeps_last show_stored at
  stored_or_new collector repository row code blank now =
      let key = head_key casefold (str repository) (at "number" row) in
      elim (if keeps_last code then find_at key collector.detail else none) [
        | none ↦ blank
        | some stored ↦ show_stored calendar stored.pull (find_at key collector.heads) now
      ]

  -- `note_detail_time`
  unfoldable pub note_detail_time : Collector → Text → List Fields → ℕ → Collector
  unfolding head_key at
  note_detail_time collector repository pulls now =
      let exhausted =
        any (λ pull. is_same (at "source_error" pull) (some (text "request_budget_exhausted")))
          pulls in
      let was_read =
        any
          (λ pull. elim (head_key casefold (str repository) (at "number" pull)) as (λ _. Bool) [
            | none ↦ false
            | some key ↦ any (same_key key) collector.read_now
          ])
          pulls in
      let others = forget repository collector.detailed_at in
      if exhausted
      then record collector { detailed_at = others }
      else if was_read
      then record collector { detailed_at = others ++ (repository, now) ∷ [] }
      else collector
