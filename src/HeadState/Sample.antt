-- ===== src/HeadState/Sample.antt =====
-- dashboard/head_state.py, when the heads are read and by which owner: `heads_due`, `known_kind`,
-- `sample_heads`, `reading_from`.
use vibe_verifier.Base.{
  ℕ, zero, suc, ◌+◌, ◌*◌, Bool, true, false, ◌||◌, Option, none, some, List, [], Result, ok, err,
  if◌then◌else◌, leb,
}
use vibe_verifier.Base.Text.{Text, text, same}
use vibe_verifier.Base.Json.{Json, str, obj, truthy}
use vibe_verifier.Base.Json.Dict.{at}
use vibe_verifier.HeadState.Pull.{
  Calendar, Head, second, beat_seconds, head_period_seconds, parse_time,
}
use vibe_verifier.HeadState.Collect.{Key, Collector, mark_urgent}
use vibe_verifier.HeadState.Search.{member, cost, Answers, load_heads}

-- `heads_due`, of the time that the snapshot says its heads were sampled at; `since_refresh` is in
-- microseconds too.
unfoldable pub heads_due : Calendar → Json → ℕ → ℕ → Bool
unfolding parse_time
heads_due calendar sampled_at now since_refresh = elim (parse_time calendar sampled_at) [
  | none ↦ leb (beat_seconds * second) since_refresh
  | some sampled ↦ leb (sampled + head_period_seconds * second) now
]

abbrev pub is_kind : Text → Bool
is_kind kind = same kind (text "User") || same kind (text "Organization")

abbrev pub kind_of : Json → Option Text
kind_of (str kind) = if is_kind kind then some kind else none
kind_of v = none

-- `owner_kind`
unfoldable pub owner_kind : Json → Option Text
unfolding at truthy text
owner_kind (obj payload) =
    if truthy (at "errors" payload)
    then none
    else kind_of (member "__typename" (member "repositoryOwner" (at "data" payload)))
owner_kind v = none

-- What the question for the owner's kind costs, and the kind
pub record Kind : Type 0 where
  pub points : ℕ
  pub outcome : Result Text Text

-- `known_kind`: the kind that is remembered, or else GitHub's answer
unfoldable pub known_kind : Option Text → Result Text Json → Kind
unfolding owner_kind cost text
known_kind remembered answer =
    let asked : Kind = elim answer [
      | err code ↦ record { points = 0; outcome = err code }
      | ok payload ↦ record {
        points = cost (member "data" payload);
        outcome = elim (owner_kind payload) [
          | none ↦ err (text "invalid_response")
          | some kind ↦ ok kind
        ];
      }
    ] in
    elim remembered [
      | none ↦ asked
      | some kind ↦ if is_kind kind then record { points = 0; outcome = ok kind } else asked
    ]

abbrev pub with_heads : Collector → List (Key × Head) → Bool → Collector
with_heads collector heads complete = record {
  heads = heads;
  complete = complete;
  detail = collector.detail;
  urgent = collector.urgent;
  read_now = collector.read_now;
  detailed_at = collector.detailed_at;
}

-- The collector behind a sample, and the code of the error that ended it; the heads are empty then.
module _ (casefold : Text → Text) (answers : Answers) (owner : Text) where
  -- `sample_heads`; `remembered` and `answer` are those of `known_kind`.
  unfoldable pub sample_heads :
      Collector → Option Text → Result Text Json → ℕ → Collector × Result Text Bool
  unfolding known_kind load_heads mark_urgent
  sample_heads collector remembered answer zero = (with_heads collector [] true, ok true)
  sample_heads collector remembered answer (suc n) =
      elim (known_kind remembered answer).outcome as (λ _. Collector × Result Text Bool) [
        | err code ↦ (with_heads collector [] false, err code)
        | ok kind ↦
            elim (load_heads casefold answers owner kind (suc n)).outcome
              as (λ _. Collector × Result Text Bool) [
                | err code ↦ (with_heads collector [] false, err code)
                | ok (heads, complete) ↦
                    (mark_urgent (with_heads collector heads complete) heads, ok complete)
              ]
      ]
