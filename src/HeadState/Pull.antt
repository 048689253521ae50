-- ===== src/HeadState/Pull.antt =====
-- dashboard/head_state.py, what a pull request's last checks may say: `withheld`, `behind`, `show_stored`,
-- `reconcile_pull`, `withhold_if_old`. A time is counted in microseconds; a pull request is a dict.
pub mod Fresh
use vibe_verifier.Base.{
  ℕ, ◌+◌, ◌-◌, ◌*◌, ◌/◌, Bool, true, false, not, ◌&&◌, ◌||◌, Option, none, some, List, [], ◌∷◌,
  if◌then◌else◌, leb, ltb, map,
}
use vibe_verifier.Base.Text.{Text, text, same}
use vibe_verifier.Base.Json.{Json, null, bool, int, str, obj, Fields, truthy}
use vibe_verifier.Base.Json.Dict.{set, at, present}

-- `datetime`'s reading and writing of the ISO format, in UTC
pub record Calendar : Type 0 where
  pub parse : Text → Option ℕ
  pub write : ℕ → Text

-- What the search gives of a head: `_one_head`
pub record Head : Type 0 where
  pub sha : Text
  pub behind_by : Option ℕ
  pub default_branch : Option Text
  pub rollup : Option Text
  pub merge_state : Json
  pub mergeable : Json
  pub review : Json
  pub repository : Text
  pub title : Json
  pub author : Json
  pub draft : Bool
  pub url : Json
  pub created_at : Json

abbrev pub second : ℕ
second = 1000000

-- `BEAT_SECONDS`, `FRESH_SECONDS`
abbrev pub beat_seconds : ℕ
beat_seconds = 180

abbrev pub head_period_seconds : ℕ
head_period_seconds = 150

abbrev pub is_text : Json → Bool
is_text (str s) = true
is_text _ = false

-- `v == s`, for a text or None
abbrev pub is_same : Json → Option Text → Bool
is_same null none = true
is_same (str s) (some t) = same s t
is_same _ _ = false

abbrev pub is_true : Json → Bool
is_true (bool b) = b
is_true _ = false

abbrev pub of_text : Option Text → Json
of_text none = null
of_text (some s) = str s

-- `util.parse_time`
unfoldable pub parse_time : Calendar → Json → Option ℕ
parse_time calendar (str s) = calendar.parse s
parse_time calendar v = none

unfoldable pub previous_push : Text
previous_push = text "Checks shown are from the previous push. Newer checks are loading."

unfoldable pub before_change : Text
before_change =
    text "Checks shown are from before the check state changed. Newer checks are loading."

-- `head_differs`
unfoldable pub head_differs : Fields → Head → Bool
unfolding at
head_differs pull head =
    is_text (at "head_sha" pull) && not (is_same (at "head_sha" pull) (some head.sha))
    || is_true (at "rollup_known" pull) && not (is_same (at "rollup" pull) head.rollup)

-- `behind.stamp_behind`
abbrev pub stamp_behind : Fields → Head → Fields
stamp_behind pull head =
    set "default_branch" (of_text head.default_branch)
      (set "behind_by" (elim head.behind_by [ none ↦ null | some n ↦ int n ]) pull)

-- `"merge_ready" not in pull and "checks_sampled_at" not in pull`
abbrev pub has_reading : Fields → Bool
has_reading pull = present "merge_ready" pull || present "checks_sampled_at" pull

-- A row of the snapshot, with what the reading uses of it
pub record Repository : Type 0 where
  pub repository : Json
  pub subscription : Json
  pub stale : Bool
  pub pulls : List Json

-- Not ready and stale
unfoldable pub aged_of : Fields → Fields
unfolding set
aged_of pull = set "stale" (bool true) (set "merge_ready" (bool false) pull)

-- How many whole seconds ago the checks were read
unfoldable pub with_age : ℕ → ℕ → Fields → Fields
unfolding set
with_age sampled now pull = set "checks_age_seconds" (int ((now - sampled) / second)) pull

unfoldable pub by_age : Option ℕ → Fields → ℕ → Bool → Fields
unfolding aged_of with_age at truthy
by_age none pull now repo_stale = if truthy (at "merge_ready" pull) then aged_of pull else pull
by_age (some sampled) pull now repo_stale =
    if leb sampled now
      && leb (now - sampled) (beat_seconds * second)
      && not (truthy (at "stale" pull))
      && not repo_stale
    then pull
    else if ltb (beat_seconds * second) (now - sampled)
    then with_age sampled now (aged_of pull)
    else aged_of pull

abbrev pub may_be_green : Fields → Bool
may_be_green pull =
    truthy (at "merge_ready" pull)
    || truthy (at "checks_sampled_at" pull)
    || truthy (at "stale" pull)

module _ (calendar : Calendar) where
  -- `withheld`
  unfoldable pub withheld : Fields → ℕ → Fields
  unfolding aged_of with_age at parse_time
  withheld pull now = elim (parse_time calendar (at "checks_sampled_at" pull)) [
    | none ↦ aged_of pull
    | some sampled ↦ with_age sampled now (aged_of pull)
  ]

  -- `behind`
  unfoldable pub behind : Fields → Head → ℕ → Fields
  unfolding withheld set at previous_push before_change
  behind pull head now =
      let aged = withheld pull now in
      let moved =
        is_text (at "head_sha" aged) && not (is_same (at "head_sha" aged) (some head.sha)) in
      set "head_changed" (bool moved) (
        set "attention_reason" (str (if moved then previous_push else before_change))
          (set "attention" (bool true) aged))

  -- `show_stored`, of the pull request that is stored
  unfoldable pub show_stored : Fields → Option Head → ℕ → Fields
  unfolding withheld behind head_differs
  show_stored pull none now = withheld pull now
  show_stored pull (some head) now =
      if head_differs pull head then behind pull head now else withheld pull now

  -- `reconcile_pull`
  unfoldable pub reconcile_pull : Fields → Option Head → ℕ → Fields
  unfolding show_stored head_differs behind withheld at present
  reconcile_pull pull head now =
      let shown = show_stored pull head now in
      let differs : Bool = elim head [ none ↦ false | some h ↦ head_differs pull h ] in
      if not (has_reading pull) then pull else if differs || may_be_green pull then shown else pull

  -- `withhold_if_old`
  unfoldable pub withhold_if_old : Fields → ℕ → Bool → Fields
  unfolding by_age at parse_time present
  withhold_if_old pull now repo_stale =
      let judged = by_age (parse_time calendar (at "checks_sampled_at" pull)) pull now repo_stale in
      if has_reading pull then judged else pull

  abbrev pub withhold_row : ℕ → Bool → Json → Json
  withhold_row now repo_stale (obj pull) = obj (withhold_if_old pull now repo_stale)
  withhold_row now repo_stale v = v

  -- `withhold_stale_pulls`
  unfoldable pub withhold_stale_pulls : List Repository → ℕ → List Repository
  unfolding withhold_if_old
  withhold_stale_pulls [] now = []
  withhold_stale_pulls (row ∷ rows) now =
      record {
        repository = row.repository;
        subscription = row.subscription;
        stale = row.stale;
        pulls = map (withhold_row now row.stale) row.pulls;
      }
      ∷ withhold_stale_pulls rows now
