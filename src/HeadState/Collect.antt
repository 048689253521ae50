-- ===== src/HeadState/Collect.antt =====
-- dashboard/head_state.py, what the collector keeps of the heads and the detailed pull requests:
-- `mark_urgent`, `queue_pulls`, `remember_pull`, `stored_or_new`, `note_detail_time`.
pub mod Keys
pub mod Kinds
pub mod Order
use vibe_verifier.Base.{
  ℕ, String, ◌+◌, ◌-◌, Bool, true, false, not, ◌&&◌, ◌||◌, Option, none, some, List, [], ◌∷◌, ◌++◌,
  if◌then◌else◌, any, leb, ltb, eqb, select,
}
use vibe_verifier.Base.Text.{Text, text, same}
use vibe_verifier.Base.Json.{Json, null, bool, int, negsuc, str, Fields}
use vibe_verifier.Base.Json.Dict.{set, remove, at}
use vibe_verifier.HeadState.Pull.{Calendar, Head, is_same, of_text, show_stored}

-- An integer; `below n` is -(n + 1).
pub data Number : Type 0 where
  from : ℕ → Number
  below : ℕ → Number

abbrev pub same_number : Number → Number → Bool
same_number (from n) (from m) = eqb n m
same_number (below n) (below m) = eqb n m
same_number _ _ = false

abbrev pub less : Number → Number → Bool
less (from n) (from m) = ltb n m
less (from n) (below m) = false
less (below n) (from m) = true
less (below n) (below m) = ltb m n

pub record Key : Type 0 where
  pub repository : Text
  pub number : Number

abbrev pub same_key : Key → Key → Bool
same_key k j = same k.repository j.repository && same_number k.number j.number

-- A dict with such keys
module _ {A : Type 0} where
  abbrev pub find : Key → List (Key × A) → Option A
  find key [] = none
  find key ((k, a) ∷ more) = let rest = find key more in if same_key key k then some a else rest

  abbrev pub store : Key → A → List (Key × A) → List (Key × A)
  store key a [] = (key, a) ∷ []
  store key a ((k, b) ∷ more) =
      let rest = store key a more in if same_key key k then (k, a) ∷ more else (k, b) ∷ rest

  abbrev pub find_at : Option Key → List (Key × A) → Option A
  find_at none found = none
  find_at (some key) found = find key found

-- What is stored of a pull request that was detailed
pub record Stored : Type 0 where
  pub head_sha : Json
  pub rollup : Option Text
  pub rollup_known : Bool
  pub pull : Fields

pub record Collector : Type 0 where
  pub heads : List (Key × Head)
  pub complete : Bool
  pub detail : List (Key × Stored)
  pub urgent : List Key
  pub read_now : List Key
  pub detailed_at : List (Text × ℕ)

abbrev pub same_option : Option Text → Option Text → Bool
same_option none none = true
same_option (some s) (some t) = same s t
same_option _ _ = false

-- `same_head`
unfoldable pub same_head : Option Stored → Option Head → Bool
same_head (some stored) (some head) =
    stored.rollup_known
    && is_same stored.head_sha (some head.sha)
    && same_option stored.rollup head.rollup
same_head _ _ = false

pub data Kind : Type 0 where
  changed : Kind
  new : Kind
  kept : Kind

-- `_KINDS`
abbrev pub code : Kind → ℕ
code changed = 0
code new = 1
code kept = 2

-- `classify`
unfoldable pub classify : Option Stored → Option Head → Kind
unfolding same_head
classify none head = new
classify (some stored) head = if same_head (some stored) head then kept else changed

abbrev pub add_key : Key → List Key → List Key
add_key key keys = if any (same_key key) keys then keys else keys ++ key ∷ []

-- `mark_urgent`, over the details
unfoldable pub mark : List (Key × Stored) → List (Key × Head) → List Key → List Key
unfolding same_head
mark [] heads urgent = urgent
mark ((key, stored) ∷ more) heads urgent =
    mark more heads
      (if same_head (some stored) (find key heads) then urgent else add_key key urgent)

unfoldable pub mark_urgent : Collector → List (Key × Head) → Collector
unfolding mark
mark_urgent collector heads = record collector {
  urgent = mark collector.detail heads collector.urgent;
}

-- `isinstance(number, int)`, of which True is one
abbrev pub number_of : Json → Number
number_of (int n) = from n
number_of (negsuc n) = below n
number_of (bool true) = from 1
number_of v = from 0

pub record Queued : Type 0 where
  pub kind : Kind
  pub rank : ℕ
  pub number : Number
  pub repository : Text
  pub row : Fields
  pub key : Option Key

-- `item[:3]` of one before that of another
abbrev pub comes_before : Queued → Queued → Bool
comes_before a b =
    ltb (code a.kind) (code b.kind)
    || eqb (code a.kind) (code b.kind)
      && (ltb a.rank b.rank || eqb a.rank b.rank && less a.number b.number)

-- `queued.sort`, which leaves equal items in their order
unfoldable pub place : Queued → List Queued → List Queued
place item [] = item ∷ []
place item (other ∷ more) =
    let rest = place item more in
    if comes_before other item then other ∷ rest else item ∷ other ∷ more

unfoldable pub sort_queued : List Queued → List Queued
unfolding place
sort_queued [] = []
sort_queued (item ∷ items) = place item (sort_queued items)

abbrev pub rank_of : Text → List (Text × ℕ) → ℕ
rank_of name [] = 0
rank_of name ((other, n) ∷ more) =
    let rest = rank_of name more in if same name other then n else rest

-- The codes of the misses that keep the last checks: `_KEEP_LAST`
unfoldable pub keeps_last : Text → Bool
unfolding text
keeps_last code = any (same code) (
    text "request_budget_exhausted"
    ∷ text "rate_limited"
    ∷ text "unavailable"
    ∷ text "invalid_response"
    ∷ [])

-- `casefold` is Unicode's folding of a text.
module _ (casefold : Text → Text) where
  -- `head_key`
  unfoldable pub head_key : Json → Json → Option Key
  head_key (str s) (int n) = some (record { repository = casefold s; number = from n })
  head_key (str s) (negsuc n) = some (record { repository = casefold s; number = below n })
  head_key _ _ = none

  -- One row of a listing, with its kind
  abbrev pub queue_row : Collector → List (Text × ℕ) → Text → Fields → Queued
  queue_row collector rank repository row =
      let key = head_key (str repository) (at "number" row) in
      let is_urgent : Bool = elim key [
        | none ↦ false
        | some k ↦ any (same_key k) collector.urgent
      ] in
      record {
        kind =
            if is_urgent
            then changed
            else classify (find_at key collector.detail) (find_at key collector.heads);
        rank = rank_of repository rank;
        number = number_of (at "number" row);
        repository = repository;
        row = row;
        key = key;
      }

  abbrev pub queue_rows : Collector → List (Text × ℕ) → Text → List Fields → List Queued
  queue_rows collector rank repository [] = []
  queue_rows collector rank repository (row ∷ rows) =
      queue_row collector rank repository row ∷ queue_rows collector rank repository rows

  -- The rows of every listing, as they come
  unfoldable pub listed : Collector → List (Text × ℕ) → List (Text × List Fields) → List Queued
  unfolding head_key classify
  listed collector rank [] = []
  listed collector rank ((repository, rows) ∷ listings) =
      queue_rows collector rank repository rows ++ listed collector rank listings

  -- `queue_pulls`
  unfoldable pub queue_pulls : Collector → List (Text × ℕ) → List (Text × List Fields) → List Queued
  unfolding sort_queued listed
  queue_pulls collector rank listings = sort_queued (listed collector rank listings)
