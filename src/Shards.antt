-- ===== src/Shards.antt =====
-- bin/cli/qae_shards.py: how many walks a pull request's criteria are, and how they are shared across
-- explorers that run in parallel.
pub mod Groups
pub mod Found
pub mod Chained
pub mod Partition
pub mod Turns
pub mod Whole
use Prim.Native.Nat.{max, min}
use vibe_verifier.Base.{
  ℕ, zero, suc, ◌+◌, ◌-◌, ◌*◌, ◌/◌, Bool, true, false, not, ◌&&◌, ◌||◌, Option, none, some, List,
  [], ◌∷◌, ◌++◌, map, if◌then◌else◌, any, select, is_empty, ltb, leb, eqb, length,
}
use vibe_verifier.Base.Text.{Text, same}

-- A criterion: its id, the roles that `annotations` reads of its wording, and the ids of the criteria
-- that `named_criteria` finds there.
pub record Item : Type 0 where
  pub id : Text
  pub roles : List Text
  pub named : List Text

-- `criterion_walks`
unfoldable pub criterion_walks : Item → ℕ → ℕ
criterion_walks item widths = max 1 (length item.roles) * max 1 widths

-- `chain_walks`
unfoldable pub chain_walks : List Item → ℕ → ℕ
unfolding criterion_walks
chain_walks [] widths = 0
chain_walks (item ∷ chain) widths = criterion_walks item widths + chain_walks chain widths

-- `rewalk_walks`: three states of a feature are one walk.
unfoldable pub rewalk_walks : ℕ → ℕ → ℕ
rewalk_walks features states = features * ((states + 2) / 3)

-- `explorer_turns`
unfoldable pub explorer_turns : List Item → ℕ → ℕ → ℕ → ℕ × ℕ
unfolding chain_walks rewalk_walks
explorer_turns items widths features states =
    let walks = chain_walks items widths + rewalk_walks features states in
    (walks, min 240 (max 80 (40 + 30 * walks)))

-- `SHARD_WALKS`
abbrev pub shard_walks : ℕ
shard_walks = (240 - 40) / 30

-- The dict `group`: the group number of each id
abbrev pub Groups : Type 0
Groups = List (Text × ℕ)

-- `group[key] = number`
abbrev pub set_group : Text → ℕ → Groups → Groups
set_group key number [] = (key, number) ∷ []
set_group key number ((k, n) ∷ groups) =
    let rest = set_group key number groups in
    if same k key then (k, number) ∷ groups else (k, n) ∷ rest

abbrev pub group_of : Text → Groups → Option ℕ
group_of key [] = none
group_of key ((k, n) ∷ groups) =
    let rest = group_of key groups in if same k key then some n else rest

-- `{item: index for index, (item, _) in enumerate(items)}`
unfoldable pub numbered : ℕ → List Item → Groups → Groups
numbered index [] groups = groups
numbered index (item ∷ items) groups = numbered (suc index) items (set_group item.id index groups)

abbrev pub relabel : ℕ → ℕ → Groups → Groups
relabel joined into [] = []
relabel joined into ((k, n) ∷ groups) =
    (k, (if eqb n joined then into else n)) ∷ relabel joined into groups

-- The test and the body of the inner loop, `joined_groups` included
unfoldable pub join_named : Text → Text → Groups → Groups
join_named item other groups = elim (group_of other groups) [
  | none ↦ groups
  | some a ↦ elim (group_of item groups) [
    | none ↦ groups
    | some b ↦ if eqb a b then groups else relabel (max a b) (min a b) groups
  ]
]

abbrev pub join_all : Text → List Text → Groups → Groups
join_all item [] groups = groups
join_all item (other ∷ others) groups = join_all item others (join_named item other groups)

-- The loop over the criteria
unfoldable pub joined : List Item → Groups → Groups
unfolding join_named
joined [] groups = groups
joined (item ∷ items) groups = joined items (join_all item.id item.named groups)

abbrev pub is_in_group : Groups → ℕ → Item → Bool
is_in_group groups number item = elim (group_of item.id groups) [
  | none ↦ false
  | some n ↦ eqb n number
]

-- The non-empty groups from a number on, in the order of their numbers
unfoldable pub chains_from : Groups → List Item → ℕ → ℕ → List (List Item)
chains_from groups items number zero = []
chains_from groups items number (suc left) =
    let rest = chains_from groups items (suc number) left in
    let chain = select (is_in_group groups number) items in
    if is_empty chain then rest else chain ∷ rest

-- `criterion_chains`; every group number is a position in the list.
unfoldable pub criterion_chains : List Item → List (List Item)
unfolding numbered joined chains_from
criterion_chains items = chains_from (joined items (numbered 0 items [])) items 0 (length items)

-- `sorted(..., reverse=True)` by the walks, which keeps the order of chains of as many walks
unfoldable pub put_chain : ℕ → List Item → List (List Item) → List (List Item)
unfolding chain_walks
put_chain widths chain [] = chain ∷ []
put_chain widths chain (other ∷ chains) =
    let rest = put_chain widths chain chains in
    if ltb (chain_walks chain widths) (chain_walks other widths)
    then other ∷ rest
    else chain ∷ other ∷ chains

unfoldable pub largest_first : ℕ → List (List Item) → List (List Item)
unfolding put_chain
largest_first widths [] = []
largest_first widths (chain ∷ chains) = put_chain widths chain (largest_first widths chains)

-- An explorer's walks and share
pub record Share : Type 0 where
  pub load : ℕ
  pub items : List Item

abbrev pub least_load : ℕ → List Share → ℕ
least_load least [] = least
least_load least (share ∷ shares) = least_load (min least share.load) shares

-- The first share with the load takes the chain.
unfoldable pub give : ℕ → ℕ → List Item → List Share → List Share
unfolding chain_walks
give widths least chain [] = []
give widths least chain (share ∷ shares) =
    let rest = give widths least chain shares in
    if eqb share.load least
    then record { load = share.load + chain_walks chain widths; items = share.items ++ chain }
      ∷ shares
    else share ∷ rest

-- `loads.index(min(loads))` and what it takes
abbrev pub assign : ℕ → List Item → List Share → List Share
assign widths chain [] = []
assign widths chain (share ∷ shares) =
    give widths (least_load share.load shares) chain (share ∷ shares)

unfoldable pub assign_all : ℕ → List (List Item) → List Share → List Share
unfolding give
assign_all widths [] shares = shares
assign_all widths (chain ∷ chains) shares = assign_all widths chains (assign widths chain shares)

abbrev pub empty_shares : ℕ → List Share
empty_shares zero = []
empty_shares (suc n) = record { load = 0; items = [] } ∷ empty_shares n

-- The shares before the criteria: the first explorer has the re-walk.
abbrev pub first_shares : ℕ → ℕ → List Share
first_shares zero rewalk = []
first_shares (suc n) rewalk = record { load = rewalk; items = [] } ∷ empty_shares n

-- `positions[id]`, the last of the id's positions
abbrev pub position : Groups → Item → ℕ
position positions item = elim (group_of item.id positions) [ none ↦ 0 | some n ↦ n ]

-- `share.sort(key=...)`
abbrev pub put_item : Groups → Item → List Item → List Item
put_item positions item [] = item ∷ []
put_item positions item (other ∷ items) =
    let rest = put_item positions item items in
    if ltb (position positions other) (position positions item)
    then other ∷ rest
    else item ∷ other ∷ items

unfoldable pub in_order : Groups → List Item → List Item
in_order positions [] = []
in_order positions (item ∷ items) = put_item positions item (in_order positions items)

-- `shard_shares`, of one or more shards
unfoldable pub shard_shares : List Item → ℕ → ℕ → ℕ → List (List Item)
unfolding numbered criterion_chains largest_first assign_all in_order
shard_shares items widths shards rewalk =
    map (λ share. in_order (numbered 0 items []) share.items)
      (assign_all widths (largest_first widths (criterion_chains items))
        (first_shares shards rewalk))

-- The number of explorers of `shard_plan`
unfoldable pub planned_shards : List Item → ℕ → ℕ → ℕ
unfolding criterion_chains chain_walks
planned_shards items widths max_shards = max 1 (
    min max_shards (
      min (length (criterion_chains items))
        ((chain_walks items widths + (shard_walks - 1)) / shard_walks)))
