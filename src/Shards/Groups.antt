-- ===== src/Shards/Groups.antt =====
-- bin/cli/qae_shards.py, `criterion_chains`: the group numbers are positions in the list, and every
-- criterion has one.
use Prim.Native.Nat.{max, min}
use vibe_verifier.Base.{
  ℕ, suc, ◌+◌, ◌<◌, ◌≡◌, ◌≢◌, ◌⊎◌, inl, inr, refl, sym, subst, ap, true, none, some, List, [], ◌∷◌,
  if◌then◌else◌, any, eqb, length, All, All-of_In, In, arith, Bool-cases, Option-cases,
}
use vibe_verifier.Base.Text.{Text, same, same_iff}
use vibe_verifier.Shards.{
  Item, Groups, set_group, group_of, numbered, relabel, join_named, join_all, joined,
}

-- Every group number is below a bound.
unfoldable pub Below : ℕ → Groups → Type 0
Below bound groups = (key : Text) (n : ℕ) → group_of key groups ≡ some n → n < bound

-- Every one of the items has a group.
abbrev pub Present : Groups → List Item → Type 0
Present groups = All (λ item. group_of item.id groups ≢ none)

pub group_of-relabel :
    (joined_number into : ℕ) (key : Text) (groups : Groups)
    → group_of key (relabel joined_number into groups) ≡ elim (group_of key groups) [
      | none ↦ none
      | some n ↦ some (if eqb n joined_number then into else n)
    ]
group_of-relabel joined_number into key [] = refl
group_of-relabel joined_number into key ((k, n) ∷ groups) =
    ground (arith, group_of-relabel joined_number into key groups)

group_of-set_group :
    (key other : Text) (number : ℕ) (groups : Groups)
    → group_of key (set_group other number groups)
      ≡ (if same other key then some number else group_of key groups)
group_of-set_group key other number [] = refl
group_of-set_group key other number ((k, n) ∷ groups) = ground (
  arith,
  group_of-set_group key other number groups,
  same_iff k other,
  same_iff other key,
  same_iff k key,
)

relabel-Below :
    (bound joined_number into : ℕ) (groups : Groups)
    → into < bound
    → Below bound groups
    → Below bound (relabel joined_number into groups)
unfolding Below
relabel-Below bound joined_number into groups small below key n h =
    elim (Option-cases (group_of key groups)) [
      | inl e ↦ ground (arith, group_of-relabel joined_number into key groups)
      | inr (m, e) ↦ ground (arith, group_of-relabel joined_number into key groups, below key m e)
    ]

joined_small :
    (bound : ℕ) (item other : Text) (groups : Groups) (a b : ℕ)
    → Below bound groups
    → group_of other groups ≡ some a
    → group_of item groups ≡ some b
    → min a b < bound
unfolding Below
joined_small bound item other groups a b below e e' =
    omega (arith, below other a e, below item b e')

pub join_named-cases :
    (item other : Text) (groups : Groups)
    → (join_named item other groups ≡ groups)
      ⊎ ((a : ℕ) × (b : ℕ) × (group_of other groups ≡ some a)
          × (group_of item groups ≡ some b)
          × (join_named item other groups ≡ relabel (max a b) (min a b) groups))
unfolding join_named
join_named-cases item other groups = elim (Option-cases (group_of other groups)) [
  | inl e ↦ inl (ground arith)
  | inr (a, e) ↦ elim (Option-cases (group_of item groups)) [
    | inl e' ↦ inl (ground arith)
    | inr (b, e') ↦ elim (Bool-cases (eqb a b)) [
      | inl same_group ↦ inl (ground arith)
      | inr apart ↦ inr (a, b, e, e', ground arith)
    ]
  ]
]

join_named-Below :
    (bound : ℕ) (item other : Text) (groups : Groups)
    → Below bound groups
    → Below bound (join_named item other groups)
join_named-Below bound item other groups below = elim (join_named-cases item other groups) [
  | inl e ↦ subst (Below bound) (sym e) below
  | inr (a, b, e, e', relabelled) ↦ subst (Below bound) (sym relabelled) (
      relabel-Below bound (max a b) (min a b) groups
        (joined_small bound item other groups a b below e e') below)
]

pub join_named-present :
    (item other key : Text) (groups : Groups)
    → group_of key groups ≢ none
    → group_of key (join_named item other groups) ≢ none
join_named-present item other key groups present = elim (Option-cases (group_of key groups)) [
  | inl e ↦ elim (present e) [ ]
  | inr (n, e) ↦ elim (join_named-cases item other groups) [
    | inl same_groups ↦ λ h. ground arith
    | inr (a, b, e', e'', relabelled) ↦
        λ h. ground (arith, group_of-relabel (max a b) (min a b) key groups)
  ]
]

-- What the loops keep: every number below a bound, and every group that is there.
unfoldable pub Kept : ℕ → Groups → Groups → Type 0
Kept bound groups groups' =
    (Below bound groups → Below bound groups')
    × ((key : Text) → group_of key groups ≢ none → group_of key groups' ≢ none)

pub join_all-Kept :
    (bound : ℕ) (item : Text) (others : List Text) (groups : Groups)
    → Kept bound groups (join_all item others groups)
unfolding Kept
join_all-Kept bound item [] groups = (λ h. h, λ key h. h)
join_all-Kept bound item (other ∷ others) groups =
    let rest = join_all-Kept bound item others (join_named item other groups) in
    (
      λ h. rest.0 (join_named-Below bound item other groups h),
      λ key h. rest.1 key (join_named-present item other key groups h),
    )

pub joined-Kept :
    (bound : ℕ) (items : List Item) (groups : Groups) → Kept bound groups (joined items groups)
unfolding joined Kept
joined-Kept bound [] groups = (λ h. h, λ key h. h)
joined-Kept bound (item ∷ items) groups =
    let step = join_all-Kept bound item.id item.named groups in
    let rest = joined-Kept bound items (join_all item.id item.named groups) in
    (λ h. rest.0 (step.0 h), λ key h. rest.1 key (step.1 key h))

set_group-Below :
    (key : Text) (index : ℕ) (groups : Groups)
    → Below index groups
    → Below (suc index) (set_group key index groups)
unfolding Below
set_group-Below key index groups below other n h = elim (Bool-cases (same key other)) [
  | inl e ↦ ground (arith, group_of-set_group other key index groups)
  | inr e ↦ ground (arith, group_of-set_group other key index groups, below other n)
]

carried :
    (index : ℕ) (item : Item) (items : List Item) (groups : Groups) (key : Text)
    → (group_of key groups ≢ none) ⊎ (any (λ i. same i.id key) (item ∷ items) ≡ true)
    → (group_of key (set_group item.id index groups) ≢ none)
      ⊎ (any (λ i. same i.id key) items ≡ true)
carried index item items groups key h = elim (Bool-cases (same item.id key)) [
  | inl e ↦ inl (λ gone. ground (arith, group_of-set_group key item.id index groups))
  | inr e ↦ elim h [
    | inl present ↦
        inl (λ gone. present (sym (ground (arith, group_of-set_group key item.id index groups))))
    | inr later ↦ inr (ground arith)
  ]
]

numbered-Below :
    (index : ℕ) (items : List Item) (groups : Groups)
    → Below index groups
    → Below (index + length items) (numbered index items groups)
unfolding numbered Below
numbered-Below index [] groups below key n h = omega (arith, below key n h)
numbered-Below index (item ∷ items) groups below key n h = omega (
  arith,
  numbered-Below (suc index) items (set_group item.id index groups)
      (set_group-Below item.id index groups below) key n h,
)

pub numbered-present :
    (index : ℕ) (items : List Item) (groups : Groups) (key : Text)
    → (group_of key groups ≢ none) ⊎ (any (λ item. same item.id key) items ≡ true)
    → group_of key (numbered index items groups) ≢ none
unfolding numbered
numbered-present index [] groups key (inl h) = h
numbered-present index [] groups key (inr h) = ground arith
numbered-present index (item ∷ items) groups key h =
    numbered-present (suc index) items (set_group item.id index groups) key
      (carried index item items groups key h)

pub any-In :
    (item : Item) (items : List Item) → In item items → any (λ i. same i.id item.id) items ≡ true
any-In item [] h = elim h [ ]
any-In item (other ∷ items) (inl e) =
    ground (arith, same_iff other.id item.id, ap (λ (i : Item). i.id) e)
any-In item (other ∷ items) (inr h) = ground (arith, any-In item items h)

-- The numbers that `criterion_chains` groups by are positions in the list, and every item has one.
pub joined-numbered :
    (items : List Item)
    → Below (length items) (joined items (numbered 0 items []))
      × Present (joined items (numbered 0 items [])) items
unfolding Kept Below
joined-numbered items =
    let kept = joined-Kept (length items) items (numbered 0 items []) in
    (
      kept.0 (λ key n h.
          omega (arith, numbered-Below 0 items [] (λ k m none_yet. ground arith) key n h)),
      All-of_In (λ item. group_of item.id (joined items (numbered 0 items [])) ≢ none) items
          (λ item h.
            kept.1 item.id (numbered-present 0 items [] item.id (inr (any-In item items h)))),
    )
