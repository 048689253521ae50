-- ===== src/Shards/Chained.antt =====
-- bin/cli/qae_shards.py, `criterion_chains`: criteria that name each other are in one chain.
use Prim.Native.Nat.{max, min}
use vibe_verifier.Base.{
  ℕ, suc, ◌≡◌, ◌≢◌, ◌⊎◌, inl, inr, sym, ap, ◌∙◌, Bool, true, false, Option, none, some, List, [],
  ◌∷◌, eqb, eqb_iff, select, is_empty, zero, ltb, subst, length, All, In, arith, Bool-cases,
  Option-cases,
}
use vibe_verifier.Base.Text.{Text}
use vibe_verifier.Shards.{
  Item, Groups, group_of, numbered, relabel, join_named, join_all, joined, is_in_group, chains_from,
  criterion_chains,
}
use vibe_verifier.Shards.Groups.{
  Kept, any-In, group_of-relabel, join_all-Kept, join_named-cases, join_named-present,
  numbered-present,
}

-- Two ids in one group
abbrev pub Together : Groups → Text → Text → Type 0
Together groups x y = group_of x groups ≡ group_of y groups

relabel-Together :
    (joined_number into : ℕ) (groups : Groups) (x y : Text)
    → Together groups x y
    → Together (relabel joined_number into groups) x y
relabel-Together joined_number into groups x y h = ground (
  arith,
  h,
  group_of-relabel joined_number into x groups,
  group_of-relabel joined_number into y groups,
)

join_named-Together :
    (item other : Text) (groups : Groups) (x y : Text)
    → Together groups x y
    → Together (join_named item other groups) x y
join_named-Together item other groups x y h = elim (join_named-cases item other groups) [
  | inl e ↦ rw e h
  | inr (a, b, e, e', relabelled) ↦
      rw relabelled (relabel-Together (max a b) (min a b) groups x y h)
]

join_all-Together :
    (item : Text) (others : List Text) (groups : Groups) (x y : Text)
    → Together groups x y
    → Together (join_all item others groups) x y
join_all-Together item [] groups x y h = h
join_all-Together item (other ∷ others) groups x y h =
    join_all-Together item others (join_named item other groups) x y
      (join_named-Together item other groups x y h)

joined-Together :
    (items : List Item) (groups : Groups) (x y : Text)
    → Together groups x y
    → Together (joined items groups) x y
unfolding joined
joined-Together [] groups x y h = h
joined-Together (item ∷ items) groups x y h =
    joined-Together items (join_all item.id item.named groups) x y
      (join_all-Together item.id item.named groups x y h)

same_number :
    (groups : Groups) (item other : Text) (a b : ℕ)
    → group_of other groups ≡ some a
    → group_of item groups ≡ some b
    → Together (relabel (max a b) (min a b) groups) other item
same_number groups item other a b e e' = elim (Bool-cases (ltb a b)) [
  | inl less ↦ ground (
    arith,
    group_of-relabel (max a b) (min a b) other groups,
    group_of-relabel (max a b) (min a b) item groups,
    eqb_iff a (max a b),
    eqb_iff b (max a b),
  )
  | inr more ↦ ground (
    arith,
    group_of-relabel (max a b) (min a b) other groups,
    group_of-relabel (max a b) (min a b) item groups,
    eqb_iff a (max a b),
    eqb_iff b (max a b),
  )
]

joins :
    (item other : Text) (groups : Groups)
    → group_of item groups ≢ none
    → group_of other groups ≢ none
    → Together (join_named item other groups) other item
unfolding join_named
joins item other groups has_item has_other = elim (Option-cases (group_of other groups)) [
  | inl e ↦ elim (has_other e) [ ]
  | inr (a, e) ↦ elim (Option-cases (group_of item groups)) [
    | inl e' ↦ elim (has_item e') [ ]
    | inr (b, e') ↦ elim (Bool-cases (eqb a b)) [
      | inl same_group ↦ ground (arith, eqb_iff a b)
      | inr apart ↦ ground (arith, same_number groups item other a b e e')
    ]
  ]
]

join_all-joins :
    (item other : Text) (others : List Text) (groups : Groups)
    → In other others
    → group_of item groups ≢ none
    → group_of other groups ≢ none
    → Together (join_all item others groups) other item
join_all-joins item other [] groups h has_item has_other = elim h [ ]
join_all-joins item other (first ∷ others) groups (inl e) has_item has_other =
    join_all-Together item others (join_named item first groups) other item (
      subst (λ o. Together (join_named item o groups) other item) e
        (joins item other groups has_item has_other))
join_all-joins item other (first ∷ others) groups (inr h) has_item has_other =
    join_all-joins item other others (join_named item first groups) h
      (join_named-present item first item groups has_item)
      (join_named-present item first other groups has_other)

joined-joins :
    (items : List Item) (groups : Groups) (item : Item) (other : Text)
    → In item items
    → In other item.named
    → group_of item.id groups ≢ none
    → group_of other groups ≢ none
    → Together (joined items groups) other item.id
unfolding joined Kept
joined-joins [] groups item other h names has_item has_other = elim h [ ]
joined-joins (first ∷ items) groups item other (inl e) names has_item has_other =
    joined-Together items (join_all first.id first.named groups) other item.id (
      subst (λ (i : Item). Together (join_all i.id i.named groups) other item.id) e
        (join_all-joins item.id other item.named groups names has_item has_other))
joined-joins (first ∷ items) groups item other (inr h) names has_item has_other =
    let kept = join_all-Kept 0 first.id first.named groups in
    joined-joins items (join_all first.id first.named groups) item other h names
      (kept.1 item.id has_item) (kept.1 other has_other)

pub group-together :
    (items : List Item) (item other : Item) (number : ℕ)
    → In item items
    → In other items
    → In other.id item.named
    → is_in_group (joined items (numbered 0 items [])) number other
      ≡ is_in_group (joined items (numbered 0 items [])) number item
group-together items item other number h k names =
    ap (λ (o : Option ℕ). elim o as (λ _. Bool) [ none ↦ false | some n ↦ eqb n number ])
      (joined-joins items (numbered 0 items []) item other.id h names
        (numbered-present 0 items [] item.id (inr (any-In item items h)))
        (numbered-present 0 items [] other.id (inr (any-In other items k))))

selected_first :
    (p : Item → Bool) (item first : Item) (items : List Item)
    → p first ≡ true
    → In item (select p (first ∷ items))
    → (item ≡ first) ⊎ In item (select p items)
selected_first p item first items e h = rw e at h

In-select :
    (p : Item → Bool) (item : Item) (items : List Item) → In item (select p items) → p item ≡ true
In-select p item [] h = elim h [ ]
In-select p item (first ∷ items) h = elim (Bool-cases (p first)) [
  | inr e ↦ In-select p item items (rw e at h)
  | inl e ↦ elim (selected_first p item first items e h) [
    | inl same_item ↦ subst (λ i. p i ≡ true) (sym same_item) e
    | inr later ↦ In-select p item items later
  ]
]

pub In-of_select :
    (p : Item → Bool) (item : Item) (items : List Item)
    → In item items
    → p item ≡ true
    → In item (select p items)
In-of_select p item [] h e = elim h [ ]
In-of_select p item (first ∷ items) (inl same_item) e =
    rw (subst (λ i. p i ≡ true) same_item e) (inl same_item)
In-of_select p item (first ∷ items) (inr h) e = elim (Bool-cases (p first)) [
  | inl taken ↦ rw taken (inr (In-of_select p item items h e))
  | inr left ↦ rw left (In-of_select p item items h e)
]

-- Whoever has the second of two criteria has the first.
abbrev pub Carries : Item → Item → List Item → Type 0
Carries item other chain = (In other chain → In item chain) × (In item chain → In other chain)

chains_from-Carries :
    (groups : Groups) (items : List Item) (item other : Item) (number left : ℕ)
    → In item items
    → In other items
    → ((n : ℕ) → is_in_group groups n other ≡ is_in_group groups n item)
    → All (Carries item other) (chains_from groups items number left)
unfolding chains_from
chains_from-Carries groups items item other number zero h k together = tt
chains_from-Carries groups items item other number (suc left) h k together =
    let rest = chains_from-Carries groups items item other (suc number) left h k together in
    let p = is_in_group groups number in
    elim (Bool-cases (is_empty (select p items))) [
      | inl e ↦ rw e rest
      | inr e ↦ rw e (
        (
          λ (m : In other (select p items)).
              In-of_select p item items h (sym (together number) ∙ In-select p other items m),
          λ (m : In item (select p items)).
              In-of_select p other items k (together number ∙ In-select p item items m),
        ),
        rest,
      )
    ]

-- A criterion that names another of the list by number is in the chains that have it: each chain of
-- `criterion_chains` has both or neither.
pub criterion_chains-Carries :
    (items : List Item) (item other : Item)
    → In item items
    → In other items
    → In other.id item.named
    → All (Carries item other) (criterion_chains items)
unfolding criterion_chains
criterion_chains-Carries items item other h k names =
    chains_from-Carries (joined items (numbered 0 items [])) items item other 0 (length items) h k
      (λ n. group-together items item other n h k names)
