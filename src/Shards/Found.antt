-- ===== src/Shards/Found.antt =====
-- bin/cli/qae_shards.py: the chain with a criterion and one that it names, and what the sorts keep.
use vibe_verifier.Base.{
  ℕ, suc, ◌+◌, ◌<◌, ◌≡◌, ◌⊎◌, inl, inr, refl, ◌∙◌, true, false, some, List, [], ◌∷◌, ◌++◌, eqb_iff,
  select, is_empty, zero, ltb, length, In, arith, Bool-cases, Option-cases,
}
use vibe_verifier.Shards.{
  Item, Groups, group_of, numbered, joined, is_in_group, chains_from, criterion_chains, chain_walks,
  put_chain, largest_first, position, put_item, in_order,
}
use vibe_verifier.Shards.Groups.{
  Below, Kept, any-In, joined-Kept, joined-numbered, numbered-present,
}
use vibe_verifier.Shards.Chained.{In-of_select, group-together}

-- A list of lists has one with both items.
abbrev pub HaveBoth : Item → Item → List (List Item) → Type 0
HaveBoth item other lists = (list : List Item) × In list lists × In item list × In other list

not_empty : (item : Item) (items : List Item) → In item items → is_empty items ≡ false
not_empty item [] h = elim h [ ]
not_empty item (first ∷ items) h = refl

chains_from-HaveBoth :
    (groups : Groups) (items : List Item) (item other : Item) (n number left : ℕ)
    → In item (select (is_in_group groups (n + number)) items)
    → In other (select (is_in_group groups (n + number)) items)
    → n < left
    → HaveBoth item other (chains_from groups items number left)
unfolding chains_from
chains_from-HaveBoth groups items item other n number zero h k small = absurd (omega arith)
chains_from-HaveBoth groups items item other zero number (suc left) h k small =
    let chain = select (is_in_group groups number) items in
    let at_number : 0 + number ≡ number = omega arith in
    let has_item : In item chain = rw at_number at h in
    let has_other : In other chain = rw at_number at k in
    rw (not_empty item chain has_item) (chain, inl refl, has_item, has_other)
chains_from-HaveBoth groups items item other (suc n) number (suc left) h k small =
    let at_number : suc n + number ≡ n + suc number = omega arith in
    let (list, listed, has_item, has_other) =
      chains_from-HaveBoth groups items item other n (suc number) left (rw at_number at h)
        (rw at_number at k) (omega arith) in
    elim (Bool-cases (is_empty (select (is_in_group groups number) items))) [
      | inl e ↦ rw e (list, listed, has_item, has_other)
      | inr e ↦ rw e (list, inr listed, has_item, has_other)
    ]

in_own_group :
    (groups : Groups) (item : Item) (n : ℕ)
    → group_of item.id groups ≡ some n
    → is_in_group groups n item ≡ true
in_own_group groups item n e = ground (arith, eqb_iff n n)

module _ (items : List Item) (item other : Item) (h : In item items) (k : In other items)
    (names : In other.id item.named) where
  pub criterion_chains-HaveBoth : HaveBoth item other (criterion_chains items)
  unfolding criterion_chains Kept Below
  criterion_chains-HaveBoth =
      let groups = joined items (numbered 0 items []) in
      elim (Option-cases (group_of item.id groups)) [
        | inl gone ↦
            elim ((joined-Kept 0 items (numbered 0 items [])).1 item.id
              (numbered-present 0 items [] item.id (inr (any-In item items h))) gone) [ ]
        | inr (n, e) ↦
            let own = in_own_group groups item n e in
            let start : n + 0 ≡ n = omega arith in
            chains_from-HaveBoth groups items item other n 0 (length items)
              (rw start (In-of_select (is_in_group groups n) item items h own))
              (rw start (
                In-of_select (is_in_group groups n) other items k
                  (group-together items item other n h k names ∙ own)))
              ((joined-numbered items).0 item.id n e)
      ]

put_chain-In :
    (widths : ℕ) (list chain : List Item) (chains : List (List Item))
    → In list (chain ∷ chains)
    → In list (put_chain widths chain chains)
unfolding put_chain
put_chain-In widths list chain [] h = h
put_chain-In widths list chain (other ∷ chains) h =
    elim (Bool-cases (ltb (chain_walks chain widths) (chain_walks other widths))) [
      | inr e ↦ rw e h
      | inl e ↦ rw e (elim h [
        | inl first ↦ inr (put_chain-In widths list chain chains (inl first))
        | inr (inl second) ↦ inl second
        | inr (inr later) ↦ inr (put_chain-In widths list chain chains (inr later))
      ])
    ]

pub largest_first-In :
    (widths : ℕ) (list : List Item) (chains : List (List Item))
    → In list chains
    → In list (largest_first widths chains)
unfolding largest_first
largest_first-In widths list [] h = h
largest_first-In widths list (chain ∷ chains) (inl e) =
    put_chain-In widths list chain (largest_first widths chains) (inl e)
largest_first-In widths list (chain ∷ chains) (inr h) =
    put_chain-In widths list chain (largest_first widths chains)
      (inr (largest_first-In widths list chains h))

put_item-In :
    (positions : Groups) (x item : Item) (items : List Item)
    → In x (item ∷ items)
    → In x (put_item positions item items)
put_item-In positions x item [] h = h
put_item-In positions x item (other ∷ items) h =
    elim (Bool-cases (ltb (position positions other) (position positions item))) [
      | inr e ↦ rw e h
      | inl e ↦ rw e (elim h [
        | inl first ↦ inr (put_item-In positions x item items (inl first))
        | inr (inl second) ↦ inl second
        | inr (inr later) ↦ inr (put_item-In positions x item items (inr later))
      ])
    ]

pub in_order-In :
    (positions : Groups) (x : Item) (items : List Item)
    → In x items
    → In x (in_order positions items)
unfolding in_order
in_order-In positions x [] h = h
in_order-In positions x (item ∷ items) (inl e) =
    put_item-In positions x item (in_order positions items) (inl e)
in_order-In positions x (item ∷ items) (inr h) =
    put_item-In positions x item (in_order positions items) (inr (in_order-In positions x items h))

pub append-In : (x : Item) (front back : List Item) → In x front ⊎ In x back → In x (front ++ back)
append-In x [] back (inl h) = elim h [ ]
append-In x [] back (inr h) = h
append-In x (y ∷ front) back (inl (inl e)) = inl e
append-In x (y ∷ front) back (inl (inr h)) = inr (append-In x front back (inl h))
append-In x (y ∷ front) back (inr h) = inr (append-In x front back (inr h))
