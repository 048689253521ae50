-- ===== src/Shards/Partition.antt =====
-- bin/cli/qae_shards.py, `shard_shares`: each criterion is in one share.
use Prim.Native.Nat.{min}
use vibe_verifier.Base.{
  ℕ, zero, suc, ◌+◌, ◌≡◌, ◌⊎◌, inl, inr, refl, sym, ◌∙◌, Bool, true, false, ◌&&◌, Option, none,
  some, List, [], ◌∷◌, ◌++◌, map, if◌then◌else◌, any, select, is_empty, ltb, leb, eqb, eqb_iff,
  length, arith, Bool-cases, Option-cases,
}
use vibe_verifier.Shards.{
  Item, Groups, group_of, numbered, joined, is_in_group, chains_from, criterion_chains, put_chain,
  largest_first, Share, least_load, give, assign, assign_all, empty_shares, first_shares, put_item,
  in_order, shard_shares,
}
use vibe_verifier.Shards.Groups.{Below, Present, joined-numbered}

is_empty-assign :
    (widths : ℕ) (chain : List Item) (share : Share) (shares : List Share)
    → is_empty (assign widths chain (share ∷ shares)) ≡ false
unfolding give
is_empty-assign widths chain share shares = ground arith

module _ (p : Item → Bool) where
  -- How many items pass the test, in one list and in several.
  abbrev pub count : List Item → ℕ
  count [] = 0
  count (item ∷ items) = (if p item then 1 else 0) + count items

  abbrev pub total : List (List Item) → ℕ
  total [] = 0
  total (items ∷ lists) = count items + total lists

  abbrev held : List Share → ℕ
  held [] = 0
  held (share ∷ shares) = count share.items + held shares

  count-append : (xs ys : List Item) → count (xs ++ ys) ≡ count xs + count ys
  count-append [] ys = omega arith
  count-append (x ∷ xs) ys = omega (arith, count-append xs ys)

  count-put_item :
      (positions : Groups) (item : Item) (items : List Item)
      → count (put_item positions item items) ≡ count (item ∷ items)
  count-put_item positions item [] = refl
  count-put_item positions item (other ∷ items) =
      ground (arith, count-put_item positions item items)

  count-in_order :
      (positions : Groups) (items : List Item) → count (in_order positions items) ≡ count items
  unfolding in_order
  count-in_order positions [] = refl
  count-in_order positions (item ∷ items) = omega (
    arith,
    count-put_item positions item (in_order positions items),
    count-in_order positions items,
  )

  total-put_chain :
      (widths : ℕ) (chain : List Item) (chains : List (List Item))
      → total (put_chain widths chain chains) ≡ count chain + total chains
  unfolding put_chain
  total-put_chain widths chain [] = refl
  total-put_chain widths chain (other ∷ chains) =
      ground (arith, total-put_chain widths chain chains)

  total-largest_first :
      (widths : ℕ) (chains : List (List Item)) → total (largest_first widths chains) ≡ total chains
  unfolding largest_first
  total-largest_first widths [] = refl
  total-largest_first widths (chain ∷ chains) = omega (
    arith,
    total-put_chain widths chain (largest_first widths chains),
    total-largest_first widths chains,
  )

  held-give :
      (widths least : ℕ) (chain : List Item) (shares : List Share)
      → any (λ share. eqb share.load least) shares ≡ true
      → held (give widths least chain shares) ≡ held shares + count chain
  unfolding give
  held-give widths least chain [] h = ground arith
  held-give widths least chain (share ∷ shares) h =
      ground (arith, held-give widths least chain shares, count-append share.items chain)

  least_load-given :
      (load : ℕ) (shares : List Share)
      → (least_load load shares ≡ load)
        ⊎ (any (λ s. eqb s.load (least_load load shares)) shares ≡ true)
  least_load-given load [] = inl refl
  least_load-given load (other ∷ shares) = elim (least_load-given (min load other.load) shares) [
    | inr found ↦ inr (ground arith)
    | inl e ↦ elim (Bool-cases (leb load other.load)) [
      | inl smaller ↦ inl (ground (arith, e))
      | inr larger ↦
          inr (ground (arith, eqb_iff other.load (least_load (min load other.load) shares), e))
    ]
  ]

  least_load-found :
      (share : Share) (shares : List Share)
      → any (λ s. eqb s.load (least_load share.load shares)) (share ∷ shares) ≡ true
  least_load-found share [] = ground (arith, eqb_iff share.load share.load)
  least_load-found share (other ∷ shares) = elim (least_load-given share.load (other ∷ shares)) [
    | inl e ↦ ground (arith, eqb_iff share.load (least_load share.load (other ∷ shares)))
    | inr found ↦ ground arith
  ]

  held-assign :
      (widths : ℕ) (chain : List Item) (share : Share) (shares : List Share)
      → held (assign widths chain (share ∷ shares)) ≡ held (share ∷ shares) + count chain
  held-assign widths chain share shares =
      held-give widths (least_load share.load shares) chain (share ∷ shares)
        (least_load-found share shares)

  held-assign_all :
      (widths : ℕ) (chains : List (List Item)) (shares : List Share)
      → is_empty shares ≡ false
      → held (assign_all widths chains shares) ≡ held shares + total chains
  unfolding assign_all
  held-assign_all widths [] shares h = omega arith
  held-assign_all widths (chain ∷ chains) [] h = ground arith
  held-assign_all widths (chain ∷ chains) (share ∷ shares) h = omega (
    arith,
    held-assign_all widths chains (assign widths chain (share ∷ shares))
        (is_empty-assign widths chain share shares),
    held-assign widths chain share shares,
  )

  -- The chains cut from the group numbers in a range hold each item whose number is in it.
  abbrev is_within : ℕ → ℕ → Option ℕ → Bool
  is_within number left none = false
  is_within number left (some n) = leb number n && ltb n (number + left)

  abbrev count_within : Groups → ℕ → ℕ → List Item → ℕ
  count_within groups number left [] = 0
  count_within groups number left (item ∷ items) =
      (if p item && is_within number left (group_of item.id groups) then 1 else 0)
      + count_within groups number left items

  count_within-split :
      (groups : Groups) (number left : ℕ) (items : List Item)
      → count (select (is_in_group groups number) items)
          + count_within groups (suc number) left items
        ≡ count_within groups number (suc left) items
  count_within-split groups number left [] = refl
  count_within-split groups number left (item ∷ items) =
      elim (Option-cases (group_of item.id groups)) [
        | inl e ↦ ground (arith, count_within-split groups number left items)
        | inr (n, e) ↦ ground (arith, count_within-split groups number left items, eqb_iff n number)
      ]

  count_within-zero :
      (groups : Groups) (number : ℕ) (items : List Item) → count_within groups number 0 items ≡ 0
  count_within-zero groups number [] = refl
  count_within-zero groups number (item ∷ items) =
      ground (arith, count_within-zero groups number items)

  count-none : (items : List Item) → is_empty items ≡ true → count items ≡ 0
  count-none [] h = refl
  count-none (item ∷ items) h = ground arith

  total-chains_from :
      (groups : Groups) (items : List Item) (number left : ℕ)
      → total (chains_from groups items number left) ≡ count_within groups number left items
  unfolding chains_from
  total-chains_from groups items number zero = sym (count_within-zero groups number items)
  total-chains_from groups items number (suc left) =
      let split = count_within-split groups number left items in
      let rest = total-chains_from groups items (suc number) left in
      elim (Bool-cases (is_empty (select (is_in_group groups number) items))) [
        | inl e ↦
            let empty = count-none (select (is_in_group groups number) items) e in
            rw e (omega (arith, split, rest, empty))
        | inr e ↦ rw e (omega (arith, split, rest))
      ]

module _ (p : Item → Bool) where
  count_within-all :
      (groups : Groups) (bound : ℕ) (items : List Item)
      → Below bound groups
      → Present groups items
      → count_within p groups 0 bound items ≡ count p items
  unfolding Below
  count_within-all groups bound [] below present = refl
  count_within-all groups bound (item ∷ items) below present =
      elim (Option-cases (group_of item.id groups)) [
        | inl e ↦ elim (present.0 e) [ ]
        | inr (n, e) ↦
            ground (arith, below item.id n e, count_within-all groups bound items below present.1)
      ]

  total-criterion_chains : (items : List Item) → total p (criterion_chains items) ≡ count p items
  unfolding criterion_chains
  total-criterion_chains items =
      let numbers = joined-numbered items in
      total-chains_from p (joined items (numbered 0 items [])) items 0 (length items)
      ∙ count_within-all (joined items (numbered 0 items [])) (length items) items numbers.0
          numbers.1

  total-map :
      (positions : Groups) (shares : List Share)
      → total p (map (λ share. in_order positions share.items) shares) ≡ held p shares
  total-map positions [] = refl
  total-map positions (share ∷ shares) =
      omega (arith, count-in_order p positions share.items, total-map positions shares)

  held-empty_shares : (n : ℕ) → held p (empty_shares n) ≡ 0
  held-empty_shares zero = refl
  held-empty_shares (suc n) = omega (arith, held-empty_shares n)

  -- Whatever a criterion is told by, as many of those that have it are in the shares of the explorers
  -- together as in the list: every criterion is walked, and by one explorer.
  pub total-shard_shares :
      (items : List Item) (widths shards rewalk : ℕ)
      → total p (shard_shares items widths (suc shards) rewalk) ≡ count p items
  unfolding shard_shares
  total-shard_shares items widths shards rewalk = omega (
    arith,
    total-map (numbered 0 items []) (
        assign_all widths (largest_first widths (criterion_chains items))
          (first_shares (suc shards) rewalk)),
    held-assign_all p widths (largest_first widths (criterion_chains items))
        (first_shares (suc shards) rewalk) refl,
    held-empty_shares shards,
    total-largest_first p widths (criterion_chains items),
    total-criterion_chains items,
  )
