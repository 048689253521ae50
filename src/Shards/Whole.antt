-- ===== src/Shards/Whole.antt =====
-- bin/cli/qae_shards.py, `shard_shares`: a criterion and one that it names go to one explorer.
use Prim.Native.Nat.{min}
use vibe_verifier.Base.{
  ℕ, suc, ◌+◌, ◌≡◌, ◌⊎◌, inl, inr, refl, sym, subst, ap, false, List, [], ◌∷◌, ◌++◌, map, eqb,
  eqb_iff, is_empty, ltb, All, In, arith, Bool-cases,
}
use vibe_verifier.Shards.{
  Item, numbered, criterion_chains, chain_walks, largest_first, Share, least_load, give, assign,
  assign_all, first_shares, in_order, shard_shares,
}
use vibe_verifier.Shards.Chained.{Carries, criterion_chains-Carries}
use vibe_verifier.Shards.Found.{
  HaveBoth, criterion_chains-HaveBoth, largest_first-In, in_order-In, append-In,
}

module _ (widths : ℕ) (item other : Item) where
  -- One share has both items.
  abbrev ShareHasBoth : List Share → Type 0
  ShareHasBoth shares =
      (share : Share) × In share shares × In item share.items × In other share.items

  give-keeps :
      (least : ℕ) (chain : List Item) (shares : List Share)
      → ShareHasBoth shares
      → ShareHasBoth (give widths least chain shares)
  unfolding give
  give-keeps least chain [] h = h
  give-keeps least chain (first ∷ shares) (share, inl e, h, k) =
      elim (Bool-cases (eqb first.load least)) [
        | inl takes ↦ rw takes (
          record { load = first.load + chain_walks chain widths; items = first.items ++ chain },
          inl refl,
          append-In item first.items chain (inl (subst (λ (s : Share). In item s.items) e h)),
          append-In other first.items chain (inl (subst (λ (s : Share). In other s.items) e k)),
        )
        | inr leaves ↦ rw leaves (share, inl e, h, k)
      ]
  give-keeps least chain (first ∷ shares) (share, inr later, h, k) =
      let (kept, listed, has_item, has_other) =
        give-keeps least chain shares (share, later, h, k) in
      elim (Bool-cases (eqb first.load least)) [
        | inl takes ↦ rw takes (share, inr later, h, k)
        | inr leaves ↦ rw leaves (kept, inr listed, has_item, has_other)
      ]

  give-takes :
      (least : ℕ) (chain : List Item) (shares : List Share)
      → (share : Share) × In share shares × (share.load ≡ least)
      → In item chain
      → In other chain
      → ShareHasBoth (give widths least chain shares)
  unfolding give
  give-takes least chain [] (share, listed, e) h k = elim listed [ ]
  give-takes least chain (first ∷ shares) (share, listed, e) h k =
      elim (Bool-cases (eqb first.load least)) [
        | inl takes ↦ rw takes (
          record { load = first.load + chain_walks chain widths; items = first.items ++ chain },
          inl refl,
          append-In item first.items chain (inr h),
          append-In other first.items chain (inr k),
        )
        | inr leaves ↦ elim listed [
          | inl is_first ↦
              absurd (ground (arith, eqb_iff first.load least, ap (λ (s : Share). s.load) is_first))
          | inr later ↦
              let (taken, found, has_item, has_other) =
                give-takes least chain shares (share, later, e) h k in
              rw leaves (taken, inr found, has_item, has_other)
        ]
      ]

least_load-found :
    (least : ℕ) (shares : List Share)
    → (least_load least shares ≡ least)
      ⊎ ((share : Share) × In share shares × (share.load ≡ least_load least shares))
least_load-found least [] = inl refl
least_load-found least (share ∷ shares) = elim (least_load-found (min least share.load) shares) [
  | inr (found, listed, e) ↦ inr (found, inr listed, e)
  | inl e ↦ elim (Bool-cases (ltb share.load least)) [
    | inl less ↦ inr (share, inl refl, ground arith)
    | inr more ↦ inl (ground arith)
  ]
]

least_share :
    (first : Share) (shares : List Share)
    → (share : Share) × In share (first ∷ shares) × (share.load ≡ least_load first.load shares)
least_share first shares = elim (least_load-found first.load shares) [
  | inl e ↦ (first, inl refl, sym e)
  | inr (share, listed, e) ↦ (share, inr listed, e)
]

give-not_empty :
    (widths least : ℕ) (chain : List Item) (first : Share) (shares : List Share)
    → is_empty (give widths least chain (first ∷ shares)) ≡ false
unfolding give
give-not_empty widths least chain first shares = elim (Bool-cases (eqb first.load least)) [
  | inl e ↦ rw e refl
  | inr e ↦ rw e refl
]

assign_all-keeps :
    (widths : ℕ) (item other : Item) (chains : List (List Item)) (shares : List Share)
    → ShareHasBoth widths item other shares
    → ShareHasBoth widths item other (assign_all widths chains shares)
unfolding assign_all
assign_all-keeps widths item other [] shares h = h
assign_all-keeps widths item other (chain ∷ chains) [] (share, listed, h, k) = elim listed [ ]
assign_all-keeps widths item other (chain ∷ chains) (first ∷ shares) h =
    assign_all-keeps widths item other chains (assign widths chain (first ∷ shares))
      (give-keeps widths item other (least_load first.load shares) chain (first ∷ shares) h)

assign_all-takes :
    (widths : ℕ) (item other : Item) (chains : List (List Item)) (shares : List Share)
    → is_empty shares ≡ false
    → HaveBoth item other chains
    → ShareHasBoth widths item other (assign_all widths chains shares)
unfolding assign_all
assign_all-takes widths item other [] shares some_share (list, listed, h, k) = elim listed [ ]
assign_all-takes widths item other (chain ∷ chains) [] some_share h = absurd (cc)
assign_all-takes widths item other (chain ∷ chains) (first ∷ shares) some_share
      (list, inl e, h, k) =
    assign_all-keeps widths item other chains (assign widths chain (first ∷ shares)) (
      give-takes widths item other (least_load first.load shares) chain (first ∷ shares)
        (least_share first shares) (subst (λ (l : List Item). In item l) e h)
        (subst (λ (l : List Item). In other l) e k))
assign_all-takes widths item other (chain ∷ chains) (first ∷ shares) some_share
      (list, inr later, h, k) =
    assign_all-takes widths item other chains (assign widths chain (first ∷ shares))
      (give-not_empty widths (least_load first.load shares) chain first shares) (list, later, h, k)

map-In :
    (f : Share → List Item) (share : Share) (shares : List Share)
    → In share shares
    → In (f share) (map f shares)
map-In f share [] h = h
map-In f share (first ∷ shares) (inl e) = inl (ap f e)
map-In f share (first ∷ shares) (inr h) = inr (map-In f share shares h)

-- A criterion of the list that another names by number goes to the same explorer as it, whatever the
-- walks are and however many explorers share them: one of the shares has both. Each chain that is shared
-- out has both or neither.
pub shard_shares-Whole :
    (items : List Item) (widths shards rewalk : ℕ) (item other : Item)
    → In item items
    → In other items
    → In other.id item.named
    → HaveBoth item other (shard_shares items widths (suc shards) rewalk)
      × All (Carries item other) (criterion_chains items)
unfolding shard_shares
shard_shares-Whole items widths shards rewalk item other h k names =
    let (chain, listed, has_item, has_other) =
      criterion_chains-HaveBoth items item other h k names in
    let (share, given, in_share, other_in_share) =
      assign_all-takes widths item other (largest_first widths (criterion_chains items))
        (first_shares (suc shards) rewalk) refl
        (
          chain,
          largest_first-In widths chain (criterion_chains items) listed,
          has_item,
          has_other,
        ) in
    let positions = numbered 0 items [] in
    (
      (
        in_order positions share.items,
        map-In (λ s. in_order positions s.items) share _ given,
        in_order-In positions item share.items in_share,
        in_order-In positions other share.items other_in_share,
      ),
      criterion_chains-Carries items item other h k names,
    )
