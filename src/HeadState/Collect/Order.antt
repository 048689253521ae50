-- ===== src/HeadState/Collect/Order.antt =====
-- dashboard/head_state.py, `queue_pulls`: the order that the pull requests are detailed in.
use vibe_verifier.Base.{
  ℕ, suc, ◌+◌, ap, ◌≤◌, ◌≡◌, refl, ◌∙◌, inl, inr, Bool, List, [], ◌∷◌, length, select,
  select-append, length-append, All, All-map, arith, Bool-cases,
}
use vibe_verifier.Base.Text.{Text}
use vibe_verifier.Base.Json.{Fields}
use vibe_verifier.HeadState.Collect.{
  Collector, Kind, changed, new, kept, code, Queued, comes_before, place, sort_queued, queue_rows,
  listed, queue_pulls,
}
use vibe_verifier.HeadState.Collect.Kinds.{KindFits, listed-KindFits}

-- What may stand behind an item of a kind: behind a changed one any, behind a new one no changed one, and
-- behind a kept one only kept ones.
abbrev pub MayFollow : Kind → Kind → Type 0
MayFollow changed later = Unit
MayFollow new changed = ⊥
MayFollow new new = Unit
MayFollow new kept = Unit
MayFollow kept changed = ⊥
MayFollow kept new = ⊥
MayFollow kept kept = Unit

-- The changed come first, then the new, then the kept.
abbrev pub Ordered : List Queued → Type 0
Ordered [] = Unit
Ordered (item ∷ items) =
    All (λ (later : Queued). MayFollow item.kind later.kind) items × Ordered items

-- How many rows of the listings pass a test of their repository and their fields
abbrev pub count_rows : (Text → Fields → Bool) → List (Text × List Fields) → ℕ
count_rows p [] = 0
count_rows p ((repository, rows) ∷ listings) =
    length (select (p repository) rows) + count_rows p listings

code-MayFollow : (earlier later : Kind) → code earlier ≤ code later → MayFollow earlier later
code-MayFollow changed later h = tt
code-MayFollow new changed h = absurd (omega arith)
code-MayFollow new new h = tt
code-MayFollow new kept h = tt
code-MayFollow kept changed h = absurd (omega arith)
code-MayFollow kept new h = absurd (omega arith)
code-MayFollow kept kept h = tt

-- The codes of the kinds do not fall.
ByCode : List Queued → Type 0
ByCode [] = Unit
ByCode (item ∷ items) =
    All (λ (later : Queued). code item.kind ≤ code later.kind) items × ByCode items

ByCode-Ordered : (items : List Queued) → ByCode items → Ordered items
unfolding ByCode
ByCode-Ordered [] h = tt
ByCode-Ordered (item ∷ items) h = (
  All-map (λ (later : Queued). code item.kind ≤ code later.kind)
      (λ (later : Queued). MayFollow item.kind later.kind)
      (λ later. code-MayFollow item.kind later.kind) items h.0,
  ByCode-Ordered items h.1,
)

All-place :
    (P : Queued → Type 0) (item : Queued) (items : List Queued)
    → P item
    → All P items
    → All P (place item items)
unfolding place
All-place P item [] h k = (h, tt)
All-place P item (other ∷ more) h k = elim (Bool-cases (comes_before other item)) [
  | inl e ↦ rw (e, place) (k.0, All-place P item more h k.1)
  | inr e ↦ rw (e, place) (h, k)
]

place-ByCode : (item : Queued) (items : List Queued) → ByCode items → ByCode (place item items)
unfolding place ByCode
place-ByCode item [] h = (tt, tt)
place-ByCode item (other ∷ more) h = elim (Bool-cases (comes_before other item)) [
  | inl e ↦
      rw (e, place, ByCode)
        (
          All-place (λ (later : Queued). code other.kind ≤ code later.kind) item more (ground arith)
              h.0,
          place-ByCode item more h.1,
        )
  | inr e ↦
      let first : code item.kind ≤ code other.kind = ground arith in
      rw (e, place)
        (
          (
            first,
            All-map (λ (later : Queued). code other.kind ≤ code later.kind)
                (λ (later : Queued). code item.kind ≤ code later.kind)
                (λ later (below : code other.kind ≤ code later.kind). omega arith) more h.0,
          ),
          h,
        )
]

sort_queued-ByCode : (items : List Queued) → ByCode (sort_queued items)
unfolding sort_queued ByCode
sort_queued-ByCode [] = tt
sort_queued-ByCode (item ∷ items) = place-ByCode item (sort_queued items) (sort_queued-ByCode items)

count-place :
    (p : Queued → Bool) (item : Queued) (items : List Queued)
    → length (select p (place item items)) ≡ length (select p (item ∷ items))
unfolding place
count-place p item [] = refl
count-place p item (other ∷ more) = elim (Bool-cases (comes_before other item)) [
  | inl e ↦ rw (e, place) (ground (arith, count-place p item more))
  | inr e ↦ rw (e, place) refl
]

count-sort_queued :
    (p : Queued → Bool) (items : List Queued)
    → length (select p (sort_queued items)) ≡ length (select p items)
unfolding sort_queued
count-sort_queued p [] = refl
count-sort_queued p (item ∷ items) =
    count-place p item (sort_queued items) ∙ ground (arith, count-sort_queued p items)

All-sort_queued :
    (P : Queued → Type 0) (items : List Queued) → All P items → All P (sort_queued items)
unfolding sort_queued
All-sort_queued P [] h = tt
All-sort_queued P (item ∷ items) h =
    All-place P item (sort_queued items) h.0 (All-sort_queued P items h.1)

module _ (casefold : Text → Text) (collector : Collector) (rank : List (Text × ℕ)) where
  count-queue_rows :
      (p : Text → Fields → Bool) (repository : Text) (rows : List Fields)
      → length (
          select
            (λ (item : Queued). p item.repository item.row)
            (queue_rows casefold collector rank repository rows))
        ≡ length (select (p repository) rows)
  count-queue_rows p repository [] = refl
  count-queue_rows p repository (row ∷ rows) = elim (Bool-cases (p repository row)) [
    | inl e ↦ rw e (ap suc (count-queue_rows p repository rows))
    | inr e ↦ rw e (count-queue_rows p repository rows)
  ]

  count-listed :
      (p : Text → Fields → Bool) (listings : List (Text × List Fields))
      → length (
          select
            (λ (item : Queued). p item.repository item.row)
            (listed casefold collector rank listings))
        ≡ count_rows p listings
  unfolding listed
  count-listed p [] = refl
  count-listed p ((repository, rows) ∷ listings) = ground (
    arith,
    select-append (λ (item : Queued). p item.repository item.row)
        (queue_rows casefold collector rank repository rows)
        (listed casefold collector rank listings),
    length-append
        (select (λ (item : Queued). p item.repository item.row)
          (queue_rows casefold collector rank repository rows))
        (select (λ (item : Queued). p item.repository item.row)
          (listed casefold collector rank listings)),
    count-queue_rows p repository rows,
    count-listed p listings,
  )

  -- The queue has the rows of the listings: as many of them pass a test of their repository and fields as
  -- in the listings, whatever the test is. The changed stand first, then the new, then the kept. The key of
  -- each is its row's; it counts as kept only where the checks that are stored were read at the commit that
  -- the search gives for it now, and the rollup was known then and is the same, as new only where no checks
  -- are stored, and as changed where it is urgent.
  pub queue_pulls-Ordered :
      (listings : List (Text × List Fields))
      → Ordered (queue_pulls casefold collector rank listings)
        × ((p : Text → Fields → Bool)
            → length (
                select
                  (λ (item : Queued). p item.repository item.row)
                  (queue_pulls casefold collector rank listings))
              ≡ count_rows p listings)
        × All (KindFits casefold collector) (queue_pulls casefold collector rank listings)
  unfolding queue_pulls
  queue_pulls-Ordered listings =
      let items = listed casefold collector rank listings in
      (
        ByCode-Ordered (sort_queued items) (sort_queued-ByCode items),
        λ p.
            count-sort_queued (λ (item : Queued). p item.repository item.row) items
            ∙ count-listed p listings,
        All-sort_queued (KindFits casefold collector) items
            (listed-KindFits casefold collector rank listings),
      )
