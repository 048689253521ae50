-- ===== src/HeadState/Collect/Kinds.antt =====
-- dashboard/head_state.py, `queue_pulls`: the key and the kind of each row.
use vibe_verifier.Base.{
  ℕ, any, ◌≡◌, refl, inl, inr, Bool, true, false, Option, none, some, List, [], ◌∷◌, if◌then◌else◌,
  All, All-append, arith, Bool-cases,
}
use vibe_verifier.Base.Text.{Text}
use vibe_verifier.Base.Json.{Fields, str}
use vibe_verifier.Base.Json.Dict.{at}
use vibe_verifier.HeadState.Pull.{Head, is_same}
use vibe_verifier.HeadState.Collect.{
  Key, same_key, head_key, find_at, Stored, Collector, same_option, same_head, Kind, changed, new,
  kept, classify, Queued, queue_row, queue_rows, listed,
}

-- The checks that are stored were read at the head, and with the rollup, that the search gives now.
abbrev pub SameHead : Collector → Queued → Type 0
SameHead collector item =
    (stored : Stored) × (head : Head) × (find_at item.key collector.detail ≡ some stored)
    × (find_at item.key collector.heads ≡ some head)
    × (stored.rollup_known ≡ true)
    × (is_same stored.head_sha (some head.sha) ≡ true)
    × (same_option stored.rollup head.rollup ≡ true)

same_head-parts :
    (o : Option Stored) (h : Option Head)
    → classify o h ≡ kept
    → (stored : Stored) × (head : Head) × (o ≡ some stored)
      × (h ≡ some head)
      × (stored.rollup_known ≡ true)
      × (is_same stored.head_sha (some head.sha) ≡ true)
      × (same_option stored.rollup head.rollup ≡ true)
unfolding classify same_head
same_head-parts none h e = absurd (cc)
same_head-parts (some stored) none e = absurd (cc)
same_head-parts (some stored) (some head) e =
    (stored, head, refl, refl, ground arith, ground arith, ground arith)

-- The key of an item is of its row, and its kind fits what is stored: `kept` only where the head is the
-- same, `new` only where it was never detailed, and `changed` where its key is urgent.
abbrev pub KindFits : (Text → Text) → Collector → Queued → Type 0
KindFits casefold collector item =
    (item.key ≡ head_key casefold (str item.repository) (at "number" item.row))
    × (item.kind ≡ kept → SameHead collector item)
    × (item.kind ≡ new → find_at item.key collector.detail ≡ none)
    × ((key : Key)
        → item.key ≡ some key
        → any (same_key key) collector.urgent ≡ true
        → item.kind ≡ changed)

kept_kind : (b : Bool) (kind : Kind) → (if b then changed else kind) ≡ kept → kind ≡ kept
kept_kind true kind h = absurd (cc)
kept_kind false kind h = h

new_kind : (b : Bool) (kind : Kind) → (if b then changed else kind) ≡ new → kind ≡ new
new_kind true kind h = absurd (cc)
new_kind false kind h = h

classify-new : (o : Option Stored) (h : Option Head) → classify o h ≡ new → o ≡ none
unfolding classify same_head
classify-new none h e = refl
classify-new (some stored) h e = elim (Bool-cases (same_head (some stored) h)) [
  | inl is_kept ↦ absurd (ground arith)
  | inr differs ↦ absurd (ground arith)
]

module _ (casefold : Text → Text) (collector : Collector) (rank : List (Text × ℕ)) where
  queue_row-KindFits :
      (repository : Text) (row : Fields)
      → KindFits casefold collector (queue_row casefold collector rank repository row)
  queue_row-KindFits repository row =
      let item = queue_row casefold collector rank repository row in
      (
        refl,
        λ h.
            same_head-parts (find_at item.key collector.detail) (find_at item.key collector.heads)
              (kept_kind _ _ h),
        λ h.
            classify-new (find_at item.key collector.detail) (find_at item.key collector.heads)
              (new_kind _ _ h),
        λ key e urgent.
            let keyed : head_key casefold (str repository) (at "number" row) ≡ some key = e in
            rw (keyed, urgent) refl,
      )

  queue_rows-KindFits :
      (repository : Text) (rows : List Fields)
      → All (KindFits casefold collector) (queue_rows casefold collector rank repository rows)
  queue_rows-KindFits repository [] = tt
  queue_rows-KindFits repository (row ∷ rows) =
      (queue_row-KindFits repository row, queue_rows-KindFits repository rows)

  pub listed-KindFits :
      (listings : List (Text × List Fields))
      → All (KindFits casefold collector) (listed casefold collector rank listings)
  unfolding listed
  listed-KindFits [] = tt
  listed-KindFits ((repository, rows) ∷ listings) =
      All-append (KindFits casefold collector) (queue_rows casefold collector rank repository rows)
        (listed casefold collector rank listings) (queue_rows-KindFits repository rows)
        (listed-KindFits listings)
