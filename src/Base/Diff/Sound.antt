-- ===== src/Base/Diff/Sound.antt =====
-- Lists between which the matcher leaves nothing out compare as one list.
use vibe_verifier.Base.{
  ℕ, zero, suc, ◌+◌, ◌≤◌, ◌≡◌, inl, inr, refl, sym, ap, ◌∙◌, List, [], ◌∷◌, ◌++◌, ltb, eqb, length,
  take, drop, arith, Bool-cases,
}
use vibe_verifier.Base.Text.{Text, same_iff}
use vibe_verifier.Base.Diff.{
  Line, common, Block, longer, best_in_b, best_in_a, longest, diff_rounds, diff,
}

-- What the lines compare by
abbrev pub keys : List Line → List Text
keys [] = []
keys (a ∷ as') = a.compared ∷ keys as'

keys-append : (as' bs : List Line) → keys (as' ++ bs) ≡ keys as' ++ keys bs
keys-append [] bs = refl
keys-append (a ∷ as') bs = ap (λ (ks : List Text). a.compared ∷ ks) (keys-append as' bs)

take-drop : (n : ℕ) (as' : List Line) → take n as' ++ drop n as' ≡ as'
take-drop zero as' = refl
take-drop (suc n) [] = refl
take-drop (suc n) (a ∷ as') = ap (λ (ls : List Line). a ∷ ls) (take-drop n as')

drop-nil : (n : ℕ) → drop {A = Line} n [] ≡ []
drop-nil zero = refl
drop-nil (suc n) = refl

drop-add : (n m : ℕ) (as' : List Line) → drop m (drop n as') ≡ drop (n + m) as'
drop-add zero m as' = ground arith
drop-add (suc n) m [] = drop-nil m ∙ sym (drop-nil (suc n + m))
drop-add (suc n) m (a ∷ as') =
    let e : suc n + m ≡ suc (n + m) = omega arith in rw e (drop-add n m as')

drop-suc :
    (n : ℕ) (as' : List Line) (b : Line) (bs : List Line)
    → drop n as' ≡ b ∷ bs
    → drop (suc n) as' ≡ bs
drop-suc zero [] b bs e = ground arith
drop-suc zero (a ∷ as') b bs e = ground arith
drop-suc (suc n) [] b bs e = ground arith
drop-suc (suc n) (a ∷ as') b bs e = drop-suc n as' b bs e

-- A block is one of common lines.
unfoldable pub Matches : List Line → List Line → Block → Type 0
Matches as' bs block = block.size ≤ common (drop block.in_a as') (drop block.in_b bs)

longer-Matches :
    (as' bs : List Line) (best found : Block)
    → Matches as' bs best
    → Matches as' bs found
    → Matches as' bs (longer best found)
longer-Matches as' bs best found h k = elim (Bool-cases (ltb best.size found.size)) [
  | inl e ↦ rw e k
  | inr e ↦ rw e h
]

here :
    (as' bs : List Line) (i j : ℕ) (front back : List Line)
    → drop i as' ≡ front
    → drop j bs ≡ back
    → Matches as' bs (record { in_a = i; in_b = j; size = common front back })
unfolding Matches
here as' bs i j front back e e' = rw (e, e') (omega arith)

best_in_b-Matches :
    (as' bs : List Line) (i j : ℕ) (front back : List Line) (best : Block)
    → drop i as' ≡ front
    → drop j bs ≡ back
    → Matches as' bs best
    → Matches as' bs (best_in_b i j front back best)
unfolding best_in_b
best_in_b-Matches as' bs i j front [] best e e' h = h
best_in_b-Matches as' bs i j front (b ∷ back) best e e' h =
    best_in_b-Matches as' bs i (suc j) front back _ e (drop-suc j bs b back e') (
      longer-Matches as' bs best (record { in_a = i; in_b = j; size = common front (b ∷ back) }) h
        (here as' bs i j front (b ∷ back) e e'))

best_in_a-Matches :
    (as' bs : List Line) (i : ℕ) (front : List Line) (best : Block)
    → drop i as' ≡ front
    → Matches as' bs best
    → Matches as' bs (best_in_a i front bs best)
unfolding best_in_a
best_in_a-Matches as' bs i [] best e h = h
best_in_a-Matches as' bs i (a ∷ front) best e h =
    best_in_a-Matches as' bs (suc i) front _ (drop-suc i as' a front e)
      (best_in_b-Matches as' bs i 0 (a ∷ front) bs best e refl h)

pub longest-Matches : (as' bs : List Line) → Matches as' bs (longest as' bs)
unfolding longest Matches
longest-Matches as' bs =
    best_in_a-Matches as' bs 0 as' (record { in_a = 0; in_b = 0; size = 0 }) refl (omega arith)

keys-common :
    (n : ℕ) (as' bs : List Line) → n ≤ common as' bs → keys (take n as') ≡ keys (take n bs)
unfolding common
keys-common zero as' bs h = refl
keys-common (suc n) [] bs h = ground arith
keys-common (suc n) (a ∷ as') [] h = ground arith
keys-common (suc n) (a ∷ as') (b ∷ bs) h =
    ground (arith, keys-common n as' bs, same_iff a.compared b.compared)

pub common-length : (as' bs : List Line) → common as' bs ≤ length as'
unfolding common
common-length [] bs = omega arith
common-length (a ∷ as') [] = omega arith
common-length (a ∷ as') (b ∷ bs) = ground (arith, common-length as' bs)

-- The three parts that a block cuts a list into
parts :
    (n k : ℕ) (as' : List Line)
    → keys as' ≡ keys (take n as') ++ (keys (take k (drop n as')) ++ keys (drop (n + k) as'))
parts n k as' =
    sym (ap keys (take-drop n as'))
    ∙ keys-append (take n as') (drop n as')
    ∙ ap (λ (ks : List Text). keys (take n as') ++ ks)
        (sym (ap keys (take-drop k (drop n as')))
          ∙ keys-append (take k (drop n as')) (drop k (drop n as'))
          ∙ ap (λ (ls : List Line). keys (take k (drop n as')) ++ keys ls) (drop-add n k as'))

no_items : {A : Type 0} → (xs ys : List A) → xs ++ ys ≡ [] → (xs ≡ []) × (ys ≡ [])
no_items [] ys h = (refl, h)
no_items (x ∷ xs) ys h = ground arith

diff_rounds-keys :
    (rounds : ℕ) (as' bs : List Line)
    → (diff_rounds rounds as' bs).0 ≡ []
    → (diff_rounds rounds as' bs).1 ≡ []
    → keys as' ≡ keys bs
unfolding diff_rounds Matches
diff_rounds-keys zero as' bs h k = rw (h, k) refl
diff_rounds-keys (suc rounds) as' bs h k = elim (Bool-cases (eqb (longest as' bs).size 0)) [
  | inl e ↦ ap keys ((rw e at h) ∙ sym (rw e at k))
  | inr e ↦
      let block = longest as' bs in
      let removed = no_items _ _ (rw e at h) in
      let added = no_items _ _ (rw e at k) in
      let front =
        diff_rounds-keys rounds (take block.in_a as') (take block.in_b bs) removed.0 added.0 in
      let back =
        diff_rounds-keys rounds (drop (block.in_a + block.size) as')
          (drop (block.in_b + block.size) bs) removed.1 added.1 in
      let middle =
        keys-common block.size (drop block.in_a as') (drop block.in_b bs)
          (longest-Matches as' bs) in
      cc (parts block.in_a block.size as', parts block.in_b block.size bs, front, back, middle)
]

-- Where the matcher leaves no line out of its blocks, both lists compare as the same list.
pub diff-keys : (as' bs : List Line) → diff as' bs ≡ ([], []) → keys as' ≡ keys bs
unfolding diff
diff-keys as' bs h =
    diff_rounds-keys (length as') as' bs (ap (λ (r : List Line × List Line). r.0) h)
      (ap (λ (r : List Line × List Line). r.1) h)
