-- ===== src/Base/Diff/Rounds.antt =====
-- As many rounds as the first list has lines are enough: another one changes nothing.
use vibe_verifier.Base.{
  ℕ, zero, suc, ◌+◌, ◌≤◌, ◌≡◌, ◌⊎◌, inl, inr, refl, false, List, [], ◌∷◌, eqb, eqb_iff, length,
  take, drop, arith, Bool-cases,
}
use vibe_verifier.Base.Diff.{Line, longest, diff_rounds}
use vibe_verifier.Base.Diff.Sound.{Matches, longest-Matches, common-length}

length-take : (n : ℕ) (as' : List Line) → length (take n as') ≤ n
length-take zero as' = omega arith
length-take (suc n) [] = omega arith
length-take (suc n) (a ∷ as') = omega (arith, length-take n as')

length-drop : (n : ℕ) (as' : List Line) → (length (drop n as') + n ≤ length as') ⊎ (drop n as' ≡ [])
length-drop zero as' = inl (omega arith)
length-drop (suc n) [] = inr refl
length-drop (suc n) (a ∷ as') = elim (length-drop n as') [
  | inl h ↦ inl (omega (arith, h))
  | inr h ↦ inr h
]

start_inside :
    (rest : List Line) (n total : ℕ)
    → 1 ≤ length rest
    → (length rest + n ≤ total) ⊎ (rest ≡ [])
    → length rest + n ≤ total
start_inside rest n total h (inl k) = k
start_inside [] n total h (inr k) = omega (arith, h)
start_inside (a ∷ rest) n total h (inr k) = ground arith

-- A block takes a line of `a` at least, so both rests are shorter.
block_shortens :
    (rounds : ℕ) (as' bs : List Line)
    → eqb (longest as' bs).size 0 ≡ false
    → length as' ≤ suc rounds
    → ((longest as' bs).in_a ≤ rounds)
      × (length (drop ((longest as' bs).in_a + (longest as' bs).size) as') ≤ rounds)
unfolding Matches
block_shortens rounds as' bs some_block sized =
    let block = longest as' bs in
    let shared = longest-Matches as' bs in
    let fits = common-length (drop block.in_a as') (drop block.in_b bs) in
    let positive : 1 ≤ block.size = ground (arith, eqb_iff block.size 0) in
    let starts : length (drop block.in_a as') + block.in_a ≤ length as' =
      start_inside (drop block.in_a as') block.in_a (length as')
        (omega (arith, shared, fits, positive)) (length-drop block.in_a as') in
    (
      omega (arith, starts, shared, fits, positive, sized),
      elim (length-drop (block.in_a + block.size) as') [
        | inl h ↦ omega (arith, h, positive, sized)
        | inr h ↦ rw h (omega arith)
      ],
    )

-- Another round changes nothing.
pub diff_rounds-enough :
    (rounds : ℕ) (as' bs : List Line)
    → length as' ≤ rounds
    → diff_rounds (suc rounds) as' bs ≡ diff_rounds rounds as' bs
unfolding diff_rounds
diff_rounds-enough zero [] bs h = refl
diff_rounds-enough zero (a ∷ as') bs h = ground (arith, h)
diff_rounds-enough (suc rounds) as' bs h = elim (Bool-cases (eqb (longest as' bs).size 0)) [
  | inl e ↦ rw e refl
  | inr e ↦
      let block = longest as' bs in
      let shorter = block_shortens rounds as' bs e h in
      let front =
        diff_rounds-enough rounds (take block.in_a as') (take block.in_b bs)
          (omega (arith, length-take block.in_a as', shorter.0)) in
      let back =
        diff_rounds-enough rounds (drop (block.in_a + block.size) as')
          (drop (block.in_b + block.size) bs) shorter.1 in
      rw (e, front, back) refl
]
