-- ===== src/Base/Text/Order.antt =====
-- Texts in the order that Python sorts them in.
use vibe_verifier.Base.{
  ◌≡◌, refl, ap, arith, any, Bool-cases, inl, inr, Bool, true, false, ◌&&◌, ◌||◌, List, [], ◌∷◌,
  ltb, eqb, if◌then◌else◌,
}
use vibe_verifier.Base.Text.{Text, same, same_iff}

-- `a < b` on texts, by code points
abbrev pub before : Text → Text → Bool
before [] [] = false
before [] (y ∷ ys) = true
before (x ∷ xs) [] = false
before (x ∷ xs) (y ∷ ys) = ltb x y || eqb x y && before xs ys

-- `sorted({...})`: each text once, in order
abbrev pub put : Text → List Text → List Text
put name [] = name ∷ []
put name (other ∷ names) =
    let rest = put name names in
    if same name other
    then other ∷ names
    else if before name other
    then name ∷ other ∷ names
    else other ∷ rest

unfoldable pub sorted_set : List Text → List Text
sorted_set [] = []
sorted_set (name ∷ names) = put name (sorted_set names)

any-put :
    (p : Text → Bool) (name : Text) (names : List Text)
    → any p (put name names) ≡ (p name || any p names)
any-put p name [] = refl
any-put p name (other ∷ names) = elim (Bool-cases (same name other)) [
  | inl e ↦
      let equal : name ≡ other = (same_iff name other).0 e in rw e (ground (arith, ap p equal))
  | inr e ↦ rw e (ground (arith, any-put p name names))
]

-- A sorted set has the items of the list.
pub any-sorted_set : (p : Text → Bool) (names : List Text) → any p (sorted_set names) ≡ any p names
unfolding sorted_set
any-sorted_set p [] = refl
any-sorted_set p (name ∷ names) =
    rw (any-put p name (sorted_set names)) (rw (any-sorted_set p names) refl)
