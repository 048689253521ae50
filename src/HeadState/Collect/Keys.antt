-- ===== src/HeadState/Collect/Keys.antt =====
-- dashboard/head_state.py, `head_key`: dicts with keys of repository and number.
use vibe_verifier.Base.{
  ◌≡◌, refl, sym, ap, subst, inl, inr, Bool, true, false, Option, none, some, List, [], ◌∷◌, any,
  All, All-map, arith, Bool-cases, eqb_iff,
}
use vibe_verifier.Base.Text.{Text, same, same_iff}
use vibe_verifier.HeadState.Pull.{Head}
use vibe_verifier.HeadState.Collect.{Key, Number, from, below, same_key, same_number, find}

pub same_refl : (s : Text) → same s s ≡ true
same_refl s = (same_iff s s).1 refl

pub same_number_refl : (n : Number) → same_number n n ≡ true
same_number_refl (from n) = (eqb_iff n n).1 refl
same_number_refl (below n) = (eqb_iff n n).1 refl

pub same_key_refl : (k : Key) → same_key k k ≡ true
same_key_refl k = ground (arith, same_refl k.repository, same_number_refl k.number)

pub same_number-eq : (n m : Number) → same_number n m ≡ true → n ≡ m
same_number-eq (from n) (from m) h = ap from ((eqb_iff n m).0 h)
same_number-eq (from n) (below m) h = absurd (cc)
same_number-eq (below n) (from m) h = absurd (cc)
same_number-eq (below n) (below m) h = ap below ((eqb_iff n m).0 h)

pub same_key-eq : (k j : Key) → same_key k j ≡ true → k ≡ j
same_key-eq k j h =
    let names : k.repository ≡ j.repository =
      (same_iff k.repository j.repository).0 (ground arith) in
    let numbers : k.number ≡ j.number = same_number-eq k.number j.number (ground arith) in
    λ i. record { repository = names i; number = numbers i }

abbrev pub is_some : {A : Type 0} → Option A → Bool
is_some none = false
is_some (some a) = true

pub any_gives :
    {A : Type 0}
    → (p : A → Bool) (Q : Type 0) (xs : List A) → All (λ x. p x ≡ true → Q) xs
    → any p xs ≡ true
    → Q
any_gives p Q [] h k = absurd (cc)
any_gives p Q (x ∷ xs) h k = elim (Bool-cases (p x)) [
  | inl e ↦ h.0 e
  | inr e ↦ any_gives p Q xs h.1 (rw e at k)
]

pub same_bool : (a b : Bool) → (a ≡ true → b ≡ true) → (b ≡ true → a ≡ true) → a ≡ b
same_bool true b f g = sym (f refl)
same_bool false true f g = g refl
same_bool false false f g = refl

pub find_later :
    (key k : Key) (head : Head) (more : List (Key × Head))
    → is_some (find key more) ≡ true
    → is_some (find key ((k, head) ∷ more)) ≡ true
find_later key k head more h = ground arith

pub find_self :
    (heads : List (Key × Head))
    → All (λ (entry : Key × Head). is_some (find entry.0 heads) ≡ true) heads
find_self [] = tt
find_self ((k, head) ∷ more) = (
  rw (same_key_refl k) refl,
  All-map (λ (entry : Key × Head). is_some (find entry.0 more) ≡ true)
      (λ (entry : Key × Head). is_some (find entry.0 ((k, head) ∷ more)) ≡ true)
      (λ entry h. find_later entry.0 k head more h) more (find_self more),
)

pub at_found :
    (P : Key → Type 0) (key : Key) (heads : List (Key × Head))
    → All (λ (entry : Key × Head). P entry.0) heads
    → is_some (find key heads) ≡ true
    → P key
at_found P key [] h k = absurd (cc)
at_found P key ((j, head) ∷ more) h k = elim (Bool-cases (same_key key j)) [
  | inl e ↦ subst P (sym (same_key-eq key j e)) h.0
  | inr e ↦ at_found P key more h.1 (rw e at k)
]
