-- ===== src/Base/Text/Has.antt =====
-- Which characters the operations on texts can give.
use vibe_verifier.Base.{
  ℕ, zero, suc, ◌+◌, ◌/◌, ◌%◌, ◌<◌, ◌≡◌, refl, false, ◌||◌, List, [], ◌∷◌, ◌++◌, arith, eqb_iff,
  All,
}
use vibe_verifier.Base.Text.{Text, has, replace, join, decimal_loop, decimal}

pub has-append : (c : ℕ) (xs ys : Text) → has c (xs ++ ys) ≡ (has c xs || has c ys)
has-append c [] ys = refl
has-append c (x ∷ xs) ys = ground (arith, has-append c xs ys)

pub has-append_of :
    (c : ℕ) (xs ys : Text) → has c xs ≡ false → has c ys ≡ false → has c (xs ++ ys) ≡ false
has-append_of c xs ys hx hy = ground (arith, has-append c xs ys)

-- A replaced character is gone where its replacement lacks it.
pub has-replace_self : (c : ℕ) (w s : Text) → has c w ≡ false → has c (replace c w s) ≡ false
unfolding replace
has-replace_self c w [] h = refl
has-replace_self c w (x ∷ s) h = ground (
  arith,
  has-append c w (replace c w s),
  has-append c (x ∷ []) (replace c w s),
  has-replace_self c w s h,
)

-- A replacement brings no other character than its own.
pub has-replace_other :
    (d c : ℕ) (w s : Text) → has d w ≡ false → has d s ≡ false → has d (replace c w s) ≡ false
unfolding replace
has-replace_other d c w [] h k = refl
has-replace_other d c w (x ∷ s) h k = ground (
  arith,
  has-append d w (replace c w s),
  has-append d (x ∷ []) (replace c w s),
  has-replace_other d c w s h,
)

pub has-join :
    (c : ℕ) (sep : Text) (ps : List Text)
    → has c sep ≡ false
    → All (λ p. has c p ≡ false) ps
    → has c (join sep ps) ≡ false
unfolding join
has-join c sep [] h k = refl
has-join c sep (p ∷ []) h k = k.0
has-join c sep (p ∷ q ∷ ps) h k =
    has-append_of c (p ++ sep) (join sep (q ∷ ps)) (has-append_of c p sep k.0 h)
      (has-join c sep (q ∷ ps) h k.1)

has-decimal_loop :
    (c fuel n : ℕ) (acc : Text)
    → c < 48
    → has c acc ≡ false
    → has c (decimal_loop fuel n acc) ≡ false
unfolding decimal_loop
has-decimal_loop c zero n acc h k = k
has-decimal_loop c (suc fuel) n acc h k =
    ground
      (arith, eqb_iff (48 + n % 10) c, has-decimal_loop c fuel (n / 10) ((48 + n % 10) ∷ acc) h)

-- A number is written with digits alone.
pub has-decimal : (c n : ℕ) → c < 48 → has c (decimal n) ≡ false
unfolding decimal
has-decimal c n h = has-decimal_loop c (n + 1) n [] h refl
