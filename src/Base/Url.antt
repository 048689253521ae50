-- ===== src/Base/Url.antt =====
-- `urllib.parse.quote`: the bytes of a text's UTF-8, percent-encoded but for the safe characters.
use vibe_verifier.Base.{
  ℕ, ◌+◌, ◌/◌, ◌%◌, Bool, ◌||◌, ◌&&◌, List, [], ◌∷◌, ◌++◌, ltb, leb, eqb, if◌then◌else◌, ◌≡◌, refl,
  Bool,
}
use vibe_verifier.Base.Text.{Text, text, has}

abbrev pub utf8 : ℕ → List ℕ
utf8 c =
    if ltb c 128
    then c ∷ []
    else if ltb c 2048
    then (192 + c / 64) ∷ (128 + c % 64) ∷ []
    else if ltb c 65536
    then (224 + c / 4096) ∷ (128 + c / 64 % 64) ∷ (128 + c % 64) ∷ []
    else (240 + c / 262144) ∷ (128 + c / 4096 % 64) ∷ (128 + c / 64 % 64) ∷ (128 + c % 64) ∷ []

abbrev pub hex_digit : ℕ → ℕ
hex_digit n = if ltb n 10 then 48 + n else 55 + n

-- Letters, digits and `_.-~`
abbrev pub is_unreserved : ℕ → Bool
is_unreserved c =
    leb 97 c && leb c 122
    || leb 65 c && leb c 90
    || leb 48 c && leb c 57
    || eqb c 95
    || eqb c 46
    || eqb c 45
    || eqb c 126

module _ (safe : Text) where
  unfoldable pub quote_bytes : List ℕ → Text
  quote_bytes [] = []
  quote_bytes (b ∷ bs) =
      (if is_unreserved b || has b safe
        then b ∷ []
        else 37 ∷ hex_digit (b / 16) ∷ hex_digit (b % 16) ∷ [])
      ++ quote_bytes bs

  unfoldable pub quote : Text → Text
  unfolding quote_bytes
  quote [] = []
  quote (c ∷ s) = quote_bytes (utf8 c) ++ quote s

quoted : quote (47 ∷ []) (text "a b/c" ++ 233 ∷ []) ≡ text "a%20b/c%C3%A9"
unfolding quote text
quoted = refl
