-- ===== src/Contract/Escape/Decode.antt =====
-- The runner that reads a workflow command gets back the text that was escaped.
use vibe_verifier.Base.{
  ℕ, zero, suc, ◌≡◌, refl, ap, ◌∙◌, [], ◌∷◌, ◌++◌, arith, eqb, if◌then◌else◌, eqb_iff,
}
use vibe_verifier.Base.Text.{Text, text, starts_with, replace}
use vibe_verifier.Contract.Escape.{esc_data}

-- How the Actions runner decodes a command's data; the counter is what is still skipped.
pub unescape : ℕ → Text → Text
unescape n [] = []
unescape (suc n) (c ∷ s) = unescape n s
unescape zero (c ∷ s) =
    let itself = c ∷ unescape 0 s in
    if starts_with (c ∷ s) (37 ∷ 50 ∷ 53 ∷ [])
    then 37 ∷ unescape 2 s
    else if starts_with (c ∷ s) (37 ∷ 48 ∷ 68 ∷ [])
    then 13 ∷ unescape 2 s
    else if starts_with (c ∷ s) (37 ∷ 48 ∷ 65 ∷ [])
    then 10 ∷ unescape 2 s
    else itself

-- What the three replacements make of one character.
abbrev esc_char : ℕ → Text
esc_char c =
    if eqb c 37
    then 37 ∷ 50 ∷ 53 ∷ []
    else if eqb c 13
    then 37 ∷ 48 ∷ 68 ∷ []
    else if eqb c 10
    then 37 ∷ 48 ∷ 65 ∷ []
    else c ∷ []

esc_data-cons : (c : ℕ) (s : Text) → esc_data (c ∷ s) ≡ esc_char c ++ esc_data s
unfolding esc_data replace text
esc_data-cons c s = ground (arith, eqb_iff c 37, eqb_iff c 13, eqb_iff c 10)

unescape-esc_char : (c : ℕ) (s : Text) → unescape 0 (esc_char c ++ s) ≡ c ∷ unescape 0 s
unfolding unescape
unescape-esc_char c s = ground (arith, eqb_iff c 37, eqb_iff c 13, eqb_iff c 10)

-- Decoding the escaped text gives the text back, whatever it holds: nothing of a message is lost
-- or confused with another message.
pub unescape-esc_data : (s : Text) → unescape 0 (esc_data s) ≡ s
unescape-esc_data [] = unfold unescape esc_data replace in refl
unescape-esc_data (c ∷ s) =
    ap (unescape 0) (esc_data-cons c s)
    ∙ unescape-esc_char c (esc_data s)
    ∙ ap (λ t. c ∷ t) (unescape-esc_data s)
