-- ===== src/Base/Text.antt =====
-- Python's `str` where the program walks its characters: the list of its code points.
pub mod Has
pub mod Order
use Prim.Native.Char.{code}
use vibe_verifier.Base.{
  ℕ, zero, suc, ◌+◌, ◌/◌, ◌%◌, String, ◌≡◌, refl, ◌↔◌, Bool, true, false, ◌&&◌, ◌||◌, List, [], ◌∷◌,
  ◌++◌, arith, leb, eqb, eqb_iff, if◌then◌else◌, is_empty,
}

abbrev pub Text : Type 0
Text = List ℕ

-- A literal. It is shut, so that a proof does not spell messages out.
unfoldable pub text : String → Text
text String.[] = []
text (String.◌∷◌ c s) = code c ∷ text s

-- `a == b`
abbrev pub same : Text → Text → Bool
same [] [] = true
same [] (y ∷ ys) = false
same (x ∷ xs) [] = false
same (x ∷ xs) (y ∷ ys) = eqb x y && same xs ys

-- `c in s`, for one character
abbrev pub has : ℕ → Text → Bool
has c [] = false
has c (x ∷ xs) = eqb x c || has c xs

-- `s.startswith(p)`
abbrev pub starts_with : Text → Text → Bool
starts_with s [] = true
starts_with [] (y ∷ ys) = false
starts_with (x ∷ xs) (y ∷ ys) = eqb x y && starts_with xs ys

-- `p in s`
abbrev pub within : Text → Text → Bool
within p [] = is_empty p
within p (c ∷ s) = starts_with (c ∷ s) p || within p s

-- `s.replace(c, w)`, for one character
unfoldable pub replace : ℕ → Text → Text → Text
replace c w [] = []
replace c w (x ∷ xs) = (if eqb x c then w else x ∷ []) ++ replace c w xs

-- `sep.join(parts)`
unfoldable pub join : Text → List Text → Text
join sep [] = []
join sep (p ∷ []) = p
join sep (p ∷ q ∷ ps) = p ++ sep ++ join sep (q ∷ ps)

-- `str.isspace` of one character
unfoldable pub is_space : ℕ → Bool
is_space c =
    leb 9 c && leb c 13
    || leb 28 c && leb c 32
    || eqb c 133
    || eqb c 160
    || eqb c 5760
    || leb 8192 c && leb c 8202
    || eqb c 8232
    || eqb c 8233
    || eqb c 8239
    || eqb c 8287
    || eqb c 12288

-- What `str.splitlines` breaks a line at.
unfoldable pub is_break : ℕ → Bool
is_break c = leb 10 c && leb c 13 || leb 28 c && leb c 30 || eqb c 133 || eqb c 8232 || eqb c 8233

-- A word that ends is kept if it has a character.
abbrev pub keep_word : Text → List Text → List Text
keep_word [] ws = ws
keep_word (c ∷ cs) ws = (c ∷ cs) ∷ ws

-- `s.split()`; `word` holds what the loop has read of the current word.
unfoldable pub words_from : Text → Text → List Text
words_from word [] = keep_word word []
words_from word (c ∷ s) =
    let apart = keep_word word (words_from [] s) in
    let on = words_from (word ++ c ∷ []) s in if is_space c then apart else on

unfoldable pub words : Text → List Text
unfolding words_from is_space
words s = words_from [] s

-- `s.split(sep)`, for one character; never empty.
unfoldable pub split_from : ℕ → Text → Text → List Text
split_from sep part [] = part ∷ []
split_from sep part (c ∷ s) =
    let apart = part ∷ split_from sep [] s in
    let on = split_from sep (part ++ c ∷ []) s in if eqb c sep then apart else on

unfoldable pub split : ℕ → Text → List Text
unfolding split_from
split sep s = split_from sep [] s

-- `s.splitlines()`: a carriage return and the line feed behind it are one break, and a break at the
-- end opens no line. `after_cr` says that the last character was a carriage return.
unfoldable pub lines_from : (ℕ → Bool) → Text → Bool → Text → List Text
lines_from breaks line after_cr [] = if is_empty line then [] else line ∷ []
lines_from breaks line after_cr (c ∷ s) =
    let same_break = lines_from breaks [] false s in
    let apart = line ∷ lines_from breaks [] (eqb c 13) s in
    let on = lines_from breaks (line ++ c ∷ []) false s in
    if after_cr && eqb c 10 then same_break else if breaks c then apart else on

unfoldable pub splitlines : Text → List Text
unfolding lines_from is_break
splitlines s = lines_from is_break [] false s

-- The lines of a file that is read as text, without their ends: Python breaks it at line feeds and
-- carriage returns alone.
unfoldable pub file_lines : Text → List Text
unfolding lines_from
file_lines s = lines_from (λ c. eqb c 10 || eqb c 13) [] false s

-- `s.strip()`
unfoldable pub lstrip : Text → Text
unfolding is_space
lstrip [] = []
lstrip (c ∷ s) = let rest = lstrip s in if is_space c then rest else c ∷ s

unfoldable pub rstrip : Text → Text
unfolding is_space
rstrip [] = []
rstrip (c ∷ s) = let rest = rstrip s in if is_empty rest && is_space c then [] else c ∷ rest

unfoldable pub strip : Text → Text
unfolding lstrip rstrip
strip s = rstrip (lstrip s)

-- `"%d" % n`: a number has at most as many digits as its value and one.
unfoldable pub decimal_loop : ℕ → ℕ → Text → Text
decimal_loop zero n acc = acc
decimal_loop (suc fuel) n acc =
    let digits = (48 + n % 10) ∷ acc in
    let more = decimal_loop fuel (n / 10) digits in if leb n 9 then digits else more

unfoldable pub decimal : ℕ → Text
unfolding decimal_loop
decimal n = decimal_loop (n + 1) n []

pub same_iff : (a b : Text) → (same a b ≡ true) ↔ (a ≡ b)
same_iff [] [] = (λ _. refl, λ _. refl)
same_iff [] (y ∷ ys) = (λ h. cc, λ h. cc)
same_iff (x ∷ xs) [] = (λ h. cc, λ h. cc)
same_iff (x ∷ xs) (y ∷ ys) = ground (arith, same_iff xs ys, eqb_iff x y)

pub starts_with-append : (s t : Text) → starts_with (s ++ t) s ≡ true
starts_with-append [] t = refl
starts_with-append (c ∷ s) t = ground (arith, starts_with-append s t, eqb_iff c c)
