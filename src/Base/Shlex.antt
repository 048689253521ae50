-- ===== src/Base/Shlex.antt =====
-- `shlex.split(text, comments=True)`, the standard library's POSIX word splitter: blanks part words,
-- `#` outside quotes opens a comment, quotes hide blanks, a backslash escapes a character.
use vibe_verifier.Base.{
  ℕ, Bool, true, false, ◌&&◌, ◌||◌, List, [], ◌∷◌, ◌++◌, Option, none, some, eqb, if◌then◌else◌,
  map, ◌≡◌, refl,
}
use vibe_verifier.Base.Text.{Text, text}
use mathlib.Core.Option

-- shlex's `state`: between words, in a word, in quotes by a character, behind a backslash with the
-- state to go back to, in a comment.
pub data Mode : Type 0 where
  between : Mode
  in_word : Mode
  in_quotes : ℕ → Mode
  escaped : Mode
  escaped_in : ℕ → Mode
  in_comment : Mode

unfoldable pub is_blank : ℕ → Bool
is_blank c = eqb c 32 || eqb c 9 || eqb c 13 || eqb c 10

unfoldable pub is_quote : ℕ → Bool
is_quote c = eqb c 39 || eqb c 34

-- A token that ends is a word if it has a character or had quotes.
abbrev pub finish : Text → Bool → List Text → List Text
finish [] false ws = ws
finish [] true ws = [] ∷ ws
finish (c ∷ cs) quoted ws = (c ∷ cs) ∷ ws

-- The state after one character, its token and whether it had quotes; `true` behind them says that
-- a token ended.
pub record Reader : Type 0 where
  pub mode : Mode
  pub token : Text
  pub quoted : Bool
  pub ended : Bool

abbrev reading : Mode → Text → Bool → Reader
reading m t q = record { mode = m; token = t; quoted = q; ended = false }

abbrev ending : Mode → Text → Bool → Reader
ending m t q = record { mode = m; token = t; quoted = q; ended = true }

unfoldable pub read_char : Mode → Text → Bool → ℕ → Reader
unfolding is_blank is_quote
read_char between t q c =
    if is_blank c
    then reading between t q
    else if eqb c 35
    then reading in_comment t q
    else if eqb c 92
    then reading escaped t q
    else if is_quote c
    then reading (in_quotes c) t q
    else reading in_word (c ∷ []) q
read_char in_word t q c =
    if is_blank c
    then ending between t q
    else if eqb c 35
    then ending in_comment t q
    else if is_quote c
    then reading (in_quotes c) t q
    else if eqb c 92
    then reading escaped t q
    else reading in_word (t ++ c ∷ []) q
read_char (in_quotes d) t q c =
    if eqb c d
    then reading in_word t true
    else if eqb c 92 && eqb d 34
    then reading (escaped_in d) t true
    else reading (in_quotes d) (t ++ c ∷ []) true
read_char escaped t q c = reading in_word (t ++ c ∷ []) q
read_char (escaped_in d) t q c =
    reading (in_quotes d) (t ++ (if eqb c 92 || eqb c d then c ∷ [] else 92 ∷ c ∷ [])) q
read_char in_comment t q c = reading (if eqb c 10 then between else in_comment) t q

-- The words, or none where the text ends in quotes or behind a backslash (a ValueError).
unfoldable pub split_loop : Mode → Text → Bool → Text → Option (List Text)
unfolding read_char
split_loop between t q [] = some (finish t q [])
split_loop in_word t q [] = some (finish t q [])
split_loop in_comment t q [] = some (finish t q [])
split_loop _ t q [] = none
split_loop m t q (c ∷ s) =
    let r = read_char m t q c in
    let apart = Option.map (finish r.token r.quoted) (split_loop r.mode [] false s) in
    let on = split_loop r.mode r.token r.quoted s in if r.ended then apart else on

unfoldable pub shlex_split : Text → Option (List Text)
unfolding split_loop
shlex_split s = split_loop between [] false s

mixed :
    shlex_split (text "a 'b c'\"d\"  -- \\# e#f")
    ≡ some (map text ("a" ∷ "b cd" ∷ "--" ∷ "#" ∷ "e" ∷ []))
unfolding shlex_split text
mixed = refl

unclosed : shlex_split (text "a 'b") ≡ none
unfolding shlex_split text
unclosed = refl
