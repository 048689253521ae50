-- ===== src/SuiteScope/InertList/Lexing.antt =====
-- A list line without a lexical fault is read by shlex as it is written.
use vibe_verifier.Base.{
  ℕ, ◌≡◌, refl, Bool, true, false, ◌&&◌, none, some, List, [], ◌∷◌, ◌++◌, arith, eqb, eqb_iff,
  if◌then◌else◌, any,
}
use vibe_verifier.Base.Text.{Text, has}
use vibe_verifier.Base.Shlex.{
  between, in_word, in_comment, split_loop, finish, read_char, is_quote, is_blank, shlex_split,
}
use vibe_verifier.SuiteScope.InertList.{fault_from, lexical_fault}

-- The words between blanks, up to a `#` that stands at the start or behind a blank; no character has
-- another meaning.
unfoldable pub blank_words : Text → Bool → Text → List Text
blank_words word at_start [] = finish word false []
blank_words word at_start (c ∷ s) =
    let stopped = finish word false [] in
    let apart = finish word false (blank_words [] true s) in
    let on = blank_words (word ++ c ∷ []) false s in
    if eqb c 35 && at_start then stopped else if is_blank c then apart else on

abbrev has_quote : Text → Bool
has_quote = any is_quote

comment_ends : (s : Text) → has 10 s ≡ false → split_loop in_comment [] false s ≡ some []
unfolding split_loop read_char
comment_ends [] h = refl
comment_ends (c ∷ s) h = ground (arith, comment_ends s)

mutual
  unfolding split_loop read_char fault_from blank_words

  words_between :
      (s : Text) (p : ℕ)
      → is_blank p ≡ true
      → fault_from none p s ≡ none
      → has_quote s ≡ false
      → has 10 s ≡ false
      → split_loop between [] false s ≡ some (blank_words [] true s)
  words_between [] p b f q h = refl
  words_between (c ∷ s) p b f q h = ground (
    arith,
    words_between s c,
    words_within s c (c ∷ []),
    comment_ends s,
    eqb_iff c 35,
    eqb_iff c 92,
  )

  words_within :
      (s : Text) (p : ℕ) (word : Text)
      → is_blank p ≡ false
      → fault_from none p s ≡ none
      → has_quote s ≡ false
      → has 10 s ≡ false
      → split_loop in_word word false s ≡ some (blank_words word false s)
  words_within [] p word b f q h = refl
  words_within (c ∷ s) p word b f q h =
      ground
        (arith, words_between s c, words_within s c (word ++ c ∷ []), eqb_iff c 35, eqb_iff c 92)

-- Of a line without quotes and line feeds in which `lexical_fault` finds nothing, shlex takes the words
-- between blanks as they are written, up to a comment.
pub shlex_split-literal :
    (raw : Text)
    → lexical_fault raw ≡ none
    → any is_quote raw ≡ false
    → has 10 raw ≡ false
    → shlex_split raw ≡ some (blank_words [] true raw)
unfolding lexical_fault shlex_split
shlex_split-literal raw f q h = words_between raw 32 refl f q h
