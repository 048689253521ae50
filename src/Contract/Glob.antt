-- ===== src/Contract/Glob.antt =====
-- gates/_contract.py, `glob_to_regex` and `matches`: a glob is compiled to the parts of a regular
-- expression, which Python's `re` matches.
pub mod Segments
use vibe_verifier.Base.{
  ℕ, zero, suc, Bool, true, false, not, ◌&&◌, ◌||◌, List, [], ◌∷◌, ◌++◌, eqb, if◌then◌else◌, any,
  is_empty, map,
}
use vibe_verifier.Base.Text.{Text, text, starts_with}

-- `(?:.*/)?`, `.*`, `[^/]*`, `[^/]` and an escaped character.
pub data Part : Type 0 where
  dirs : Part
  anything : Part
  segment : Part
  one : Part
  lit : ℕ → Part

-- The loop of `glob_to_regex`; the counter is what `i` still skips.
unfoldable pub compile : ℕ → Text → List Part
compile n [] = []
compile (suc n) (c ∷ s) = compile n s
compile zero (c ∷ s) =
    let any_dirs = dirs ∷ compile 2 s in
    let any_text = anything ∷ compile 1 s in
    let in_segment = segment ∷ compile 0 s in
    let one_char = one ∷ compile 0 s in
    let itself = lit c ∷ compile 0 s in
    if starts_with (c ∷ s) (42 ∷ 42 ∷ 47 ∷ [])
    then any_dirs
    else if starts_with (c ∷ s) (42 ∷ 42 ∷ [])
    then any_text
    else if eqb c 42
    then in_segment
    else if eqb c 63
    then one_char
    else itself

unfoldable pub glob_to_regex : Text → List Part
unfolding compile
glob_to_regex = compile 0

-- `.` is any character but a line feed.
abbrev pub is_dot : ℕ → Bool
is_dot c = not (eqb c 10)

abbrev pub not_slash : ℕ → Bool
not_slash c = not (eqb c 47)

-- One character that passes `test`, then the rest of the expression.
unfoldable pub step : (ℕ → Bool) → (Text → Bool) → Text → Bool
step test rest [] = false
step test rest (c ∷ s) = test c && rest s

-- Any number of characters that pass `test`, then the rest.
unfoldable pub star : (ℕ → Bool) → (Text → Bool) → Text → Bool
star test rest [] = rest []
star test rest (c ∷ s) = rest (c ∷ s) || test c && star test rest s

-- `.*/`, then the rest.
unfoldable pub through_slash : (Text → Bool) → Text → Bool
through_slash rest [] = false
through_slash rest (c ∷ s) = eqb c 47 && rest s || is_dot c && through_slash rest s

-- The expression from a position on; `finish` is what its end asks of what is left.
unfoldable pub accepts : (Text → Bool) → List Part → Text → Bool
unfolding step star through_slash
accepts finish [] s = finish s
accepts finish (dirs ∷ ps) s = accepts finish ps s || through_slash (accepts finish ps) s
accepts finish (anything ∷ ps) s = star is_dot (accepts finish ps) s
accepts finish (segment ∷ ps) s = star not_slash (accepts finish ps) s
accepts finish (one ∷ ps) s = step not_slash (accepts finish ps) s
accepts finish (lit c ∷ ps) s = step (λ x. eqb x c) (accepts finish ps) s

-- `$` matches at the end and before a line feed that ends the text.
abbrev pub at_dollar : Text → Bool
at_dollar [] = true
at_dollar (c ∷ s) = eqb c 10 && is_empty s

-- `regex.match(path)` and `regex.fullmatch(path)`
unfoldable pub regex_match : List Part → Text → Bool
unfolding accepts
regex_match = accepts at_dollar

unfoldable pub regex_fullmatch : List Part → Text → Bool
unfolding accepts
regex_fullmatch = accepts is_empty

unfoldable pub matches : Text → List Text → Bool
unfolding glob_to_regex regex_match
matches path = any (λ glob. regex_match (glob_to_regex glob) path)

-- The stem between what a Python test file's name has before and behind it, in `PY_TEST_NAMES`.
abbrev pub py_tests : List Text
py_tests =
    map text
      ("**/test_*.py" ∷ "**/*_test.py" ∷ "**/test-*.py" ∷ "**/*-test.py" ∷ "**/*.test.py" ∷ [])
