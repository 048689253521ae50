-- ===== src/SuiteScope/InertList.antt =====
-- actions/suite-scope/suite_scope.py, the inert list: its lines, and the paths that it holds.
pub mod Never
pub mod Lexing
use vibe_verifier.Base.{
  ℕ, zero, suc, ◌+◌, Bool, true, false, not, ◌&&◌, ◌||◌, Option, none, some, List, [], ◌∷◌, ◌++◌,
  Result, ok, err, ◌>>=◌, eqb, if◌then◌else◌, any, is_empty,
}
use vibe_verifier.Base.Text.{
  Text, text, same, has, starts_with, splitlines, strip, split, decimal, is_space,
}
use vibe_verifier.Base.Shlex.{shlex_split, is_quote, is_blank}
use vibe_verifier.Contract.Glob.{Part, glob_to_regex, regex_fullmatch}

abbrev pub backslash_fault : Text
backslash_fault = text "a backslash, which shlex would read as an escape and drop"

abbrev pub hash_fault : Text
hash_fault =
    text
      "a `#` inside a pattern, which would start a comment there (quote the pattern, or put a space "
    ++ text "before the comment)"

-- The loop of `lexical_fault`: the open quote, and the character before.
unfoldable pub fault_from : Option ℕ → ℕ → Text → Option Text
unfolding is_quote is_blank
fault_from quote previous [] = none
fault_from (some q) previous (c ∷ s) =
    let rest = fault_from (if eqb c q then none else some q) c s in
    if eqb c 92 then some backslash_fault else rest
fault_from none previous (c ∷ s) =
    let opened = fault_from (some c) c s in
    let rest = fault_from none c s in
    if eqb c 92
    then some backslash_fault
    else if is_quote c
    then opened
    else if eqb c 35
    then (if is_blank previous then none else some hash_fault)
    else rest

-- `lexical_fault`
unfoldable pub lexical_fault : Text → Option Text
unfolding fault_from
lexical_fault raw = fault_from none 32 raw

-- `raise Malformed(...)`
abbrev pub Malformed : Type 0
Malformed = Text

unfoldable pub ends_with_slash : Text → Bool
ends_with_slash [] = false
ends_with_slash (c ∷ []) = eqb c 47
ends_with_slash (c ∷ d ∷ s) = ends_with_slash (d ∷ s)

abbrev pub without_bang : Text → Text
without_bang [] = []
without_bang (c ∷ s) = if eqb c 33 then s else c ∷ s

-- `pattern_of`
unfoldable pub pattern_of : Text → Text → Text → Result Malformed Text
unfolding ends_with_slash is_space
pattern_of word line_name line =
    let pattern = without_bang word in
    if starts_with pattern (47 ∷ []) || ends_with_slash pattern
    then err (
        line_name
        ++ text
            ": a pattern starts at the repository root with no leading or trailing `/` (a directory "
        ++ text "is `dir/**`): "
        ++ line)
    else if any (λ c. has c (91 ∷ 93 ∷ 123 ∷ 125 ∷ [])) pattern
    then err (
        line_name
        ++ text
            ": a pattern holds `[`, `]`, `{` or `}`, which match only themselves here, not a set of "
        ++ text "names: "
        ++ line)
    else if any (λ c. is_space c && not (eqb c 32)) pattern
    then err (line_name ++ text ": a pattern holds whitespace other than a space: " ++ line)
    else ok pattern

-- The compiled patterns of a list, the `!` lines apart.
pub record Patterns : Type 0 where
  pub inert : List (List Part)
  pub never : List (List Part)

-- What one pattern adds in front of the patterns of the lines below it
unfoldable pub add_pattern : Text → Text → Patterns → Patterns
unfolding glob_to_regex
add_pattern word pattern rest =
    if starts_with word (33 ∷ [])
    then record rest {
      never = glob_to_regex pattern ∷ glob_to_regex (pattern ++ text "/**") ∷ rest.never;
    }
    else record rest { inert = glob_to_regex pattern ∷ rest.inert }

-- The words of one line: none is skipped, one is a pattern, and more are malformed.
abbrev pub take_words : List Text → Text → Text → Patterns → Result Malformed Patterns
take_words [] line_name line rest = ok rest
take_words (word ∷ []) line_name line rest =
    if is_empty word || same word (33 ∷ [])
    then err (line_name ++ text " is not one pattern (quote a path that holds a space): " ++ line)
    else pattern_of word line_name line >>= λ pattern. ok (add_pattern word pattern rest)
take_words (word ∷ next ∷ more) line_name line rest =
    err (line_name ++ text " is not one pattern (quote a path that holds a space): " ++ line)

abbrev pub line_words : Text → Text → Result Malformed (List Text)
line_words line_name raw = elim (lexical_fault raw) [
  | some fault ↦ err (line_name ++ text " has " ++ fault ++ text ": " ++ strip raw)
  | none ↦ elim (shlex_split raw) [
    | some words ↦ ok words
    | none ↦ err (line_name ++ text ": No closing quotation")
  ]
]

-- The first of two results that raised, in the order of the lines
abbrev pub then_line :
    Result Malformed (List Text)
    → Text
    → Text
    → Result Malformed Patterns
    → Result Malformed Patterns
then_line (err why) line_name line rest = err why
then_line (ok words) line_name line (ok rest) = take_words words line_name line rest
then_line (ok words) line_name line (err why) =
    take_words words line_name line (record { inert = []; never = [] }) >>= λ _. err why

-- The loop of `parse_list`
unfoldable pub parse_lines : ℕ → List Text → Result Malformed Patterns
unfolding lexical_fault shlex_split pattern_of add_pattern
parse_lines number [] = ok (record { inert = []; never = [] })
parse_lines number (raw ∷ lines) =
    let line_name = text "line " ++ decimal number in
    then_line (line_words line_name raw) line_name (strip raw) (parse_lines (suc number) lines)

-- `text.lstrip("\ufeff")`
unfoldable pub strip_marks : Text → Text
strip_marks [] = []
strip_marks (c ∷ s) = let rest = strip_marks s in if eqb c 65279 then rest else c ∷ s

-- `parse_list`
unfoldable pub parse_list : Text → Result Malformed Patterns
unfolding parse_lines strip_marks
parse_list s = parse_lines 1 (splitlines (strip_marks s))

-- `under_e2e`
unfoldable pub under_e2e : Text → Bool
under_e2e path = any (λ part. same part (text "e2e")) (split 47 path)

abbrev pub any_fullmatch : List (List Part) → Text → Bool
any_fullmatch regexes path = any (λ regex. regex_fullmatch regex path) regexes

-- `is_inert`
unfoldable pub is_inert : Text → Patterns → Bool
unfolding under_e2e
is_inert path patterns =
    if under_e2e path
    then false
    else any_fullmatch patterns.inert path && not (any_fullmatch patterns.never path)
