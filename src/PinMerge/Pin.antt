-- ===== src/PinMerge/Pin.antt =====
-- gates/_pin_merge.py, `PIN` and `moved_pin`: a `uses:` line of a workflow, and whether two lines differ
-- in its commit alone. `is_word` is Unicode's table of the characters that `\w` matches.
pub mod Line
use vibe_verifier.Base.{
  ℕ, zero, suc, Bool, true, false, not, ◌&&◌, ◌||◌, Option, none, some, List, [], ◌∷◌, ◌++◌,
  if◌then◌else◌, all, is_empty, leb, eqb, length, take, drop,
}
use vibe_verifier.Base.Text.{Text, text, same, starts_with, is_space}

-- The longest front of a text whose characters pass, and the rest.
unfoldable pub span : (ℕ → Bool) → Text → Text × Text
span p [] = ([], [])
span p (c ∷ s) =
    let (front, rest) = span p s in
    let stop : Text × Text = ([], c ∷ s) in if p c then (c ∷ front, rest) else stop

-- The groups of `PIN`
pub record Pin : Type 0 where
  pub uses : Text
  pub target : Text
  pub sha : Text
  pub comment : Text

-- The rest of a text after a literal
abbrev pub after : Text → Text → Option Text
after [] s = some s
after (w ∷ ws) [] = none
after (w ∷ ws) (c ∷ s) = let rest = after ws s in if eqb w c then rest else none

-- `uses:\s*` behind what was read
unfoldable pub read_uses : Text → Text → Option (Text × Text)
unfolding span
read_uses read s = elim (after (text "uses:") s) [
  | none ↦ none
  | some rest ↦
      let (spaces, rest') = span is_space rest in some (read ++ text "uses:" ++ spaces, rest')
]

-- `-\s+uses:\s*` behind what was read
abbrev pub read_dash : Text → Text → Option (Text × Text)
read_dash read [] = none
read_dash read (c ∷ s) =
    let (spaces, rest) = span is_space s in
    if eqb c 45 && not (is_empty spaces) then read_uses (read ++ c ∷ spaces) rest else none

-- Group 1, `\s*(?:-\s+)?uses:\s*`, and the rest
unfoldable pub read_key : Text → Option (Text × Text)
unfolding span read_uses
read_key s =
    let (spaces, rest) = span is_space s in
    elim (read_uses spaces rest) [ none ↦ read_dash spaces rest | some found ↦ some found ]

abbrev pub is_at_or_space : ℕ → Bool
is_at_or_space c = eqb c 64 || is_space c

-- `[0-9a-f]`
abbrev pub is_hex : ℕ → Bool
is_hex c = leb 48 c && leb c 57 || leb 97 c && leb c 102

-- `.*$`
abbrev pub is_tail : Text → Bool
is_tail [] = true
is_tail (c ∷ []) = true
is_tail (c ∷ d ∷ s) = not (eqb c 10) && is_tail (d ∷ s)

abbrev pub starts_comment : Text → Bool
starts_comment [] = false
starts_comment (c ∷ s) = eqb c 35 && is_tail s

-- `(\s+#.*)?$`
unfoldable pub is_comment : Text → Bool
unfolding span
is_comment s =
    let (spaces, rest) = span is_space s in
    is_empty s || same s (10 ∷ []) || not (is_empty spaces) && starts_comment rest

module _ (is_word : ℕ → Bool) where
  -- `[\w.-]`
  abbrev pub is_name_char : ℕ → Bool
  is_name_char c = is_word c || eqb c 46 || eqb c 45

  abbrev pub is_name : Text → Bool
  is_name s = not (is_empty s) && all is_name_char s

  -- A slash and what is behind it
  abbrev pub behind_slash : Text → Text
  behind_slash [] = []
  behind_slash (c ∷ s) = s

  -- `[\w.-]+/[\w.-]+/[^@\s]+`, of a text without `@` and white space
  unfoldable pub is_target : Text → Bool
  unfolding span
  is_target s =
      let (owner, rest) = span (λ c. not (eqb c 47)) s in
      let (name, rest') = span (λ c. not (eqb c 47)) (behind_slash rest) in
      is_name owner && is_name name && not (is_empty (behind_slash rest'))

  -- `@` and the groups behind it
  abbrev pub read_sha : Text → Text → Text → Option Pin
  read_sha uses target [] = none
  read_sha uses target (c ∷ s) =
      let sha = take 40 s in
      let pin : Pin = record { uses = uses; target = target; sha = sha; comment = drop 40 s } in
      if eqb c 64 && eqb (length sha) 40 && all is_hex sha && is_comment (drop 40 s)
      then some pin
      else none

  -- `PIN.match`
  unfoldable pub pin_of : Text → Option Pin
  unfolding span read_key is_target is_comment
  pin_of line = elim (read_key line) [
    | none ↦ none
    | some (uses, s) ↦
        let (target, rest) = span (λ c. not (is_at_or_space c)) s in
        if is_target target then read_sha uses target rest else none
  ]

  -- `moved_pin`; `is_of` is the match of its `target` pattern.
  unfoldable pub moved_pin : (Text → Bool) → Text → (Text → Bool) → Text → Text → Bool
  unfolding pin_of
  moved_pin is_of named pinned_from before after' = elim (pin_of before) [
    | none ↦ false
    | some old ↦ elim (pin_of after') [
      | none ↦ false
      | some new ↦
          same old.uses new.uses
          && same old.target new.target
          && is_of new.target
          && starts_with new.sha named
          && pinned_from new.sha
    ]
  ]
