-- ===== src/Contract/Glob/Segments.antt =====
-- A glob without `**` stays inside its path segments, and a glob without wildcards is one path.
use vibe_verifier.Base.{
  ℕ, suc, ◌≡◌, ◌↔◌, refl, ◌∙◌, Bool, true, false, not, ◌&&◌, ◌||◌, List, [], ◌∷◌, ◌++◌, arith, eqb,
  eqb_iff, if◌then◌else◌, all, is_empty,
}
use vibe_verifier.Base.Text.{Text, starts_with, has}
use vibe_verifier.Contract.Glob.{
  Part, dirs, anything, segment, one, lit, compile, glob_to_regex, star, not_slash, accepts,
  regex_fullmatch, at_dollar, regex_match,
}

-- How many slashes a path has.
abbrev pub slashes : Text → ℕ
slashes [] = 0
slashes (c ∷ s) = if eqb c 47 then suc (slashes s) else slashes s

-- Whether `**` stands somewhere in a glob.
abbrev pub is_deep : Text → Bool
is_deep [] = false
is_deep (c ∷ s) = starts_with (c ∷ s) (42 ∷ 42 ∷ []) || is_deep s

abbrev stays : Part → Bool
stays dirs = false
stays anything = false
stays _ = true

abbrev part_slashes : List Part → ℕ
part_slashes [] = 0
part_slashes (lit c ∷ ps) = if eqb c 47 then suc (part_slashes ps) else part_slashes ps
part_slashes (_ ∷ ps) = part_slashes ps

slashes-star :
    (rest : Text → Bool) (n : ℕ)
    → ((t : Text) → rest t ≡ true → slashes t ≡ n)
    → (s : Text) → star not_slash rest s ≡ true
    → slashes s ≡ n
unfolding star
slashes-star rest n h [] e = h [] e
slashes-star rest n h (c ∷ s) e = ground (arith, h (c ∷ s), slashes-star rest n h s)

slashes-accepts :
    (ps : List Part)
    → all stays ps ≡ true
    → (s : Text) → accepts is_empty ps s ≡ true
    → slashes s ≡ part_slashes ps
unfolding accepts
slashes-accepts [] h [] e = refl
slashes-accepts [] h (c ∷ s) e = cc
slashes-accepts (dirs ∷ ps) h s e = cc
slashes-accepts (anything ∷ ps) h s e = cc
slashes-accepts (segment ∷ ps) h s e =
    slashes-star (accepts is_empty ps) (part_slashes ps) (slashes-accepts ps h) s e
slashes-accepts (one ∷ ps) h [] e = cc
slashes-accepts (one ∷ ps) h (c ∷ s) e = ground (arith, slashes-accepts ps h s)
slashes-accepts (lit d ∷ ps) h [] e = cc
slashes-accepts (lit d ∷ ps) h (c ∷ s) e = ground (arith, slashes-accepts ps h s, eqb_iff c d)

stays-compile : (g : Text) → is_deep g ≡ false → all stays (compile 0 g) ≡ true
unfolding compile
stays-compile [] h = refl
stays-compile (c ∷ s) h = ground (arith, stays-compile s)

part_slashes-compile : (g : Text) → is_deep g ≡ false → part_slashes (compile 0 g) ≡ slashes g
unfolding compile
part_slashes-compile [] h = refl
part_slashes-compile (c ∷ s) h = ground (arith, part_slashes-compile s, eqb_iff c 42, eqb_iff c 63)

-- A path that matches a glob without `**` has as many slashes as the glob.
pub slashes-fullmatch :
    (glob path : Text)
    → is_deep glob ≡ false
    → regex_fullmatch (glob_to_regex glob) path ≡ true
    → slashes path ≡ slashes glob
unfolding glob_to_regex regex_fullmatch
slashes-fullmatch glob path h e =
    slashes-accepts (compile 0 glob) (stays-compile glob h) path e ∙ part_slashes-compile glob h

-- Whether a glob has no wildcard.
abbrev pub is_plain : Text → Bool
is_plain g = not (has 42 g) && not (has 63 g)

lits : Text → List Part
lits [] = []
lits (c ∷ s) = lit c ∷ lits s

compile-plain : (g : Text) → is_plain g ≡ true → compile 0 g ≡ lits g
unfolding compile lits
compile-plain [] h = refl
compile-plain (c ∷ s) h = ground (arith, compile-plain s)

accepts-lits : (g s : Text) → (accepts is_empty (lits g) s ≡ true) ↔ (s ≡ g)
unfolding accepts lits
accepts-lits [] [] = (λ _. refl, λ _. refl)
accepts-lits [] (c ∷ s) = (λ h. cc, λ h. cc)
accepts-lits (d ∷ g) [] = (λ h. cc, λ h. cc)
accepts-lits (d ∷ g) (c ∷ s) = ground (arith, accepts-lits g s, eqb_iff c d)

-- A glob without wildcards matches the path that it spells, and no other, as a whole.
pub fullmatch-plain :
    (glob path : Text)
    → is_plain glob ≡ true
    → (regex_fullmatch (glob_to_regex glob) path ≡ true) ↔ (path ≡ glob)
unfolding glob_to_regex regex_fullmatch
fullmatch-plain glob path h = rw (compile-plain glob h) (accepts-lits glob path)

accepts-lits_line_feed : (g : Text) → accepts at_dollar (lits g) (g ++ 10 ∷ []) ≡ true
unfolding accepts lits
accepts-lits_line_feed [] = refl
accepts-lits_line_feed (c ∷ g) = ground (arith, accepts-lits_line_feed g)

-- `regex.match`, which `matches` calls, also takes a path with one line feed more than the glob:
-- `$` matches before a line feed that ends the text.
pub match-line_feed :
    (glob : Text) → is_plain glob ≡ true → regex_match (glob_to_regex glob) (glob ++ 10 ∷ []) ≡ true
unfolding glob_to_regex regex_match
match-line_feed glob h = rw (compile-plain glob h) (accepts-lits_line_feed glob)
