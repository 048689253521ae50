-- ===== src/FileSize/Ratchet.antt =====
-- gates/max_file_lines.py: when the gate is silent about a file.
use vibe_verifier.Base.{
  ℕ, ◌+◌, ◌≤◌, ◌≡◌, ◌↔◌, inl, inr, refl, Bool, true, false, ◌||◌, Option, none, some, List, [], ◌∷◌,
  ◌++◌, Result, ok, if◌then◌else◌, length, is_empty, ltb, eqb, eqb_iff, All, All-map, arith,
  Bool-cases, Option-cases, returned,
}
use vibe_verifier.Base.Text.{Text, text, lines_from}
use vibe_verifier.Contract.Report.{Finding, Failure}
use vibe_verifier.FileSize.{
  Blob, Args, Repository, count_feeds, ends_open, line_count, size, now_bytes, is_over, token_limit,
  part, before, judge_sizes, judge, judged_files, candidates, judge_all, check, Scope,
}

abbrev pub is_feed : ℕ → Bool
is_feed c = eqb c 10

-- What the end of a file adds to the line feeds in it
abbrev open_line : Text → Text → ℕ
open_line line [] = if is_empty line then 0 else 1
open_line line (c ∷ s) = if ends_open (c ∷ s) then 1 else 0

snoc_filled : (line : Text) (c : ℕ) → is_empty (line ++ c ∷ []) ≡ false
snoc_filled [] c = refl
snoc_filled (x ∷ line) c = refl

length-lines_from :
    (line s : Text) → length (lines_from is_feed line false s) ≡ count_feeds s + open_line line s
unfolding lines_from
length-lines_from line [] = ground arith
length-lines_from line (c ∷ []) = ground (arith, snoc_filled line c)
length-lines_from line (c ∷ d ∷ s) = elim (Bool-cases (eqb c 10)) [
  | inl e ↦ rw ((eqb_iff c 10).0 e) (omega (arith, length-lines_from [] (d ∷ s)))
  | inr e ↦ ground (arith, length-lines_from (line ++ c ∷ []) (d ∷ s))
]

-- The count of a file's lines is that of the texts between its line feeds, an end without one
-- included.
pub line_count-lines_from : (s : Text) → line_count s ≡ length (lines_from is_feed [] false s)
unfolding line_count lines_from
line_count-lines_from [] = refl
line_count-lines_from (c ∷ s) = omega (arith, length-lines_from [] (c ∷ s))

-- A size within its limit, or no bigger than it was
pub Fits : Option ℕ → ℕ → Option ℕ → Type 0
Fits limit value was = is_over limit value ≡ true → (w : ℕ) × (was ≡ some w) × (value ≤ w)

part-Fits :
    (scope : Scope) (unit : Text) (value : ℕ) (limit was : Option ℕ)
    → (is_empty (part scope unit value limit was) ≡ true) ↔ Fits limit value was
unfolding part Fits
part-Fits scope unit value none was = (λ _. λ over. ground arith, λ _. refl)
part-Fits scope unit value (some limit) none = (
  λ h. λ over. ground arith,
  λ fits. elim (Bool-cases (ltb limit value)) [
    | inl over ↦ let (w', e, kept) = fits over in ground arith
    | inr under ↦ ground arith
  ],
)
part-Fits scope unit value (some limit) (some w) = (
  λ h. λ over. (w, refl, ground arith),
  λ fits. elim (Bool-cases (ltb limit value)) [
    | inl over ↦ let (w', e, kept) = fits over in ground arith
    | inr under ↦ ground arith
  ],
)

-- Both measures of a file fit.
pub FitsBoth : Args → ℕ × ℕ → Option ℕ × Option ℕ → Type 0
FitsBoth args now old =
    Fits (some args.max) now.0 old.0 × Fits (token_limit args.max_tokens) now.1 old.1

is_empty-append :
    (xs ys : List Text)
    → (is_empty (xs ++ ys) ≡ true) ↔ ((is_empty xs ≡ true) × (is_empty ys ≡ true))
is_empty-append [] ys = (λ h. (refl, h), λ h. h.1)
is_empty-append (x ∷ xs) ys = (λ h. ground arith, λ h. ground arith)

-- The gate has nothing to say of a file exactly where it is, in lines and in tokens, within the limit
-- or no bigger than it was; without an old file, only within the limits.
pub judge_sizes-FitsBoth :
    (split : Text) (args : Args) (path : Text) (now : ℕ × ℕ) (old : Option ℕ × Option ℕ)
    → (judge_sizes split args path now old ≡ none) ↔ FitsBoth args now old
unfolding judge_sizes FitsBoth Fits
judge_sizes-FitsBoth split args path (lines, tokens) (old_lines, old_tokens) =
    let by_lines = part-Fits args.scope (text "lines") lines (some args.max) old_lines in
    let by_tokens =
      part-Fits args.scope (text "tokens (bytes / 4)") tokens (token_limit args.max_tokens)
        old_tokens in
    let both = is_empty-append (part args.scope (text "lines") lines (some args.max) old_lines) (
      part args.scope (text "tokens (bytes / 4)") tokens (token_limit args.max_tokens)
        old_tokens) in
    (
      λ h.
          elim (Bool-cases
            (is_over (some args.max) lines || is_over (token_limit args.max_tokens) tokens)) [
              | inr within ↦ (λ over. ground arith, λ over. ground arith)
              | inl over ↦
                  let (no_lines, no_tokens) = both.0 (ground arith) in
                  (by_lines.0 no_lines, by_tokens.0 no_tokens)
            ],
      λ fits. let silent = both.1 (by_lines.1 fits.0, by_tokens.1 fits.1) in ground arith,
    )

-- A judged file: it could be read, and both its measures fit what it was at the commit compared with.
pub FileFits : Repository → Args → Option Text → List (Text × Text) → Text → Type 0
FileFits repo args start moved path =
    (blob : Blob) × (now_bytes repo args.scope path ≡ ok blob)
    × FitsBoth args (size blob) (before repo start moved path)

judge-FileFits :
    (split : Text) (repo : Repository) (args : Args) (start : Option Text)
    (moved : List (Text × Text)) (path : Text)
    → judge split repo args start moved path ≡ ok none
    → FileFits repo args start moved path
unfolding judge FileFits
judge-FileFits split repo args start moved path h =
    let (blob, read, h') = returned (now_bytes repo args.scope path) _ none h in
    (
      blob,
      read,
      (judge_sizes-FitsBoth split args path (size blob) (before repo start moved path)).0
          (ground arith),
    )

judge_all-silent :
    (judged : Text → Result Failure (Option Finding)) (paths : List Text)
    → judge_all judged paths ≡ ok []
    → All (λ path. judged path ≡ ok none) paths
judge_all-silent judged [] h = tt
judge_all-silent judged (path ∷ paths) h =
    let (found, e, h') = returned (judged path) _ [] h in
    let (findings, e', h'') = returned (judge_all judged paths) _ [] h' in
    elim (Option-cases found) [
      | inr (finding, e'') ↦ ground arith
      | inl e'' ↦ (ground arith, judge_all-silent judged paths (ground arith))
    ]

-- Where the gate reports nothing, the tracked files and the changes could be read, and every file it
-- judges could be read and is, in lines and in tokens, within the limit or no bigger than it was,
-- under its old name where it moved.
pub check-FileFits :
    (split : Text) (repo : Repository) (args : Args)
    → check split repo args ≡ ok []
    → (tracked : List Text) × (found : List Text) × (moved : List (Text × Text)) × (start : Option
        Text)
      × (repo.tracked ≡ ok tracked)
      × (candidates repo args.scope tracked ≡ ok (found, moved, start))
      × All (FileFits repo args start moved) (judged_files args tracked found)
unfolding check
check-FileFits split repo args h =
    let (tracked, e, h') = returned repo.tracked _ [] h in
    let ((found, moved, start), e', h'') = returned (candidates repo args.scope tracked) _ [] h' in
    (
      tracked,
      found,
      moved,
      start,
      e,
      e',
      All-map (λ path. judge split repo args start moved path ≡ ok none)
          (FileFits repo args start moved) (judge-FileFits split repo args start moved)
          (judged_files args tracked found)
          (judge_all-silent (judge split repo args start moved) (judged_files args tracked found)
            h''),
    )
