-- ===== src/MergeGrant/Lines/Unchanged.antt =====
-- gates/_merge_grant.py, `_changed_lines`: a file that changes has a changed line.
use mathlib.Core.List.{append_assoc, append-nil}
use vibe_verifier.Base.{
  ℕ, ◌≡◌, refl, sym, ap, ◌∙◌, inl, inr, false, Option, List, [], ◌∷◌, ◌++◌, map, is_empty, eqb,
  eqb_iff, All, arith, Bool-cases,
}
use vibe_verifier.Base.Text.{Text, has, split, split_from, join}
use vibe_verifier.Base.Text.Has.{has-append, has-append_of}
use vibe_verifier.Base.Diff.{Line, diff}
use vibe_verifier.Base.Diff.Sound.{keys, diff-keys}
use vibe_verifier.MergeGrant.Lines.{
  Nested, stack_behind, below_top, from_bottom, in_context, LinesRule, or_empty, written_of,
  context_of, prepare, changed_lines,
}

-- Two texts behind the last of a character in two equal texts
behind_last :
    (c : ℕ) (xs ys s t : Text)
    → has c s ≡ false
    → has c t ≡ false
    → xs ++ c ∷ s ≡ ys ++ c ∷ t
    → s ≡ t
behind_last c [] [] s t h k e = ground arith
behind_last c [] (y ∷ ys) s t h k e = grind (arith, has-append c ys (c ∷ t), eqb_iff c c)
behind_last c (x ∷ xs) [] s t h k e = grind (arith, has-append c xs (c ∷ s), eqb_iff c c)
behind_last c (x ∷ xs) (y ∷ ys) s t h k e = behind_last c xs ys s t h k (ground arith)

module _ {A : Type 0} where
  cons_head : {x y : A} {xs ys : List A} → x ∷ xs ≡ y ∷ ys → x ≡ y
  cons_head e = cc

  cons_tail : {x y : A} {xs ys : List A} → x ∷ xs ≡ y ∷ ys → xs ≡ ys
  cons_tail e = cc

HasNone : List Text → Type 0
HasNone = All (λ line. has 0 line ≡ false)

in_context-lines :
    (stack stack' : List Nested) (old new : List Text)
    → HasNone old
    → HasNone new
    → keys (in_context stack old) ≡ keys (in_context stack' new)
    → old ≡ new
unfolding in_context HasNone
in_context-lines stack stack' [] [] h k e = refl
in_context-lines stack stack' [] (t ∷ new) h k e = ground arith
in_context-lines stack stack' (s ∷ old) [] h k e = ground arith
in_context-lines stack stack' (s ∷ old) (t ∷ new) h k e =
    let line : s ≡ t =
      behind_last 0 (join (31 ∷ []) (from_bottom (below_top (stack_behind stack s))))
        (join (31 ∷ []) (from_bottom (below_top (stack_behind stack' t)))) s t h.0 k.0
        (cons_head e) in
    let rest : old ≡ new =
      in_context-lines (stack_behind stack s) (stack_behind stack' t) old new h.1 k.1
        (cons_tail e) in
    cc

join_more :
    (sep p : Text) (ps : List Text)
    → is_empty ps ≡ false
    → join sep (p ∷ ps) ≡ p ++ sep ++ join sep ps
unfolding join
join_more sep p [] h = ground arith
join_more sep p (q ∷ ps) h = refl

is_empty-split_from : (part s : Text) → is_empty (split_from 10 part s) ≡ false
unfolding split_from
is_empty-split_from part [] = refl
is_empty-split_from part (c ∷ s) = ground (arith, is_empty-split_from (part ++ c ∷ []) s)

-- The lines of a text, joined again
join-split_from : (part s : Text) → join (10 ∷ []) (split_from 10 part s) ≡ part ++ s
unfolding split_from
join-split_from part [] = unfold join in sym (append-nil part)
join-split_from part (c ∷ s) = elim (Bool-cases (eqb c 10)) [
  | inl e ↦ rw e (
      rw (join_more (10 ∷ []) part (split_from 10 [] s) (is_empty-split_from [] s)) (
        rw (join-split_from [] s) (
          let same : c ≡ 10 = ground (arith, eqb_iff c 10) in
          rw same (append_assoc part (10 ∷ []) s))))
  | inr e ↦ rw e (rw (join-split_from (part ++ c ∷ []) s) (append_assoc part (c ∷ []) s))
]

HasNone-split_from :
    (part s : Text) → has 0 part ≡ false → has 0 s ≡ false → HasNone (split_from 10 part s)
unfolding HasNone split_from
HasNone-split_from part [] h k = (h, tt)
HasNone-split_from part (c ∷ s) h k =
    let later : has 0 s ≡ false = ground arith in
    elim (Bool-cases (eqb c 10)) [
      | inl e ↦ rw e (h, HasNone-split_from [] s refl later)
      | inr e ↦ rw e (
          HasNone-split_from (part ++ c ∷ []) s (has-append_of 0 part (c ∷ []) h (ground arith))
            later)
    ]

none_written : (f : Text → Text) (lines : List Line) → map f (written_of lines) ≡ [] → lines ≡ []
none_written f [] h = refl
none_written f (line ∷ lines) h = ground arith

-- Where a rule is shown no line that is gone and none that is new, the file has not changed, or it has a
-- NUL character: the key of a line sets its context apart from its text by one.
pub changed_lines_complete :
    (lower : Text → Text) (rule : LinesRule) (base head : Option Text)
    → has 0 (or_empty base) ≡ false
    → has 0 (or_empty head) ≡ false
    → changed_lines lower rule base head ≡ ([], [])
    → or_empty base ≡ or_empty head
unfolding changed_lines split
changed_lines_complete lower rule base head b h e =
    let both = diff (context_of base) (context_of head) in
    let gone =
      none_written (prepare lower rule) both.0 (ap (λ (r : List Text × List Text). r.0) e) in
    let fresh =
      none_written (prepare lower rule) both.1 (ap (λ (r : List Text × List Text). r.1) e) in
    let lines =
      in_context-lines [] [] (split 10 (or_empty base)) (split 10 (or_empty head))
        (HasNone-split_from [] (or_empty base) refl b)
        (HasNone-split_from [] (or_empty head) refl h)
        (diff-keys (context_of base) (context_of head) (λ i. (gone i, fresh i))) in
    sym (join-split_from [] (or_empty base))
    ∙ ap (join (10 ∷ [])) lines
    ∙ join-split_from [] (or_empty head)
