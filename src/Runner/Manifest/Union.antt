-- ===== src/Runner/Manifest/Union.antt =====
-- A pull request cannot take a gate from the run that judges it, nor change the arguments of one.
use vibe_verifier.Base.{
  ℕ, ◌+◌, ◌-◌, ◌≡◌, inl, inr, refl, true, none, some, List, [], ◌∷◌, ◌++◌, arith, if◌then◌else◌,
  any, Bool-cases, Option-cases,
}
use Prim.Native.Nat.{max}
use vibe_verifier.Base.Text.{Text, same, same_iff}
use vibe_verifier.Runner.Manifest.{
  Entry, same_entry, remove_line, claim_identical, take_gate, claim_changed, added_lines,
  judged_entries,
}

-- How many lines a manifest has for a gate.
abbrev pub gate_count : Text → List Entry → ℕ
gate_count gate [] = 0
gate_count gate (e ∷ es) = (if same e.gate gate then 1 else 0) + gate_count gate es

module _ (gate : Text) where
  remove_line-count :
      (line : Entry) (left : List Entry)
      → any (same_entry line) left ≡ true
      → gate_count gate (remove_line line left) + (if same line.gate gate then 1 else 0)
        ≡ gate_count gate left
  unfolding remove_line same_entry
  remove_line-count line [] h = cc
  remove_line-count line (e ∷ left) h =
      ground (arith, remove_line-count line left, same_iff line.gate e.gate)

  claim_identical-count :
      (left head : List Entry)
      → gate_count gate (claim_identical left head).1 + gate_count gate left
        ≡ gate_count gate head + gate_count gate (claim_identical left head).0
  unfolding claim_identical
  claim_identical-count left [] = omega arith
  claim_identical-count left (line ∷ head) = elim (Bool-cases (any (same_entry line) left)) [
    | inl e ↦ rw e (
        omega (
          arith,
          claim_identical-count (remove_line line left) head,
          remove_line-count line left e,
        ))
    | inr e ↦ rw e (omega (arith, claim_identical-count left head))
  ]

  take_gate-none :
      (other : Text) (left : List Entry) → take_gate other left ≡ none → gate_count other left ≡ 0
  unfolding take_gate
  take_gate-none other [] h = refl
  take_gate-none other (e ∷ left) h = ground (arith, take_gate-none other left)

  take_gate-some :
      (other : Text) (left rest : List Entry)
      → take_gate other left ≡ some rest
      → gate_count gate rest + (if same other gate then 1 else 0) ≡ gate_count gate left
  unfolding take_gate
  take_gate-some other [] rest h = ground arith
  take_gate-some other (e ∷ left) rest h = elim (Option-cases (take_gate other left)) [
    | inl later ↦ ground (arith, same_iff e.gate other)
    | inr (rest', later) ↦
        ground (arith, take_gate-some other left rest' later, same_iff e.gate other)
  ]

  claim_changed-count :
      (left fresh : List Entry)
      → gate_count gate (claim_changed left fresh) ≡ gate_count gate fresh - gate_count gate left
  unfolding claim_changed
  claim_changed-count left [] = omega arith
  claim_changed-count left (line ∷ fresh) = elim (Option-cases (take_gate line.gate left)) [
    | inl e ↦
        rw (e, claim_changed)
          (ground (
            arith,
            take_gate-none line.gate left e,
            claim_changed-count left fresh,
            same_iff line.gate gate,
          ))
    | inr (rest, e) ↦
        rw (e, claim_changed)
          (omega (arith, take_gate-some line.gate left rest e, claim_changed-count rest fresh))
  ]

gate_count-append :
    (gate : Text) (es fs : List Entry)
    → gate_count gate (es ++ fs) ≡ gate_count gate es + gate_count gate fs
gate_count-append gate [] fs = omega arith
gate_count-append gate (e ∷ es) fs = omega (arith, gate_count-append gate es fs)

-- For every gate the run has as many lines as the manifest, the base's or the head's, that has more.
pub judged_entries-count :
    (gate : Text) (head : List Entry) (e : Entry) (base : List Entry)
    → gate_count gate (judged_entries head (some (e ∷ base)))
      ≡ max (gate_count gate (e ∷ base)) (gate_count gate head)
unfolding judged_entries added_lines
judged_entries-count gate head e base = omega (
  arith,
  gate_count-append gate (e ∷ base) (added_lines (e ∷ base) head),
  claim_identical-count gate (e ∷ base) head,
  claim_changed-count gate (claim_identical (e ∷ base) head).0 (claim_identical (e ∷ base) head).1,
)
