-- ===== src/PullSync/Plan/Slots.antt =====
-- The slots that `plan` gives out: never more than are free, and to ready pull requests first.
use vibe_verifier.Base.{
  ℕ, zero, suc, ◌+◌, ◌-◌, ◌≤◌, ◌<◌, ◌≡◌, refl, ap, ◌∙◌, subst, ◌⊎◌, Bool, true, false, not, ◌&&◌,
  List, [], ◌∷◌, ◌++◌, map, eqb_iff, arith, select, drop, length, All, All-map, select-select,
  length-select_parts, select-none, select-append, All-append_right, drop-append, length-append,
}
use vibe_verifier.Base.Text.{Text}
use vibe_verifier.PullSync.Pull.{Pull, holds_slot}
use vibe_verifier.PullSync.Judge.{Line, judge}
use vibe_verifier.PullSync.Plan.{needs_slot, candidates, is_waiting, give_slot, give_slots, plan}

-- Every row of a list of waiting rows waits.
waiting_self : (w : List Line) → All (λ l. is_waiting w l ≡ true) w
waiting_self [] = tt
waiting_self (x ∷ w) = (
  ground (arith, eqb_iff x.number x.number),
  All-map (λ l. is_waiting w l ≡ true) (λ l. is_waiting (x ∷ w) l ≡ true) (λ l h. ground arith) w
      (waiting_self w),
)

-- Where all rows behind the first `n` wait, at most `n` rows do not.
length-not_waiting :
    (w : List Line) (n : ℕ) (c : List Line)
    → All (λ l. is_waiting w l ≡ true) (drop n c)
    → length (select (λ l. not (is_waiting w l)) c) ≤ n
length-not_waiting w zero c h =
    rw
      (select-none (λ l. not (is_waiting w l)) c
        (All-map (λ l. is_waiting w l ≡ true) (λ l. not (is_waiting w l) ≡ false)
          (λ l e. ground arith) c h))
      (omega arith)
length-not_waiting w (suc n) [] h = omega arith
length-not_waiting w (suc n) (x ∷ c) h = ground (arith, length-not_waiting w n c h)

needs_slot-give_slot :
    (w : List Line) (l : Line) → needs_slot (give_slot w l) ≡ (needs_slot l && not (is_waiting w l))
unfolding give_slot
needs_slot-give_slot w l = ground arith

length-given :
    (w lines : List Line)
    → length (select needs_slot (map (give_slot w) lines))
      ≡ length (select (λ l. needs_slot l && not (is_waiting w l)) lines)
length-given w [] = refl
length-given w (l ∷ lines) = ground (arith, length-given w lines, needs_slot-give_slot w l)

-- Sorting the candidates changes no count of them.
length-candidates :
    (q : Line → Bool) (lines : List Line)
    → length (select q (candidates lines)) ≡ length (select q (select needs_slot lines))
unfolding candidates
length-candidates q lines =
    ap length (select-append q (select (λ l. l.ready) (select needs_slot lines)) _)
    ∙ length-append (select q (select (λ l. l.ready) (select needs_slot lines))) _
    ∙ length-select_parts (λ l. l.ready) q (select needs_slot lines)

-- Of the rows that still say `sync` and start checks where none runs, there are no more than the
-- free slots, whatever the rows.
pub give_slots-le-free :
    (lines : List Line) (free : ℕ) → length (select needs_slot (give_slots lines free)) ≤ free
unfolding give_slots
give_slots-le-free lines free =
    let w = drop free (candidates lines) in
    omega (
      arith,
      length-given w lines,
      ap length (select-select (λ l. not (is_waiting w l)) needs_slot lines),
      length-candidates (λ l. not (is_waiting w l)) lines,
      length-not_waiting w free (candidates lines) (waiting_self w),
    )

capped : (held cap n : ℕ) → n ≤ cap - held → (held + n ≤ cap) ⊎ ((cap < held) × (n ≡ 0))
capped held cap n h = grind arith

-- What the plan newly starts and what already holds a slot stay together within the cap, unless the
-- slots held already pass it; then the plan starts nothing that needs a slot.
pub plan_capped :
    (pulls : List Pull) (base : Text) (now max_in_flight quiet stale_after : ℕ) (strict nu : Bool)
    → let planned = plan pulls base now max_in_flight quiet stale_after strict nu in
      (planned.in_flight ≡ length (select (λ pull. holds_slot pull now quiet) pulls))
      × ((planned.in_flight + length (select needs_slot planned.lines) ≤ max_in_flight)
          ⊎ ((max_in_flight < planned.in_flight) × (length (select needs_slot planned.lines) ≡ 0)))
unfolding plan
plan_capped pulls base now max_in_flight quiet stale_after strict nu = (
  refl,
  capped (length (select (λ pull. holds_slot pull now quiet) pulls)) max_in_flight _ (
      give_slots-le-free (map (λ pull. judge pull base now quiet stale_after strict nu) pulls)
        (max_in_flight - length (select (λ pull. holds_slot pull now quiet) pulls))),
)

-- A ready row that needs a slot, and a stale one
abbrev pub ready_candidates : List Line → List Line
ready_candidates lines = select (λ l. l.ready) (select needs_slot lines)

abbrev pub stale_candidates : List Line → List Line
stale_candidates lines = select (λ l. not l.ready) (select needs_slot lines)

stale_waiting :
    (w lines : List Line)
    → All (λ l. is_waiting w l ≡ true) (stale_candidates lines)
    → stale_candidates (map (give_slot w) lines) ≡ []
unfolding give_slot
stale_waiting w [] h = refl
stale_waiting w (l ∷ lines) h = ground (arith, stale_waiting w lines)

drop_ready :
    (lines : List Line) (free : ℕ)
    → free ≤ length (ready_candidates lines)
    → drop free (candidates lines) ≡ drop free (ready_candidates lines) ++ stale_candidates lines
unfolding candidates
drop_ready lines free h = drop-append free (ready_candidates lines) (stale_candidates lines) h

-- Where as many ready pull requests want a slot as are free, no stale one gets one.
pub give_slots-ready_first :
    (lines : List Line) (free : ℕ)
    → free ≤ length (ready_candidates lines)
    → stale_candidates (give_slots lines free) ≡ []
unfolding give_slots
give_slots-ready_first lines free h = stale_waiting (drop free (candidates lines)) lines (
    All-append_right (λ l. is_waiting (drop free (candidates lines)) l ≡ true)
      (drop free (ready_candidates lines)) (stale_candidates lines)
      (subst (All (λ l. is_waiting (drop free (candidates lines)) l ≡ true))
        (drop_ready lines free h) (waiting_self (drop free (candidates lines)))))
