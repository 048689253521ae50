-- ===== src/PullSync/Write/Calls.antt =====
-- What a run writes to GitHub.
use vibe_verifier.Base.{
  ℕ, ◌≡◌, ◌↔◌, refl, sym, ◌∙◌, drop, Bool, true, false, Option, none, some, List, [], ◌∷◌, ◌++◌,
  Result, ok, err, arith, is_empty, All, All-append, In, All-of_In, any, any-append, not, ◌-◌,
  length, select, ◌&&◌, map,
}
use vibe_verifier.Base.Text.{Text, text}
use vibe_verifier.PullSync.Pull.{Pull, conflict_label, holds_slot}
use vibe_verifier.PullSync.Judge.Safety.{InScope, judge-sync, judge-label, judge-head}
use vibe_verifier.PullSync.Judge.{Action, sync, Relabel, add, remove, keep, Line, judge}
use vibe_verifier.PullSync.Plan.{plan, candidates, give_slot, give_slots}
use vibe_verifier.PullSync.Write.{
  Call, update_branch, add_label, remove_label, Gh, calls, send_all, action_calls, label_calls,
  write_lines, Args, sync_repo, is_strict,
}

-- A write that GitHub refused
abbrev pub is_refused : Gh → Call → Bool
is_refused gh call = elim (gh call) [ none ↦ false | some detail ↦ true ]

send_all-failures :
    (gh : Gh) (number : ℕ) (cs : List Call)
    → is_empty (send_all gh number cs) ≡ not (any (is_refused gh) cs)
unfolding send_all
send_all-failures gh number [] = refl
send_all-failures gh number (c ∷ cs) = ground (arith, send_all-failures gh number cs)

is_empty-append : {A : Type 0} (xs ys : List A) → is_empty (xs ++ ys) ≡ (is_empty xs && is_empty ys)
is_empty-append [] ys = refl
is_empty-append (x ∷ xs) ys = refl

write_lines-failures :
    (gh : Gh) (repo : Text) (act : Bool) (lines : List Line)
    → is_empty (write_lines gh repo act lines).failures
      ≡ not (any (is_refused gh) (write_lines gh repo act lines).made)
unfolding write_lines
write_lines-failures gh repo act [] = refl
write_lines-failures gh repo true (l ∷ lines) = ground (
  arith,
  is_empty-append (send_all gh l.number (calls repo l)) (write_lines gh repo true lines).failures,
  any-append (is_refused gh) (calls repo l) (write_lines gh repo true lines).made,
  send_all-failures gh l.number (calls repo l),
  write_lines-failures gh repo true lines,
)
write_lines-failures gh repo false (l ∷ lines) = write_lines-failures gh repo false lines

write_lines-dry :
    (gh : Gh) (repo : Text) (act : Bool) (lines : List Line)
    → act ≡ false
    → (write_lines gh repo act lines).made ≡ []
unfolding write_lines
write_lines-dry gh repo act [] h = refl
write_lines-dry gh repo act (l ∷ lines) h = ground (arith, write_lines-dry gh repo act lines h)

-- A run exits with 2 exactly where the repository could not be read, and with 1 exactly where GitHub
-- refused one of its writes; without --act it writes nothing.
pub sync_repo-code :
    (gh : Gh) (repo : Text) (args : Args) (now : ℕ) (read : Result Text (Text × List Pull))
    (strict : Option Bool)
    → let run = sync_repo gh repo args now read strict in
      ((run.code ≡ 2) ↔ ((why : Text) × (read ≡ err why)))
      × ((run.code ≡ 1) ↔ (any (is_refused gh) run.written.made ≡ true))
      × (args.act ≡ false → run.written.made ≡ [])
unfolding sync_repo
sync_repo-code gh repo args now (err why) strict =
    ((λ _. (why, refl), λ _. refl), (λ h. absurd (omega arith), λ h. cc), λ _. refl)
sync_repo-code gh repo args now (ok (base, pulls)) strict =
    let planned =
      plan pulls base now args.max_in_flight args.quiet args.stale_after (is_strict strict)
        (not (is_empty args.needs_update)) in
    let counted = write_lines-failures gh repo args.act planned.lines in
    (
      (λ h. absurd (ground arith), λ (why, p). cc),
      (λ h. ground arith, λ h. ground arith),
      write_lines-dry gh repo args.act planned.lines,
    )

-- A write that the plan's rules allow: an update is of a pull request that was read, at the head that
-- was judged, in scope and mergeable; the label goes to one that conflicts.
abbrev pub IsAllowed : List Pull → Text → Call → Type 0
IsAllowed pulls base (update_branch repo number head) =
    (pull : Pull) × In pull pulls
    × (number ≡ pull.number)
    × (head ≡ pull.head)
    × InScope pull base
    × (pull.mergeable ≡ text "MERGEABLE")
IsAllowed pulls base (add_label repo number name) =
    (pull : Pull) × In pull pulls
    × (number ≡ pull.number)
    × (name ≡ conflict_label)
    × (pull.mergeable ≡ text "CONFLICTING")
IsAllowed pulls base (remove_label repo number name) =
    (pull : Pull) × In pull pulls
    × (number ≡ pull.number)
    × (name ≡ conflict_label)
    × (pull.mergeable ≡ text "MERGEABLE")

give_slot-keeps :
    (w : List Line) (l : Line)
    → ((give_slot w l).number ≡ l.number)
      × ((give_slot w l).head ≡ l.head)
      × ((give_slot w l).label ≡ l.label)
      × ((give_slot w l).action ≡ sync → l.action ≡ sync)
unfolding give_slot
give_slot-keeps w l = ground arith

module _ (pulls : List Pull) (base : Text) (repo : Text) (pull : Pull) (i : In pull pulls) where
  action_calls-IsAllowed :
      (number : ℕ) (head : Text) (act : Action)
      → number ≡ pull.number
      → (act ≡ sync → (head ≡ pull.head) × InScope pull base × (pull.mergeable ≡ text "MERGEABLE"))
      → All (IsAllowed pulls base) (action_calls repo number head act)
  action_calls-IsAllowed number head sync n s =
      ((pull, i, n, (s refl).0, (s refl).1, (s refl).2), tt)
  action_calls-IsAllowed number head _ n s = tt

  label_calls-IsAllowed :
      (number : ℕ) (label : Relabel)
      → number ≡ pull.number
      → (label ≡ add → pull.mergeable ≡ text "CONFLICTING")
      → (label ≡ remove → pull.mergeable ≡ text "MERGEABLE")
      → All (IsAllowed pulls base) (label_calls repo number label)
  label_calls-IsAllowed number add n a r = ((pull, i, n, refl, a refl), tt)
  label_calls-IsAllowed number remove n a r = ((pull, i, n, refl, r refl), tt)
  label_calls-IsAllowed number keep n a r = tt

  -- The writes of a pull request's row, whether it gets a slot or not
  row-IsAllowed :
      (w : List Line) (now quiet stale_after : ℕ) (strict nu : Bool)
      → All
          (IsAllowed pulls base)
          (calls repo (give_slot w (judge pull base now quiet stale_after strict nu)))
  unfolding calls
  row-IsAllowed w now quiet stale_after strict nu =
      let row = judge pull base now quiet stale_after strict nu in
      let kept = give_slot-keeps w row in
      let head = judge-head pull base now quiet stale_after strict nu in
      let labels = judge-label pull base now quiet stale_after strict nu in
      let syncs = (judge-sync pull base now quiet stale_after strict nu).0 in
      All-append (IsAllowed pulls base) _ _
        (action_calls-IsAllowed _ _ (give_slot w row).action (kept.0 ∙ head.0)
          (λ h. (kept.1 ∙ head.1 (kept.3 h), (syncs (kept.3 h)).0, (syncs (kept.3 h)).1)))
        (label_calls-IsAllowed _ (give_slot w row).label (kept.0 ∙ head.0)
          (λ h. (labels.0.0 (sym kept.2 ∙ h)).1) (λ h. (labels.1.0 (sym kept.2 ∙ h)).2))

-- The writes of the rows of all pull requests of a list
module _ (gh : Gh) (repo : Text) (pulls : List Pull) (base : Text) (row : Pull → Line)
    (given : Line → Line) where
  lines-IsAllowed :
      (act : Bool) (some_pulls : List Pull)
      → All (λ pull. All (IsAllowed pulls base) (calls repo (given (row pull)))) some_pulls
      → All (IsAllowed pulls base) (write_lines gh repo act (map given (map row some_pulls))).made
  unfolding write_lines
  lines-IsAllowed act [] h = tt
  lines-IsAllowed true (p ∷ ps) h =
      All-append (IsAllowed pulls base) (calls repo (given (row p))) _ h.0
        (lines-IsAllowed true ps h.1)
  lines-IsAllowed false (p ∷ ps) h = lines-IsAllowed false ps h.1

-- Of a run that read the repository, every write is of a pull request that was read: an update is at
-- the head that was judged, in scope and mergeable, the conflict label goes to one that conflicts, and
-- it is taken from one that is mergeable.
pub sync_repo-IsAllowed :
    (gh : Gh) (repo : Text) (args : Args) (now : ℕ) (base : Text) (pulls : List Pull)
    (strict : Option Bool)
    → All (IsAllowed pulls base) (sync_repo gh repo args now (ok (base, pulls)) strict).written.made
unfolding sync_repo plan give_slots
sync_repo-IsAllowed gh repo args now base pulls strict =
    let nu = not (is_empty args.needs_update) in
    let row =
      λ (pull : Pull). judge pull base now args.quiet args.stale_after (is_strict strict) nu in
    let held = select (λ pull. holds_slot pull now args.quiet) pulls in
    let w = drop (args.max_in_flight - length held) (candidates (map row pulls)) in
    lines-IsAllowed gh repo pulls base row (give_slot w) args.act pulls (
      All-of_In (λ pull. All (IsAllowed pulls base) (calls repo (give_slot w (row pull)))) pulls
        (λ pull i.
          row-IsAllowed pulls base repo pull i w now args.quiet args.stale_after (is_strict strict)
            nu))
