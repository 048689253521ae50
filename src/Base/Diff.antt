-- ===== src/Base/Diff.antt =====
-- What `difflib.SequenceMatcher(None, a, b, autojunk=False)` leaves out of the blocks that it matches:
-- the lines of `a` and of `b` in its opcodes other than `equal`, in their order. A line carries what it
-- is compared by.
pub mod Sound
pub mod Rounds
use vibe_verifier.Base.{
  ℕ, zero, suc, ◌+◌, Bool, true, false, List, [], ◌∷◌, ◌++◌, if◌then◌else◌, ltb, eqb, length, take,
  drop,
}
use vibe_verifier.Base.Text.{Text, same}

pub record Line : Type 0 where
  pub compared : Text
  pub written : Text

-- How many lines the fronts of two lists have in common
unfoldable pub common : List Line → List Line → ℕ
common [] bs = 0
common (a ∷ as') [] = 0
common (a ∷ as') (b ∷ bs) =
    let more = common as' bs in if same a.compared b.compared then suc more else 0

-- A block: where it starts in each list, and its length
pub record Block : Type 0 where
  pub in_a : ℕ
  pub in_b : ℕ
  pub size : ℕ

abbrev pub longer : Block → Block → Block
longer best found = if ltb best.size found.size then found else best

-- The best block that starts at a line of `a`: the longest, and of those the first in `b`
unfoldable pub best_in_b : ℕ → ℕ → List Line → List Line → Block → Block
unfolding common
best_in_b i j as' [] best = best
best_in_b i j as' (b ∷ bs) best =
    best_in_b i (suc j) as' bs
      (longer best (record { in_a = i; in_b = j; size = common as' (b ∷ bs) }))

-- `find_longest_match`: the longest block, of those the first in `a`, and of those the first in `b`
unfoldable pub best_in_a : ℕ → List Line → List Line → Block → Block
unfolding best_in_b
best_in_a i [] bs best = best
best_in_a i (a ∷ as') bs best = best_in_a (suc i) as' bs (best_in_b i 0 (a ∷ as') bs best)

unfoldable pub longest : List Line → List Line → Block
unfolding best_in_a
longest as' bs = best_in_a 0 as' bs (record { in_a = 0; in_b = 0; size = 0 })

-- Around the longest block, and no further where there is none. A round takes a line of `a` at least, so
-- as many rounds as `a` has lines are enough.
unfoldable pub diff_rounds : ℕ → List Line → List Line → List Line × List Line
unfolding longest
diff_rounds zero as' bs = (as', bs)
diff_rounds (suc rounds) as' bs =
    let block = longest as' bs in
    let (removed, added) = diff_rounds rounds (take block.in_a as') (take block.in_b bs) in
    let (removed', added') =
      diff_rounds rounds (drop (block.in_a + block.size) as') (drop (block.in_b + block.size) bs) in
    if eqb block.size 0 then (as', bs) else (removed ++ removed', added ++ added')

-- The lines of `a` and of `b` that are in no block
unfoldable pub diff : List Line → List Line → List Line × List Line
unfolding diff_rounds
diff as' bs = diff_rounds (length as') as' bs
