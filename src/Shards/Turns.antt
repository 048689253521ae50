-- ===== src/Shards/Turns.antt =====
-- bin/cli/qae_shards.py, `explorer_turns`: the turn cap of an explorer.
use vibe_verifier.Base.{ℕ, ◌+◌, ◌*◌, ◌≤◌, arith, List}
use vibe_verifier.Shards.{Item, explorer_turns, shard_walks}

-- The turn cap of an explorer is between 80 and 240, and holds 40 turns and 30 for each walk unless the
-- walks are more than the six that an explorer is sized for.
pub explorer_turns-bounds :
    (items : List Item) (widths features states : ℕ)
    → let (walks, turns) = explorer_turns items widths features states in
      (80 ≤ turns) × (turns ≤ 240) × (walks ≤ shard_walks → 40 + 30 * walks ≤ turns)
unfolding explorer_turns
explorer_turns-bounds items widths features states =
    (omega arith, omega arith, λ sized. omega (arith, sized))
