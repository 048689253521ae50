-- ===== src/Tests/Shards.antt =====
-- The theorems on the explorers' shares at concrete inputs (bin/cli/qae_shards.py).
use vibe_verifier.Base.{◌≡◌, refl, inl, inr, List, [], ◌∷◌, All}
use vibe_verifier.Base.Text.{text, same}
use vibe_verifier.Shards.{Item, criterion_chains, shard_shares}
use vibe_verifier.Shards.Partition.{count, total, total-shard_shares}
use vibe_verifier.Shards.Chained.{Carries}
use vibe_verifier.Shards.Found.{HaveBoth}
use vibe_verifier.Shards.Whole.{shard_shares-Whole}

abbrev sign_in : Item
sign_in = record { id = text "AC1"; roles = text "admin" ∷ text "user" ∷ []; named = [] }

abbrev sign_out : Item
sign_out = record { id = text "AC2"; roles = []; named = text "AC1" ∷ [] }

abbrev criteria : List Item
criteria = sign_in ∷ sign_out ∷ []

total-shard_shares_example :
    total (λ item. same item.id (text "AC2")) (shard_shares criteria 2 3 1)
    ≡ count (λ item. same item.id (text "AC2")) criteria
total-shard_shares_example = total-shard_shares (λ item. same item.id (text "AC2")) criteria 2 2 1

shard_shares-Whole_example :
    HaveBoth sign_out sign_in (shard_shares criteria 2 3 1)
    × All (Carries sign_out sign_in) (criterion_chains criteria)
shard_shares-Whole_example =
    shard_shares-Whole criteria 2 2 1 sign_out sign_in (inr (inl refl)) (inl refl) (inl refl)
