-- ===== src/Base/Errors.antt =====
-- A computation that may raise, over any type of exceptions.
use mathlib.Core.Path.{◌≡◌, refl}

pub data Result {ℓ κ} (E : Type ℓ) (A : Type κ) : Type (ℓ ⊔ κ) where
  ok : A → Result E A
  err : E → Result E A

module _ {ℓ κ μ} {E : Type ℓ} {A : Type κ} {B : Type μ} where
  infixl 5 ◌>>=◌ ◌>>◌
  -- The first exception that is raised ends the block.
  abbrev pub ◌>>=◌ : Result E A → (A → Result E B) → Result E B
  err why >>= rest = err why
  ok value >>= rest = rest value

  abbrev pub ◌>>◌ : Result E A → Result E B → Result E B
  err why >> rest = err why
  ok value >> rest = rest

  -- What a block that returned has computed.
  abbrev pub Returned : Result E A → (A → Result E B) → B → Type (ℓ ⊔ κ ⊔ μ)
  Returned m rest b = (value : A) × (m ≡ ok value) × (rest value ≡ ok b)

  pub returned :
      (m : Result E A) (rest : A → Result E B) (b : B) → (m >>= rest) ≡ ok b → Returned m rest b
  returned (err why) rest b h = cc
  returned (ok value) rest b h = (value, refl, h)
