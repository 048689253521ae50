-- ===== src/Base/Json/Dict.antt =====
-- Dicts that are written: `d[k] = v`, `d.pop(k, None)`, and what `d.get` gives behind them.
use vibe_verifier.Base.{
  String, ◌==◌, eq_iff, eq_refl, ◌≡◌, refl, subst, ap, inl, inr, Bool, true, false, Option, none,
  some, if◌then◌else◌, Bool-cases, arith,
}
use vibe_verifier.Base.Json.{Json, null, Fields, end, field, lookup}

-- `d[k] = v`; a new key stands last.
unfoldable pub set : String → Json → Fields → Fields
set k v end = field k v end
set k v (field j w fs) = let rest = set k v fs in if k == j then field j v fs else field j w rest

-- `d.pop(k, None)`, what it leaves
unfoldable pub remove : String → Fields → Fields
remove k end = end
remove k (field j w fs) = let rest = remove k fs in if k == j then rest else field j w rest

abbrev pub or_null : Option Json → Json
or_null none = null
or_null (some v) = v

-- `d.get(k)`
unfoldable pub at : String → Fields → Json
unfolding lookup
at k fs = or_null (lookup k fs)

unfoldable pub present : String → Fields → Bool
present k end = false
present k (field j v fs) = let rest = present k fs in if k == j then true else rest

pub lookup-set : (k : String) (v : Json) (fs : Fields) → lookup k (set k v fs) ≡ some v
unfolding lookup set
lookup-set k v end = rw (eq_refl k) refl
lookup-set k v (field j w fs) = elim (Bool-cases (k == j)) [
  | inl e ↦ rw (e, e) refl
  | inr e ↦ rw (e, e) (lookup-set k v fs)
]

pub lookup-set_other :
    (j k : String) (v : Json) (fs : Fields) → (j == k) ≡ false → lookup j (set k v fs) ≡ lookup j fs
unfolding lookup set
lookup-set_other j k v end h = rw h refl
lookup-set_other j k v (field i w fs) h = elim (Bool-cases (k == i)) [
  | inl e ↦
      let apart : (j == i) ≡ false = subst (λ z. (j == z) ≡ false) ((eq_iff k i).0 e) h in
      rw e (rw apart refl)
  | inr e ↦ rw e (rw (lookup-set_other j k v fs h) refl)
]

pub at-set : (k : String) (v : Json) (fs : Fields) → at k (set k v fs) ≡ v
unfolding at
at-set k v fs = rw (lookup-set k v fs) refl

pub at-set_other :
    (j k : String) (v : Json) (fs : Fields) → (j == k) ≡ false → at j (set k v fs) ≡ at j fs
unfolding at
at-set_other j k v fs h = ap or_null (lookup-set_other j k v fs h)

pub at-remove_other : (j k : String) (fs : Fields) → (j == k) ≡ false → at j (remove k fs) ≡ at j fs
unfolding at remove lookup
at-remove_other j k end h = refl
at-remove_other j k (field i w fs) h = elim (Bool-cases (k == i)) [
  | inl e ↦
      let apart : (j == i) ≡ false = subst (λ z. (j == z) ≡ false) ((eq_iff k i).0 e) h in
      rw e (rw apart (at-remove_other j k fs h))
  | inr e ↦ ground (arith, at-remove_other j k fs h)
]

-- A key that is not there has no value.
pub at-present : (k : String) (fs : Fields) → present k fs ≡ false → at k fs ≡ null
unfolding at present lookup
at-present k end h = refl
at-present k (field j v fs) h = ground (arith, at-present k fs)
