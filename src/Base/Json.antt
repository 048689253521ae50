-- ===== src/Base/Json.antt =====
-- The values that `json.loads` gives, and how Python reads them.
pub mod Dict
use vibe_verifier.Base.{
  ℕ, String, ◌==◌, Bool, true, false, List, [], ◌∷◌, Option, none, some, eqb, if◌then◌else◌, not,
  is_empty, Result, ok, err,
}
use vibe_verifier.Base.Text.{Text, text}

-- `negsuc n` is the integer -(n + 1). A number that is no integer keeps its literal.
mutual
  pub data Json : Type 0 where
    null : Json
    bool : Bool → Json
    int : ℕ → Json
    negsuc : ℕ → Json
    float : Text → Json
    str : Text → Json
    arr : Items → Json
    obj : Fields → Json

  pub data Items : Type 0 where
    nil : Items
    cons : Json → Items → Items

  pub data Fields : Type 0 where
    end : Fields
    field : String → Json → Fields → Fields

-- `d.get(k)` on a dict; its keys are distinct.
unfoldable pub lookup : String → Fields → Option Json
lookup k end = none
lookup k (field j v fs) = let rest = lookup k fs in if k == j then some v else rest

abbrev pub to_list : Items → List Json
to_list nil = []
to_list (cons v vs) = v ∷ to_list vs

-- Python's truth of a value. `0.0` is the one float literal that is false.
unfoldable pub truthy : Json → Bool
truthy null = false
truthy (bool b) = b
truthy (int n) = not (eqb n 0)
truthy (negsuc n) = true
truthy (float s) = true
truthy (str s) = not (is_empty s)
truthy (arr nil) = false
truthy (arr (cons v vs)) = true
truthy (obj end) = false
truthy (obj (field k v fs)) = true

-- The exceptions of a read that does not fit the value.
pub data Misread : Type 0 where
  key_error : String → Misread
  type_error : Text → Misread
  attribute_error : Text → Misread

-- `type(v).__name__`
unfoldable pub type_name : Json → Text
type_name null = text "NoneType"
type_name (bool b) = text "bool"
type_name (int n) = text "int"
type_name (negsuc n) = text "int"
type_name (float s) = text "float"
type_name (str s) = text "str"
type_name (arr vs) = text "list"
type_name (obj fs) = text "dict"

-- `v[k]` for a text `k`
unfoldable pub index : String → Json → Result Misread Json
unfolding lookup type_name
index k (obj fs) = elim (lookup k fs) [ none ↦ err (key_error k) | some v ↦ ok v ]
index k v = err (type_error (type_name v))

-- `v.get(k)`
unfoldable pub get : String → Json → Result Misread Json
unfolding lookup type_name
get k (obj fs) = elim (lookup k fs) [ none ↦ ok null | some v ↦ ok v ]
get k v = err (attribute_error (type_name v))
