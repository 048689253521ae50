-- ===== src/MergeGrant/Content.antt =====
-- gates/_merge_grant.py, `_json`, `_without`, `_at`, `_holds`: an entry's condition on the content of the
-- files that its path matches. Values too deep to compare are not modelled.
use vibe_verifier.Base.{
  ℕ, suc, Bool, true, false, ◌&&◌, Option, none, some, List, [], ◌∷◌, ◌++◌, Result, ok, err, ◌>>=◌,
  if◌then◌else◌, eqb,
}
use vibe_verifier.Base.Text.{Text, text, same}
use vibe_verifier.Base.Json.{
  Json, null, bool, int, negsuc, float, str, arr, obj, Items, nil, cons, Fields, end, field,
}

-- A key of a condition: as it is written, and its parts between dots.
pub record Key : Type 0 where
  pub written : Text
  pub parts : List Text

-- `_No`, with its reason
abbrev pub No : Type 0
No = Text

-- `value.get(key)` of a dict
unfoldable pub get_key : Text → Fields → Option Json
get_key key end = none
get_key key (field k v fs) = let rest = get_key key fs in if same (text k) key then some v else rest

abbrev pub pop : Text → Fields → Fields
pop key end = end
pop key (field k v fs) = let rest = pop key fs in if same (text k) key then rest else field k v rest

abbrev pub set_key : Text → Json → Fields → Fields
set_key key new end = end
set_key key new (field k v fs) =
    let rest = set_key key new fs in if same (text k) key then field k new rest else field k v rest

-- The value without the last of the parts, or none where the parent it would be in is absent or null; a
-- part in between that is neither that nor an object is a no.
unfoldable pub remove_at : Text → List Text → Fields → Result No (Option Fields)
unfolding get_key
remove_at key [] fs = ok none
remove_at key (part ∷ []) fs = ok (some (pop part fs))
remove_at key (part ∷ next ∷ parts) fs =
    elim (get_key part fs) as (λ _. Result No (Option Fields)) [
      | none ↦ ok none
      | some null ↦ ok none
      | some (obj inner) ↦ remove_at key (next ∷ parts) inner >>= λ kept.
          ok (elim kept [ none ↦ none | some fs' ↦ some (set_key part (obj fs') fs) ])
      | some _ ↦ err (part ++ text " is not an object, so " ++ key ++ text " cannot be told apart")
    ]

abbrev pub is_empty_object : Option Json → Bool
is_empty_object (some (obj end)) = true
is_empty_object _ = false

-- A first part that the removal left empty is removed too.
abbrev pub pruned : List Text → Fields → Fields
pruned [] fs = fs
pruned (part ∷ []) fs = fs
pruned (part ∷ next ∷ parts) fs = if is_empty_object (get_key part fs) then pop part fs else fs

-- `_without`
unfoldable pub without : List Key → Fields → Result No Fields
unfolding remove_at
without [] fs = ok fs
without (key ∷ keys) fs = remove_at key.written key.parts fs >>= λ kept. elim kept [
  | none ↦ without keys fs
  | some fs' ↦ without keys (pruned key.parts fs')
]

-- `_at`
unfoldable pub at_parts : List Text → Json → Json
unfolding get_key
at_parts [] v = v
at_parts (part ∷ parts) (obj fs) = elim (get_key part fs) [
  | none ↦ at_parts parts null
  | some v ↦ at_parts parts v
]
at_parts (part ∷ parts) v = at_parts parts null

abbrev pub size : Fields → ℕ
size end = 0
size (field k v fs) = suc (size fs)

-- A number as the integer that it equals, the sign apart; Python's `True` is 1.
abbrev pub integer_of : Json → Option (Bool × ℕ)
integer_of (bool true) = some (false, 1)
integer_of (bool false) = some (false, 0)
integer_of (int n) = some (false, n)
integer_of (negsuc n) = some (true, n)
integer_of v = none

abbrev pub same_integer : Bool × ℕ → Bool × ℕ → Bool
same_integer (true, m) (true, n) = eqb m n
same_integer (false, m) (false, n) = eqb m n
same_integer (true, m) (false, n) = false
same_integer (false, m) (true, n) = false

-- `==` on what `json.loads` gives; `same_float` is that of two numbers of which one at least is a float.
module _ (same_float : Json → Json → Bool) where
  abbrev pub same_scalar : Json → Json → Bool
  same_scalar null null = true
  same_scalar (str s) (str t) = same s t
  same_scalar (float s) w = same_float (float s) w
  same_scalar v (float t) = same_float v (float t)
  same_scalar v w = elim (integer_of v) [
    | none ↦ false
    | some m ↦ elim (integer_of w) [ none ↦ false | some n ↦ same_integer m n ]
  ]

  unfoldable mutual
    unfolding get_key

    pub equal : Json → Json → Bool
    equal (arr vs) (arr ws) = equal_items vs ws
    equal (obj fs) (obj gs) = eqb (size fs) (size gs) && equal_fields fs gs
    equal null w = same_scalar null w
    equal (bool b) w = same_scalar (bool b) w
    equal (int n) w = same_scalar (int n) w
    equal (negsuc n) w = same_scalar (negsuc n) w
    equal (float s) w = same_scalar (float s) w
    equal (str s) w = same_scalar (str s) w
    equal (arr vs) w = false
    equal (obj fs) w = false

    pub equal_items : Items → Items → Bool
    equal_items nil nil = true
    equal_items (cons v vs) (cons w ws) = equal v w && equal_items vs ws
    equal_items nil (cons w ws) = false
    equal_items (cons v vs) nil = false

    pub equal_fields : Fields → Fields → Bool
    equal_fields end gs = true
    equal_fields (field k v fs) gs =
        elim (get_key (text k) gs) [ none ↦ false | some w ↦ equal v w ] && equal_fields fs gs
