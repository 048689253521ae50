-- ===== src/Schema.antt =====
-- gates/_schema_subset.py: the subset of JSON Schema that a report of grades is checked by. A schema is given
-- as the file has it, `items` and `properties` where it has them.
pub mod Conforms
use vibe_verifier.Base.{
  ℕ, zero, suc, ◌+◌, String, ◌==◌, Bool, true, false, not, ◌&&◌, ◌||◌, Option, none, some, List, [],
  ◌∷◌, ◌++◌, map, if◌then◌else◌, any, is_empty, select,
}
use vibe_verifier.Base.Text.{Text, text, same, join, decimal}
use vibe_verifier.Base.Json.{
  Json, null, bool, int, negsuc, float, str, arr, obj, Items, nil, cons, Fields, end, field, lookup,
  to_list,
}
use vibe_verifier.Base.Json.Dict.{present}

-- `KINDS`, and `integer`
pub data Kind : Type 0 where
  object : Kind
  array : Kind
  string : Kind
  empty : Kind
  integer : Kind

abbrev pub kind_name : Kind → Text
kind_name object = text "object"
kind_name array = text "array"
kind_name string = text "string"
kind_name empty = text "null"
kind_name integer = text "integer"

-- `enum` is none where the schema has none; `closed` says that `additionalProperties` is false.
pub record Rules : Type 0 where
  pub kinds : List Kind
  pub enum : Option (List Text)
  pub required : List String
  pub closed : Bool

mutual
  pub data Schema : Type 0 where
    schema : Rules → Inner → Properties → Schema

  -- `items`
  pub data Inner : Type 0 where
    anything : Inner
    each : Schema → Inner

  pub data Properties : Type 0 where
    no_more : Properties
    property : String → Schema → Properties → Properties

-- `kind_matches`
unfoldable pub kind_matches : Json → Kind → Bool
kind_matches (obj fs) object = true
kind_matches (arr vs) array = true
kind_matches (str s) string = true
kind_matches null empty = true
kind_matches (int n) integer = true
kind_matches (negsuc n) integer = true
kind_matches _ _ = false

-- `value in schema["enum"]`, whose items are texts
abbrev pub in_enum : Json → List Text → Bool
in_enum (str s) names = any (same s) names
in_enum v names = false

abbrev pub keys : Fields → List String
keys end = []
keys (field k v fs) = k ∷ keys fs

abbrev pub has_property : String → Properties → Bool
has_property k no_more = false
has_property k (property j s more) = k == j || has_property k more

abbrev pub texts : List String → List Text
texts [] = []
texts (s ∷ ss) = text s ∷ texts ss

-- The first problem of two
abbrev pub or_else : Option Text → Option Text → Option Text
or_else none other = other
or_else (some why) other = some why

abbrev pub failed : Bool → Text → Option Text
failed b why = if b then some why else none

-- The kinds of a rule that is there: `kinds and not any(...)`
abbrev pub kind_problem : List Kind → Json → Text → Option Text
kind_problem [] v path = none
kind_problem (kind ∷ kinds) v path =
    failed (not (any (kind_matches v) (kind ∷ kinds)))
      (path ++ text " is not " ++ join (text " or ") (map kind_name (kind ∷ kinds)))

-- `shown` is Python's `%r` of a value.
module _ (shown : Json → Text) where
  abbrev pub enum_problem : Option (List Text) → Json → Text → Option Text
  enum_problem none v path = none
  enum_problem (some names) v path =
      failed (not (in_enum v names))
        (path ++ text " is " ++ shown v ++ text ", not one of " ++ join (text ", ") names)

  -- The first item with a problem
  abbrev pub item_problem : (Json → Text → Option Text) → Text → ℕ → List Json → Option Text
  item_problem check path n [] = none
  item_problem check path n (v ∷ vs) =
      or_else (check v (path ++ text "[" ++ decimal n ++ text "]"))
        (item_problem check path (suc n) vs)

  -- What `object_problem` says of the keys: `missing`, then `extra`
  abbrev pub key_problem : Rules → Properties → Fields → Text → Option Text
  key_problem rules properties fs path =
      let missing = select (λ key. not (present key fs)) rules.required in
      let extra =
        if rules.closed then select (λ key. not (has_property key properties)) (keys fs) else [] in
      or_else
        (failed (not (is_empty missing))
          (path ++ text " lacks " ++ join (text ", ") (texts missing)))
        (failed (not (is_empty extra)) (path ++ text " has " ++ join (text ", ") (texts extra)))

  abbrev pub checked_at : (Json → Text → Option Text) → Text → Option Json → Option Text
  checked_at check path none = none
  checked_at check path (some v) = check v path

  -- Behind the kinds and the enum: the fields of a dict, or the items of a list
  abbrev pub inside_problem :
      Rules
      → Properties
      → (Json → Text → Option Text)
      → (Fields → Text → Option Text)
      → Json
      → Text
      → Option Text
  inside_problem rules properties check check_fields (obj fs) path =
      or_else (key_problem rules properties fs path) (check_fields fs path)
  inside_problem rules properties check check_fields (arr vs) path =
      item_problem check path 0 (to_list vs)
  inside_problem rules properties check check_fields v path = none

  -- `schema_problem`; `object_problem` is its case of a dict.
  unfoldable mutual
    unfolding kind_matches lookup present

    pub schema_problem : Schema → Json → Text → Option Text
    schema_problem (schema rules inner properties) v path =
        or_else (kind_problem rules.kinds v path) (
          or_else (enum_problem rules.enum v path) (
            inside_problem rules properties (items_problem inner) (property_problem properties) v
              path))

    pub items_problem : Inner → Json → Text → Option Text
    items_problem anything v path = none
    items_problem (each s) v path = schema_problem s v path

    pub property_problem : Properties → Fields → Text → Option Text
    property_problem no_more fs path = none
    property_problem (property key s more) fs path =
        or_else (checked_at (schema_problem s) (path ++ text "." ++ text key) (lookup key fs))
          (property_problem more fs path)
