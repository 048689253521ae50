-- ===== src/Schema/Conforms.antt =====
-- gates/_schema_subset.py, `schema_problem`: a value without a problem has the type that its schema says.
use vibe_verifier.Base.{
  ℕ, suc, String, ◌≡◌, refl, sym, ap, ◌∙◌, ◌↔◌, inl, inr, Bool, true, false, not, Option, none,
  some, List, [], ◌∷◌, ◌++◌, if◌then◌else◌, any, is_empty, select, All, In, arith, Bool-cases,
}
use vibe_verifier.Base.Text.{Text, text, same, same_iff}
use vibe_verifier.Base.Json.{Json, str, arr, obj, Fields, lookup, to_list}
use vibe_verifier.Base.Json.Dict.{present}
use vibe_verifier.Schema.{
  Kind, Rules, Schema, schema, Inner, anything, each, Properties, no_more, property, kind_matches,
  in_enum, keys, has_property, or_else, failed, kind_problem, enum_problem, item_problem,
  key_problem, checked_at, inside_problem, schema_problem, items_problem, property_problem,
}

-- The value is of one of the kinds, where there are any.
abbrev pub HasKind : List Kind → Json → Type 0
HasKind [] v = Unit
HasKind (kind ∷ kinds) v = (k : Kind) × In k (kind ∷ kinds) × (kind_matches v k ≡ true)

abbrev pub InEnum : Option (List Text) → Json → Type 0
InEnum none v = Unit
InEnum (some names) v = (name : Text) × In name names × (v ≡ str name)

-- The dict has the keys that are required and, where it is closed, no other than the properties.
abbrev pub HasKeys : Rules → Properties → Fields → Type 0
HasKeys rules properties fs =
    All (λ (key : String). present key fs ≡ true) rules.required
    × (rules.closed ≡ true → All (λ (key : String). has_property key properties ≡ true) (keys fs))

abbrev pub Inside : Rules → Properties → (Json → Type 0) → (Fields → Type 0) → Json → Type 0
Inside rules properties P Q (obj fs) = HasKeys rules properties fs × Q fs
Inside rules properties P Q (arr vs) = All P (to_list vs)
Inside rules properties P Q v = Unit

abbrev pub ConformsAt : (Json → Type 0) → Option Json → Type 0
ConformsAt P none = Unit
ConformsAt P (some v) = P v

unfoldable mutual
  -- The type that a schema says
  pub Conforms : Schema → Json → Type 0
  Conforms (schema rules inner properties) v =
      HasKind rules.kinds v
      × (InEnum rules.enum v
          × Inside rules properties (ItemConforms inner) (FieldsConform properties) v)

  pub ItemConforms : Inner → Json → Type 0
  ItemConforms anything v = Unit
  ItemConforms (each s) v = Conforms s v

  pub FieldsConform : Properties → Fields → Type 0
  FieldsConform no_more fs = Unit
  FieldsConform (property key s more) fs =
      ConformsAt (Conforms s) (lookup key fs) × FieldsConform more fs

or_else-none : (a b : Option Text) → (or_else a b ≡ none) ↔ ((a ≡ none) × (b ≡ none))
or_else-none none b = (λ h. (refl, h), λ both. both.1)
or_else-none (some why) b = (λ h. absurd (cc), λ both. absurd (let e = both.0 in cc))

failed-none : (b : Bool) (why : Text) → (failed b why ≡ none) ↔ (b ≡ false)
failed-none true why = (λ h. absurd (cc), λ h. absurd (cc))
failed-none false why = (λ h. refl, λ h. refl)

via : {P Q R : Type 0} → (P ↔ Q) → (Q ↔ R) → (P ↔ R)
via f g = (λ p. g.0 (f.0 p), λ r. f.1 (g.1 r))

pair_of : {P Q R S : Type 0} → (P ↔ Q) → (R ↔ S) → ((P × R) ↔ (Q × S))
pair_of f g = (λ both. (f.0 both.0, g.0 both.1), λ both. (f.1 both.0, g.1 both.1))

failed-not : (b : Bool) (why : Text) → (failed (not b) why ≡ none) ↔ (b ≡ true)
failed-not true why = (λ h. refl, λ h. refl)
failed-not false why = (λ h. absurd (cc), λ h. absurd (cc))

module _ {A : Type 0} where
  any_found : (p : A → Bool) (xs : List A) → any p xs ≡ true → (x : A) × In x xs × (p x ≡ true)
  any_found p [] h = absurd (cc)
  any_found p (x ∷ xs) h = elim (Bool-cases (p x)) [
    | inl e ↦ (x, inl refl, e)
    | inr e ↦ let (y, i, k) = any_found p xs (rw e at h) in (y, inr i, k)
  ]

  any_of : (p : A → Bool) (xs : List A) → (x : A) × In x xs × (p x ≡ true) → any p xs ≡ true
  any_of p [] (x, i, k) = elim i [ ]
  any_of p (x ∷ xs) (y, inl e, k) = let first : p x ≡ true = ap p (sym e) ∙ k in ground arith
  any_of p (x ∷ xs) (y, inr i, k) = ground (arith, any_of p xs (y, i, k))

  -- Nothing is selected exactly where every item is left.
  nothing_left :
      (p : A → Bool) (xs : List A) (why : Text)
      → (failed (not (is_empty (select (λ x. not (p x)) xs))) why ≡ none) ↔ All (λ x. p x ≡ true) xs
  nothing_left p [] why = (λ h. tt, λ h. refl)
  nothing_left p (x ∷ xs) why = elim (Bool-cases (p x)) [
    | inl e ↦ rw e (via (nothing_left p xs why) (λ h. (refl, h), λ both. both.1))
    | inr e ↦ rw e (λ h. absurd (cc), λ both. absurd (let k = both.0 in cc))
  ]

kind_problem-HasKind :
    (kinds : List Kind) (v : Json) (path : Text)
    → (kind_problem kinds v path ≡ none) ↔ HasKind kinds v
kind_problem-HasKind [] v path = (λ h. tt, λ h. refl)
kind_problem-HasKind (kind ∷ kinds) v path =
    via (failed-not _ _)
      (any_found (kind_matches v) (kind ∷ kinds), any_of (kind_matches v) (kind ∷ kinds))

in_enum-In :
    (v : Json) (names : List Text)
    → (in_enum v names ≡ true) ↔ ((name : Text) × In name names × (v ≡ str name))
in_enum-In (str s) names = (
  λ h. let (name, i, k) = any_found (same s) names h in (name, i, ap str ((same_iff s name).0 k)),
  λ (name, i, k). any_of (same s) names (name, i, (same_iff s name).1 (ground arith)),
)
in_enum-In v names = (λ h. absurd (cc), λ (name, i, k). absurd (cc))

module _ (shown : Json → Text) where
  enum_problem-InEnum :
      (enum : Option (List Text)) (v : Json) (path : Text)
      → (enum_problem shown enum v path ≡ none) ↔ InEnum enum v
  enum_problem-InEnum none v path = (λ h. tt, λ h. refl)
  enum_problem-InEnum (some names) v path = via (failed-not _ _) (in_enum-In v names)

  extra-HasKeys :
      (closed : Bool) (p : String → Bool) (ks : List String) (why : Text)
      → (failed (not (is_empty (if closed then select (λ key. not (p key)) ks else []))) why ≡ none)
        ↔ (closed ≡ true → All (λ key. p key ≡ true) ks)
  extra-HasKeys true p ks why = via (nothing_left p ks why) (λ h e. h, λ h. h refl)
  extra-HasKeys false p ks why = (λ h e. absurd (cc), λ h. refl)

  key_problem-HasKeys :
      (rules : Rules) (properties : Properties) (fs : Fields) (path : Text)
      → (key_problem shown rules properties fs path ≡ none) ↔ HasKeys rules properties fs
  key_problem-HasKeys rules properties fs path = via (or_else-none _ _) (
      pair_of (nothing_left (λ key. present key fs) rules.required _)
        (extra-HasKeys rules.closed (λ key. has_property key properties) (keys fs) _))

  item_problem-All :
      (check : Json → Text → Option Text) (P : Json → Type 0) (path : Text) (n : ℕ) (vs : List Json)
      → ((v : Json) (at_path : Text) → (check v at_path ≡ none) ↔ P v)
      → (item_problem shown check path n vs ≡ none) ↔ All P vs
  item_problem-All check P path n [] f = (λ h. tt, λ h. refl)
  item_problem-All check P path n (v ∷ vs) f =
      via (or_else-none _ _) (pair_of (f v _) (item_problem-All check P path (suc n) vs f))

  inside_problem-Inside :
      (rules : Rules) (properties : Properties) (check : Json → Text → Option Text)
      (check_fields : Fields → Text → Option Text) (P : Json → Type 0) (Q : Fields → Type 0)
      (v : Json) (path : Text)
      → ((w : Json) (at_path : Text) → (check w at_path ≡ none) ↔ P w)
      → ((fs : Fields) (at_path : Text) → (check_fields fs at_path ≡ none) ↔ Q fs)
      → (inside_problem shown rules properties check check_fields v path ≡ none)
        ↔ Inside rules properties P Q v
  inside_problem-Inside rules properties check check_fields P Q (obj fs) path f g =
      via (or_else-none _ _) (pair_of (key_problem-HasKeys rules properties fs path) (g fs path))
  inside_problem-Inside rules properties check check_fields P Q (arr vs) path f g =
      item_problem-All check P path 0 (to_list vs) f
  inside_problem-Inside rules properties check check_fields P Q v path f g = (λ h. tt, λ h. refl)

  checked_at-ConformsAt :
      (check : Json → Text → Option Text) (P : Json → Type 0) (path : Text) (o : Option Json)
      → ((v : Json) → (check v path ≡ none) ↔ P v)
      → (checked_at shown check path o ≡ none) ↔ ConformsAt P o
  checked_at-ConformsAt check P path none f = (λ h. tt, λ h. refl)
  checked_at-ConformsAt check P path (some v) f = f v

  items-anything :
      (v : Json) (path : Text)
      → (items_problem shown anything v path ≡ none) ↔ ItemConforms anything v
  unfolding items_problem ItemConforms
  items-anything v path = (λ h. tt, λ h. refl)

  items-each :
      (s : Schema) (v : Json) (path : Text)
      → (schema_problem shown s v path ≡ none) ↔ Conforms s v
      → (items_problem shown (each s) v path ≡ none) ↔ ItemConforms (each s) v
  unfolding items_problem ItemConforms
  items-each s v path h = h

  property-no_more :
      (fs : Fields) (path : Text)
      → (property_problem shown no_more fs path ≡ none) ↔ FieldsConform no_more fs
  unfolding property_problem FieldsConform
  property-no_more fs path = (λ h. tt, λ h. refl)

  property-more :
      (key : String) (s : Schema) (more : Properties) (fs : Fields) (path : Text)
      → ((v : Json) (at_path : Text) → (schema_problem shown s v at_path ≡ none) ↔ Conforms s v)
      → (property_problem shown more fs path ≡ none) ↔ FieldsConform more fs
      → (property_problem shown (property key s more) fs path ≡ none)
        ↔ FieldsConform (property key s more) fs
  unfolding property_problem FieldsConform
  property-more key s more fs path f g = via (or_else-none _ _) (
      pair_of
        (checked_at-ConformsAt (schema_problem shown s) (Conforms s) (path ++ text "." ++ text key)
          (lookup key fs) (λ v. f v (path ++ text "." ++ text key)))
        g)

  schema-inside :
      (rules : Rules) (inner : Inner) (properties : Properties) (v : Json) (path : Text)
      → ((w : Json) (at_path : Text)
          → (items_problem shown inner w at_path ≡ none) ↔ ItemConforms inner w)
      → ((fs : Fields) (at_path : Text)
          → (property_problem shown properties fs at_path ≡ none) ↔ FieldsConform properties fs)
      → (schema_problem shown (schema rules inner properties) v path ≡ none)
        ↔ Conforms (schema rules inner properties) v
  unfolding schema_problem Conforms
  schema-inside rules inner properties v path f g =
      via (or_else-none (kind_problem rules.kinds v path) _) (
        pair_of (kind_problem-HasKind rules.kinds v path) (
          via (or_else-none (enum_problem shown rules.enum v path) _) (
            pair_of (enum_problem-InEnum rules.enum v path) (
              inside_problem-Inside rules properties (items_problem shown inner)
                (property_problem shown properties) (ItemConforms inner) (FieldsConform properties)
                v path f g))))

  mutual
    schema_problem_lem :
        (s : Schema) (v : Json) (path : Text)
        → (schema_problem shown s v path ≡ none) ↔ Conforms s v
    schema_problem_lem (schema rules inner properties) v path =
        schema-inside rules inner properties v path (items_problem-ItemConforms inner)
          (property_problem-FieldsConform properties)

    items_problem-ItemConforms :
        (inner : Inner) (v : Json) (path : Text)
        → (items_problem shown inner v path ≡ none) ↔ ItemConforms inner v
    items_problem-ItemConforms anything v path = items-anything v path
    items_problem-ItemConforms (each s) v path = items-each s v path (schema_problem_lem s v path)

    property_problem-FieldsConform :
        (properties : Properties) (fs : Fields) (path : Text)
        → (property_problem shown properties fs path ≡ none) ↔ FieldsConform properties fs
    property_problem-FieldsConform no_more fs path = property-no_more fs path
    property_problem-FieldsConform (property key s more) fs path =
        property-more key s more fs path (schema_problem_lem s)
          (property_problem-FieldsConform more fs path)

  -- A value has no problem exactly where it has the type that the schema says: it is of one of the kinds
  -- and of the enum, where there are any; a dict has the required keys, no other than the properties where
  -- it is closed, and under each property that it has a value that conforms to it; the items of a list
  -- conform to the schema of the items, where there is one.
  pub schema_problem-Conforms :
      (s : Schema) (v : Json) (path : Text) → (schema_problem shown s v path ≡ none) ↔ Conforms s v
  schema_problem-Conforms s v path = schema_problem_lem s v path
