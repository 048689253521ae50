-- ===== src/Descriptors/Conflicts/Blame.antt =====
-- gates/_descriptors.py, `conflicts`: whom the holders of one key blame.
use vibe_verifier.Base.{
  ◌≡◌, refl, sym, ap, ◌∙◌, inl, inr, Bool, true, false, ◌||◌, Option, none, some, List, [], ◌∷◌,
  ◌++◌, if◌then◌else◌, any, any-append, select, In, arith, Bool-cases,
}
use vibe_verifier.Base.Text.{Text, same, same_iff}
use vibe_verifier.Descriptors.Conflicts.{Claim, is_named, is_gate, blames, blame_one, blame}

pub same_refl : (s : Text) → same s s ≡ true
same_refl s = (same_iff s s).1 refl

pub some_same : {A : Type 0} {x y : A} → some x ≡ some y → x ≡ y
some_same h = cc

module _ {A : Type 0} where
  pub any-In : (p : A → Bool) (x : A) (xs : List A) → In x xs → p x ≡ true → any p xs ≡ true
  any-In p x [] i h = elim i [ ]
  any-In p x (y ∷ ys) (inl e) h = let here : p y ≡ true = ap p (sym e) ∙ h in ground arith
  any-In p x (y ∷ ys) (inr i) h = ground (arith, any-In p x ys i h)

  pub none-In : (p : A → Bool) (x : A) (xs : List A) → any p xs ≡ false → In x xs → p x ≡ false
  none-In p x xs h i = elim (Bool-cases (p x)) [
    | inl e ↦ let found = any-In p x xs i e in absurd (cc)
    | inr e ↦ e
  ]

  pub In-select_of :
      (p : A → Bool) (x : A) (xs : List A) → In x xs → p x ≡ true → In x (select p xs)
  In-select_of p x [] i h = elim i [ ]
  In-select_of p x (y ∷ ys) (inl e) h = let here : p y ≡ true = ap p (sym e) ∙ h in rw here (inl e)
  In-select_of p x (y ∷ ys) (inr i) h = elim (Bool-cases (p y)) [
    | inl e ↦ rw e (inr (In-select_of p x ys i h))
    | inr e ↦ rw e (In-select_of p x ys i h)
  ]

  pub In-back : (x : A) (xs ys : List A) → In x ys → In x (xs ++ ys)
  In-back x [] ys i = i
  In-back x (z ∷ xs) ys i = inr (In-back x xs ys i)

pub blames_added :
    (g gate reason : Text) (why : List (Text × Text))
    → blames g (if blames gate why then why else why ++ (gate, reason) ∷ [])
      ≡ (blames g why || same g gate)
blames_added g gate reason why = elim (Bool-cases (blames gate why)) [
  | inl e ↦ rw e (elim (Bool-cases (same g gate)) [
    | inl s ↦
        let equal : g ≡ gate = (same_iff g gate).0 s in
        let blamed : blames g why ≡ true = ap (λ t. blames t why) equal ∙ e in ground arith
    | inr s ↦ ground arith
  ])
  | inr e ↦ rw e (
      ground
        (arith, any-append (λ (entry : Text × Text). same g entry.0) why ((gate, reason) ∷ [])))
]

pub blames-blame_one :
    (g reason : Text) (o : Option Text) (why : List (Text × Text))
    → blames g (blame_one reason o why) ≡ (blames g why || is_named g o)
blames-blame_one g reason none why = ground arith
blames-blame_one g reason (some gate) why = blames_added g gate reason why

pub blames-blame :
    (g reason : Text) (held : List Claim) (why : List (Text × Text))
    → blames g (blame reason held why) ≡ (blames g why || any (is_gate g) held)
blames-blame g reason [] why = ground arith
blames-blame g reason (claim ∷ held) why =
    let first_one = blames-blame_one g reason claim.gate why in
    blames-blame g reason held (blame_one reason claim.gate why) ∙ ground arith
