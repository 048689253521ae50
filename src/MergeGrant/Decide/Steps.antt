-- ===== src/MergeGrant/Decide/Steps.antt =====
-- The checks that follow each other in `decide`: what one that went on has found.
use vibe_verifier.Base.{
  ◌≡◌, refl, Bool, true, false, Option, none, some, List, [], ◌∷◌, Result, ok, err, ◌>>◌, any,
  select, is_empty, if◌then◌else◌, arith,
}
use vibe_verifier.Base.Text.{Text}

pub nothing_selected :
    {A : Type 0} → (p : A → Bool) (xs : List A) → is_empty (select p xs) ≡ true → any p xs ≡ false
nothing_selected p [] h = refl
nothing_selected p (x ∷ xs) h = ground (arith, nothing_selected p xs)

-- A check that goes on only where a test is false
pub passed_if :
    {A : Type 0}
    → (b : Bool) (why : Text) (rest : Result Text A) (a : A) → (if b then err why else rest) ≡ ok a
    → (b ≡ false) × (rest ≡ ok a)
passed_if true why rest a h = ground arith
passed_if false why rest a h = (refl, h)

pub unless :
    {A : Type 0}
    → (b : Bool) (why : Text) (rest : Result Text A) (a : A) → (if b then rest else err why) ≡ ok a
    → (b ≡ true) × (rest ≡ ok a)
unless true why rest a h = (refl, h)
unless false why rest a h = ground arith

pub passed_unless :
    {A : Type 0}
    → (b : Bool) (a : A) (why : Text) (c : A) → (if b then ok a else err why) ≡ ok c
    → b ≡ true
passed_unless true a why c h = refl
passed_unless false a why c h = ground arith

pub true_branch :
    (b : Bool) (m : Result Text Bool)
    → (if b then m else ok false) ≡ ok true
    → (b ≡ true) × (m ≡ ok true)
true_branch true m h = (refl, h)
true_branch false m h = ground arith

pub named :
    (m : Result (List Text) Text) (why : List Text → Text) (name : Text)
    → (elim m as (λ _. Result Text Text) [ ok found ↦ ok found | err reasons ↦ err (why reasons) ])
      ≡ ok name
    → m ≡ ok name
named (ok found) why name h = ground arith
named (err reasons) why name h = absurd (cc)

-- A loop that goes on only where no reason was found
pub none_of :
    (why : Option Text) (more : Result Text (Option Text))
    → (elim why as (λ _. Result Text (Option Text)) [
      | none ↦ more
      | some reason ↦ ok (some reason)
    ])
      ≡ ok none
    → (why ≡ none) × (more ≡ ok none)
none_of none more h = (refl, h)
none_of (some reason) more h = ground arith

pub or_raise :
    {A : Type 0}
    → (why : Option Text) (more : Result Text A) (a : A)
    → (elim why as (λ _. Result Text A) [ none ↦ more | some reason ↦ err reason ]) ≡ ok a
    → (why ≡ none) × (more ≡ ok a)
or_raise none more a h = (refl, h)
or_raise (some reason) more a h = ground arith

-- A check that raised nothing, whatever it returns
abbrev pub Passed : Result Text Bool → Type 0
Passed m = (b : Bool) × (m ≡ ok b)

pub then_ok : (m n : Result Text Bool) → (m >> n) ≡ ok true → Passed m × (n ≡ ok true)
then_ok (ok b) n h = ((b, refl), h)
then_ok (err why) n h = ground arith
