-- ===== src/PinMerge/Changes/Lines.antt =====
-- gates/_pin_merge.py, `not_pins`: a bump it has no reason against moves pins and nothing else.
use vibe_verifier.Base.{
  ℕ, ◌<◌, inl, inr, ◌≡◌, ◌⊎◌, refl, Bool, true, not, ◌||◌, Option, none, some, List, [], ◌∷◌,
  Result, ok, eqb, eqb_iff, leb, length, drop, All, arith, Bool-cases, Option-cases, returned,
}
use vibe_verifier.Base.Text.{Text, same, same_iff, split}
use vibe_verifier.PinMerge.Pin.{moved_pin}
use vibe_verifier.PinMerge.Pin.Line.{MovedPin, moved_pin-MovedPin}
use vibe_verifier.PinMerge.Changes.{
  Stop, File, Compare, Contents, is_workflow, is_modified, other_line, lines_not_pins,
  texts_not_pins, file_not_pins, first_reason, prefix_of, is_of, not_pins,
}

-- Two texts of as many lines, each line unchanged or a moved pin
abbrev pub PinsMoved : (Text → Text → Type 0) → List Text → List Text → Type 0
PinsMoved Moved [] [] = Unit
PinsMoved Moved [] (after' ∷ new) = ⊥
PinsMoved Moved (before ∷ old) [] = ⊥
PinsMoved Moved (before ∷ old) (after' ∷ new) =
    ((before ≡ after') ⊎ Moved before after') × PinsMoved Moved old new

other_line-PinsMoved :
    (pin : Text → Text → Bool) (Moved : Text → Text → Type 0)
    → ((before after' : Text) → pin before after' ≡ true → Moved before after')
    → (old new : List Text) → length old ≡ length new
    → other_line pin old new ≡ none
    → PinsMoved Moved old new
unfolding other_line
other_line-PinsMoved pin Moved sound [] [] sized h = tt
other_line-PinsMoved pin Moved sound [] (after' ∷ new) sized h = omega (arith, sized)
other_line-PinsMoved pin Moved sound (before ∷ old) [] sized h = omega (arith, sized)
other_line-PinsMoved pin Moved sound (before ∷ old) (after' ∷ new) sized h = (
  elim (Bool-cases (same before after')) [
    | inl e ↦ inl ((same_iff before after').0 e)
    | inr e ↦ elim (Bool-cases (pin before after')) [
      | inl moved ↦ inr (sound before after' moved)
      | inr still ↦ ground arith
    ]
  ],
  other_line-PinsMoved pin Moved sound old new (omega (arith, sized)) (ground arith),
)

-- What a bump may do to one file: `base` and `head` are the two commits.
pub FileMoved : Contents → (Text → Text → Type 0) → Text → Text → File → Type 0
FileMoved contents Moved base head changed =
    (is_modified changed ≡ true)
    × (is_workflow changed.filename ≡ true)
    × (old : Text) × (new : Text) × (contents changed.filename base ≡ ok (some old))
    × (contents changed.filename head ≡ ok (some new))
    × PinsMoved Moved (split 10 old) (split 10 new)

lines_not_pins-none :
    (pin : Text → Text → Bool) (named path : Text) (old new : List Text)
    → lines_not_pins pin named path old new ≡ none
    → (length old ≡ length new) × (other_line pin old new ≡ none)
unfolding lines_not_pins
lines_not_pins-none pin named path old new h = (
  ground (arith, eqb_iff (length old) (length new)),
  elim (Option-cases (other_line pin old new)) [ inl e ↦ e | inr (other, e) ↦ ground arith ],
)

texts_not_pins-none :
    (pin : Text → Text → Bool) (named path : Text) (old new : Option Text)
    → texts_not_pins pin named path old new ≡ none
    → (s : Text) × (t : Text) × (old ≡ some s)
      × (new ≡ some t)
      × (length (split 10 s) ≡ length (split 10 t))
      × (other_line pin (split 10 s) (split 10 t) ≡ none)
texts_not_pins-none pin named path none new h = ground arith
texts_not_pins-none pin named path (some s) none h = ground arith
texts_not_pins-none pin named path (some s) (some t) h =
    let (sized, still) = lines_not_pins-none pin named path (split 10 s) (split 10 t) h in
    (s, t, refl, refl, sized, still)

ok-injective : {A : Type 0} → {a b : A} → ◌≡◌ {A = Result Stop A} (ok a) (ok b) → a ≡ b
ok-injective h = ground arith

file_not_pins-FileMoved :
    (contents : Contents) (changed : File) (base head : Text) (pin : Text → Text → Bool)
    (named : Text) (Moved : Text → Text → Type 0)
    → ((before after' : Text) → pin before after' ≡ true → Moved before after')
    → file_not_pins contents changed base head pin named ≡ ok none
    → FileMoved contents Moved base head changed
unfolding file_not_pins FileMoved
file_not_pins-FileMoved contents changed base head pin named Moved sound h =
    elim (Bool-cases (not (is_modified changed) || not (is_workflow changed.filename))) [
      | inl e ↦ ground arith
      | inr e ↦
          let (old, reads, h') = returned (contents changed.filename base) _ none (rw e at h) in
          let (new, reads', h'') = returned (contents changed.filename head) _ none h' in
          let (s, t, is_old, is_new, sized, still) =
            texts_not_pins-none pin named changed.filename old new (ok-injective h'') in
          (
            ground arith,
            ground arith,
            s,
            t,
            rw is_old at reads,
            rw is_new at reads',
            other_line-PinsMoved pin Moved sound (split 10 s) (split 10 t) sized still,
          )
    ]

first_reason-none :
    (reason : File → Result Stop (Option Text)) (P : File → Type 0)
    → ((changed : File) → reason changed ≡ ok none → P changed)
    → (files : List File) → first_reason reason files ≡ ok none
    → All P files
unfolding first_reason
first_reason-none reason P sound [] h = tt
first_reason-none reason P sound (changed ∷ files) h =
    let (why, found, rest) = returned (reason changed) _ none h in
    elim (Option-cases why) [
      | inl e ↦
          (sound changed (rw e at found), first_reason-none reason P sound files (ground arith))
      | inr (found', e) ↦ ground arith
    ]

-- A bump that `not_pins` has no reason against
pub record OnlyPins (is_word : ℕ → Bool) (contents : Contents) (repo : Text) (compare : Compare)
    (head branch : Text) (on_main : Text → Text → Bool) : Type 0 where
  pub prefix : Text
  pub has_prefix : prefix_of branch ≡ ok prefix
  pub named_on_main : on_main prefix (drop (length prefix) branch) ≡ true
  pub some_files : 0 < length compare.files
  pub all_files : length compare.files < 300
  pub moved :
      All
        (FileMoved contents
          (MovedPin is_word
            (is_of is_word repo prefix)
            (drop (length prefix) branch)
            (on_main prefix))
          compare.merge_base
          head)
        compare.files

-- Where `not_pins` has no reason against a bump, its branch is named for a commit on the main it pins
-- from, GitHub listed all its files, and in each of them, an existing workflow, every line that the
-- bump changed is a pin of the catalog (the wrapper) that moved to that commit.
pub not_pins-OnlyPins :
    (is_word : ℕ → Bool) (contents : Contents) (repo : Text) (compare : Compare)
    (head branch : Text) (on_main : Text → Text → Bool)
    → not_pins is_word contents repo compare head branch on_main ≡ ok none
    → OnlyPins is_word contents repo compare head branch on_main
unfolding not_pins
not_pins-OnlyPins is_word contents repo compare head branch on_main h =
    elim (Bool-cases (eqb (length compare.files) 0 || leb 300 (length compare.files))) [
      | inl e ↦ ground arith
      | inr e ↦
          let (prefix, found, h') = returned (prefix_of branch) _ none (rw e at h) in
          elim (Bool-cases (not (on_main prefix (drop (length prefix) branch)))) [
            | inl off ↦ ground arith
            | inr on ↦ record {
              prefix = prefix;
              has_prefix = found;
              named_on_main = ground arith;
              some_files = ground arith;
              all_files = ground arith;
              moved =
                  first_reason-none _ _
                    (λ changed.
                      file_not_pins-FileMoved contents changed compare.merge_base head
                        (moved_pin is_word (is_of is_word repo prefix) (drop (length prefix) branch)
                          (on_main prefix))
                        (drop (length prefix) branch)
                        (MovedPin is_word (is_of is_word repo prefix) (drop (length prefix) branch)
                          (on_main prefix))
                        (moved_pin-MovedPin is_word _ _ _))
                    compare.files (rw on at h');
            }
          ]
    ]
