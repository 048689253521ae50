-- ===== src/PinMerge/Pin/Line.antt =====
-- gates/_pin_merge.py, `PIN` and `moved_pin`: a line that matches is its groups written one behind the
-- other.
use mathlib.Core.List.{append_assoc}
use vibe_verifier.Base.{
  ℕ, inl, inr, zero, suc, ◌≡◌, refl, subst, ap, Bool, true, false, not, ◌&&◌, Option, none, some,
  [], ◌∷◌, ◌++◌, if◌then◌else◌, all, eqb, eqb_iff, length, take, drop, arith, Bool-cases,
  Option-cases,
}
use vibe_verifier.Base.Text.{Text, text, same_iff, starts_with, is_space}
use vibe_verifier.PinMerge.Pin.{
  Pin, span, after, read_uses, read_dash, read_key, is_at_or_space, is_hex, is_comment, is_target,
  read_sha, pin_of, moved_pin,
}

span-append : (p : ℕ → Bool) (s : Text) → (span p s).0 ++ (span p s).1 ≡ s
unfolding span
span-append p [] = refl
span-append p (c ∷ s) = elim (Bool-cases (p c)) [
  | inl e ↦ rw e (ap (λ t. c ∷ t) (span-append p s))
  | inr e ↦ rw e refl
]

after-append : (w s rest : Text) → after w s ≡ some rest → s ≡ w ++ rest
after-append [] s rest h = ground arith
after-append (w ∷ ws) [] rest h = ground arith
after-append (w ∷ ws) (c ∷ s) rest h = ground (arith, after-append ws s rest, eqb_iff w c)

take-append_drop : (n : ℕ) (s : Text) → take n s ++ drop n s ≡ s
take-append_drop zero s = refl
take-append_drop (suc n) [] = refl
take-append_drop (suc n) (c ∷ s) = ap (λ t. c ∷ t) (take-append_drop n s)

read_uses-append :
    (read s key rest : Text) → read_uses read s ≡ some (key, rest) → key ++ rest ≡ read ++ s
unfolding read_uses
read_uses-append read s key rest h = elim (Option-cases (after (text "uses:") s)) [
  | inl e ↦ ground arith
  | inr (behind, e) ↦ ground (
    arith,
    after-append (text "uses:") s behind e,
    span-append is_space behind,
    append_assoc (read ++ text "uses:") (span is_space behind).0 (span is_space behind).1,
    append_assoc read (text "uses:") behind,
  )
]

read_dash-append :
    (read s key rest : Text) → read_dash read s ≡ some (key, rest) → key ++ rest ≡ read ++ s
read_dash-append read [] key rest h = ground arith
read_dash-append read (c ∷ s) key rest h = ground (
  arith,
  read_uses-append (read ++ c ∷ (span is_space s).0) (span is_space s).1 key rest,
  append_assoc read (c ∷ (span is_space s).0) (span is_space s).1,
  span-append is_space s,
)

read_key-append : (s key rest : Text) → read_key s ≡ some (key, rest) → key ++ rest ≡ s
unfolding read_key
read_key-append s key rest h =
    elim (Option-cases (read_uses (span is_space s).0 (span is_space s).1)) [
      | inl e ↦ ground (
        arith,
        read_dash-append (span is_space s).0 (span is_space s).1 key rest,
        span-append is_space s,
      )
      | inr ((key', rest'), e) ↦ ground (
        arith,
        read_uses-append (span is_space s).0 (span is_space s).1 key' rest' e,
        span-append is_space s,
      )
    ]

-- The line that has the groups.
pub spell : Pin → Text
spell pin = pin.uses ++ pin.target ++ text "@" ++ pin.sha ++ pin.comment

guard_some :
    {A : Type 0}
    → (b : Bool) (o : Option A) (a : A) → (if b then o else none) ≡ some a
    → (b ≡ true) × (o ≡ some a)
guard_some true o a h = (refl, h)
guard_some false o a h = ground arith

some-injective : {A : Type 0} → {a b : A} → some a ≡ some b → a ≡ b
some-injective h = ground arith

second_and_last : (a b c d : Bool) → (a && b && c && d) ≡ true → (b ≡ true) × (d ≡ true)
second_and_last a b c d h = (ground arith, ground arith)

module _ (is_word : ℕ → Bool) where
  read_sha-append :
      (uses target s : Text) (pin : Pin)
      → read_sha is_word uses target s ≡ some pin
      → uses ++ target ++ s ≡ spell pin
  unfolding spell text
  read_sha-append uses target [] pin h = ground arith
  read_sha-append uses target (c ∷ s) pin h = ground (
    arith,
    append_assoc (uses ++ target ++ 64 ∷ []) (take 40 s) (drop 40 s),
    append_assoc (uses ++ target) (64 ∷ []) s,
    take-append_drop 40 s,
  )

  read_sha-digits :
      (uses target s : Text) (pin : Pin)
      → read_sha is_word uses target s ≡ some pin
      → (length pin.sha ≡ 40) × (is_comment pin.comment ≡ true)
  read_sha-digits uses target [] pin h = ground arith
  read_sha-digits uses target (c ∷ s) pin h =
      let (tested, found) =
        guard_some
          (eqb c 64
            && eqb (length (take 40 s)) 40
            && all is_hex (take 40 s)
            && is_comment (drop 40 s))
          (some (record { uses = uses; target = target; sha = take 40 s; comment = drop 40 s })) pin
          h in
      let (sized, ended) =
        second_and_last (eqb c 64) (eqb (length (take 40 s)) 40) (all is_hex (take 40 s))
          (is_comment (drop 40 s)) tested in
      subst (λ p. (length p.sha ≡ 40) × (is_comment p.comment ≡ true)) (some-injective found)
        ((eqb_iff (length (take 40 s)) 40).0 sized, ended)

  pin_behind :
      (line uses s : Text) (pin : Pin)
      → uses ++ s ≡ line
      → (if is_target is_word (span (λ c. not (is_at_or_space c)) s).0
          then read_sha is_word uses
              (span (λ c. not (is_at_or_space c)) s).0
              (span (λ c. not (is_at_or_space c)) s).1
          else none)
        ≡ some pin
      → (line ≡ spell pin) × (length pin.sha ≡ 40) × (is_comment pin.comment ≡ true)
  pin_behind line uses s pin whole h =
      let (target, rest) = span (λ c. not (is_at_or_space c)) s in
      let (tested, read) =
        guard_some (is_target is_word target) (read_sha is_word uses target rest) pin h in
      let (sized, ended) = read_sha-digits uses target rest pin read in
      (
        cc (
          whole,
          span-append (λ c. not (is_at_or_space c)) s,
          append_assoc uses target rest,
          read_sha-append uses target rest pin read,
        ),
        sized,
        ended,
      )

  -- A line that `PIN` matches is its groups, and the commit has 40 digits.
  pub pin_of-spell :
      (line : Text) (pin : Pin)
      → pin_of is_word line ≡ some pin
      → (line ≡ spell pin) × (length pin.sha ≡ 40) × (is_comment pin.comment ≡ true)
  unfolding pin_of
  pin_of-spell line pin h = elim (Option-cases (read_key line)) [
    | inl e ↦ ground arith
    | inr ((uses, s), e) ↦
        pin_behind line uses s pin (read_key-append line uses s e) (rw (e, pin_of) at h)
  ]

  -- What `moved_pin` is for: both lines are the same `uses:` of the same target, each at a whole commit
  -- with nothing but a comment behind it.
  pub record MovedPin (is_of : Text → Bool) (named : Text) (pinned_from : Text → Bool)
      (before after' : Text) : Type 0 where
    pub old : Pin
    pub new : Pin
    pub before_is_old : before ≡ spell old
    pub after_is_new : after' ≡ spell new
    pub same_uses : old.uses ≡ new.uses
    pub same_target : old.target ≡ new.target
    pub target_is_of : is_of new.target ≡ true
    pub whole : length new.sha ≡ 40
    pub is_named : starts_with new.sha named ≡ true
    pub is_on_main : pinned_from new.sha ≡ true
    pub comment_only : is_comment new.comment ≡ true

  -- Two lines that `moved_pin` accepts are the same `uses:` of one target of the catalog, and the
  -- second is at a whole commit of the main, the one the branch is named for; apart from the commit
  -- only a comment can differ.
  pub moved_pin-MovedPin :
      (is_of : Text → Bool) (named : Text) (pinned_from : Text → Bool) (before after' : Text)
      → moved_pin is_word is_of named pinned_from before after' ≡ true
      → MovedPin is_of named pinned_from before after'
  unfolding moved_pin
  moved_pin-MovedPin is_of named pinned_from before after' h =
      elim (Option-cases (pin_of is_word before)) [
        | inl e ↦ ground arith
        | inr (old, e) ↦ elim (Option-cases (pin_of is_word after')) [
          | inl e' ↦ ground arith
          | inr (new, e') ↦
              let spelled = pin_of-spell after' new e' in
              record {
                old = old;
                new = new;
                before_is_old = (pin_of-spell before old e).0;
                after_is_new = spelled.0;
                same_uses = ground (arith, same_iff old.uses new.uses);
                same_target = ground (arith, same_iff old.target new.target);
                target_is_of = ground arith;
                whole = spelled.1;
                is_named = ground arith;
                is_on_main = ground arith;
                comment_only = spelled.2;
              }
        ]
      ]
