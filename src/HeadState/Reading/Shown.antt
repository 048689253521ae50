-- ===== src/HeadState/Reading/Shown.antt =====
-- dashboard/head_state.py, `apply_head_reading`: a complete search shows every head that it found.
use vibe_verifier.Base.{
  ℕ, ◌≡◌, refl, sym, ap, ◌∙◌, subst, inl, inr, Bool, true, some, List, [], ◌∷◌, if◌then◌else◌,
  any-append, All, arith, Bool-cases,
}
use vibe_verifier.Base.Text.{Text, text, same_iff}
use vibe_verifier.Base.Json.{Json, str, obj, Fields}
use vibe_verifier.Base.Json.Dict.{at}
use vibe_verifier.HeadState.Pull.{Calendar, Head, Repository}
use vibe_verifier.HeadState.Collect.{Key, Number, from, below, same_key, head_key}
use vibe_verifier.HeadState.Unseen.{
  Texts, number_json, with_rollup, dict_of, unseen_fields, unseen_pull, rollup_category, owner_of,
}
use vibe_verifier.HeadState.Reading.{
  Snapshot, read_rows, shows_pull, shows, is_key, is_named, add_pull, add_unseen,
  apply_head_reading,
}
use vibe_verifier.HeadState.Collect.Keys.{same_key_refl}
use vibe_verifier.HeadState.Reading.Open.{at-stamp_behind, at-with_rollup, either}

module _ (texts : Texts) (calendar : Calendar) where
  -- The key of each head is that of its repository, as `_one_head` makes it.
  abbrev pub IsKeyed : Key × Head → Type 0
  IsKeyed (key, head) = key.repository ≡ texts.casefold head.repository

  pub number-unseen_pull :
      (repository : Text) (number : Number) (head : Head) (now : ℕ) (subscription : Json)
      (owner : Text)
      → at "number" (unseen_pull texts calendar repository number head now subscription owner)
        ≡ number_json number
  unfolding unseen_pull at
  number-unseen_pull repository number head now subscription owner =
      let fields =
        dict_of (unseen_fields texts calendar repository number head now subscription owner) in
      let rolled = with_rollup (rollup_category head.rollup) fields in
      at-stamp_behind "number" rolled head refl refl
      ∙ at-with_rollup "number" (rollup_category head.rollup) fields refl

  pub key-number_json :
      (name : Text) (number : Number)
      → head_key texts.casefold (str name) (number_json number)
        ≡ some (record { repository = texts.casefold name; number = number })
  unfolding head_key
  key-number_json name (from n) = refl
  key-number_json name (below n) = refl

  -- A row of the name, folded, shows a pull request of the number.
  shows-named :
      (key : Key) (repository : Json) (pull : Fields)
      → is_named texts calendar key.repository repository ≡ true
      → at "number" pull ≡ number_json key.number
      → shows_pull texts calendar key repository (obj pull) ≡ true
  shows-named key (str s) pull h e =
      let folded : texts.casefold s ≡ key.repository =
        (same_iff (texts.casefold s) key.repository).0 h in
      ap (is_key key) (ap (head_key texts.casefold (str s)) e ∙ key-number_json s key.number)
      ∙ ap (λ (t : Text). same_key key (record { repository = t; number = key.number })) folded
      ∙ same_key_refl key
  shows-named key _ pull h e = absurd (cc)

  shows-add_pull :
      (key : Key) (repository : Text) (pull : Json → Fields) (rows : List Repository)
      → shows texts calendar key rows ≡ true
      → shows texts calendar key (add_pull texts calendar repository pull rows) ≡ true
  unfolding add_pull
  shows-add_pull key repository pull [] h = absurd (cc)
  shows-add_pull key repository pull (row ∷ rows) h =
      elim (Bool-cases (is_named texts calendar (texts.casefold repository) row.repository)) [
        | inl e ↦
            rw (e, add_pull)
              (ground (
                arith,
                any-append (shows_pull texts calendar key row.repository) row.pulls
                    (obj (pull row.subscription) ∷ []),
              ))
        | inr e ↦ rw (e, add_pull) (ground (arith, shows-add_pull key repository pull rows))
      ]

  shows-added :
      (key : Key) (repository : Text) (pull : Json → Fields) (rows : List Repository)
      → key.repository ≡ texts.casefold repository
      → ((subscription : Json) → at "number" (pull subscription) ≡ number_json key.number)
      → shows texts calendar key (add_pull texts calendar repository pull rows) ≡ true
  unfolding add_pull
  shows-added key repository pull [] k h =
      let shown =
        shows-named key (str repository) (pull (str (text "unknown")))
          ((same_iff (texts.casefold repository) key.repository).1 (sym k))
          (h (str (text "unknown"))) in
      ground arith
  shows-added key repository pull (row ∷ rows) k h =
      elim (Bool-cases (is_named texts calendar (texts.casefold repository) row.repository)) [
        | inl e ↦
            let named = subst (λ t. is_named texts calendar t row.repository ≡ true) (sym k) e in
            let shown =
              shows-named key row.repository (pull row.subscription) named (h row.subscription) in
            rw (e, add_pull)
              (ground (
                arith,
                any-append (shows_pull texts calendar key row.repository) row.pulls
                    (obj (pull row.subscription) ∷ []),
              ))
        | inr e ↦ rw (e, add_pull) (ground (arith, shows-added key repository pull rows k h))
      ]

  add_unseen-keeps :
      (key : Key) (seen : Key → Bool) (owner : Text) (now : ℕ) (heads : List (Key × Head))
      (rows : List Repository)
      → shows texts calendar key rows ≡ true
      → shows texts calendar key (add_unseen texts calendar seen owner now heads rows) ≡ true
  unfolding add_unseen
  add_unseen-keeps key seen owner now [] rows h = h
  add_unseen-keeps key seen owner now ((other, head) ∷ heads) rows h =
      let pull = λ (subscription : Json).
        unseen_pull texts calendar head.repository other.number head now subscription owner in
      let added = add_pull texts calendar head.repository pull rows in
      add_unseen-keeps key seen owner now heads (if seen other then rows else added) (
        either (seen other) (λ (rs : List Repository). shows texts calendar key rs ≡ true) rows
          added h (shows-add_pull key head.repository pull rows h))

  shows-unseen :
      (seen : Key → Bool) (owner : Text) (now : ℕ) (key : Key) (head : Head)
      (rows : List Repository)
      → IsKeyed (key, head)
      → (seen key ≡ true → shows texts calendar key rows ≡ true)
      → shows texts calendar key (
          if seen key
          then rows
          else add_pull texts calendar head.repository
              (λ subscription.
                unseen_pull texts calendar head.repository key.number head now subscription owner)
              rows)
        ≡ true
  shows-unseen seen owner now key head rows keyed h = elim (Bool-cases (seen key)) [
    | inl e ↦ rw e (h e)
    | inr e ↦ rw e (
        shows-added key head.repository
          (λ subscription.
            unseen_pull texts calendar head.repository key.number head now subscription owner)
          rows keyed
          (λ subscription.
            number-unseen_pull head.repository key.number head now subscription owner))
  ]

  add_unseen-shows :
      (seen : Key → Bool) (owner : Text) (now : ℕ) (heads : List (Key × Head))
      (rows : List Repository)
      → All IsKeyed heads
      → ((key : Key) → seen key ≡ true → shows texts calendar key rows ≡ true)
      → All
          (λ (entry : Key × Head).
            shows texts calendar entry.0 (add_unseen texts calendar seen owner now heads rows)
            ≡ true)
          heads
  unfolding add_unseen
  add_unseen-shows seen owner now [] rows keyed h = tt
  add_unseen-shows seen owner now ((key, head) ∷ heads) rows keyed h =
      let pull = λ (subscription : Json).
        unseen_pull texts calendar head.repository key.number head now subscription owner in
      let added = add_pull texts calendar head.repository pull rows in
      let next = if seen key then rows else added in
      (
        add_unseen-keeps key seen owner now heads next
            (shows-unseen seen owner now key head rows keyed.0 (h key)),
        add_unseen-shows seen owner now heads next keyed.1 (λ other e.
            either (seen key) (λ (rs : List Repository). shows texts calendar other rs ≡ true) rows
              added (h other e) (shows-add_pull other head.repository pull rows (h other e))),
      )

  -- After a reading of a complete search every pull request that the search found is shown, where the key
  -- of each head has the folded name of its repository, as `_one_head` gives it.
  pub apply_head_reading-shows :
      (github : Snapshot) (heads : List (Key × Head)) (now calls points : ℕ)
      → All IsKeyed heads
      → All
          (λ (entry : Key × Head).
            shows texts calendar entry.0
              (apply_head_reading texts calendar github heads now calls points true).repositories
            ≡ true)
          heads
  unfolding apply_head_reading
  apply_head_reading-shows github heads now calls points keyed =
      let rows = read_rows texts calendar true heads now github.repositories in
      add_unseen-shows (λ (key : Key). shows texts calendar key rows) (owner_of github.owner) now
        heads rows keyed (λ key e. e)
