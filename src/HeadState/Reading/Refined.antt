-- ===== src/HeadState/Reading/Refined.antt =====
-- dashboard/head_state.py, `apply_head_reading`: what a complete search leaves shown is what it found.
use vibe_verifier.Base.{
  ℕ, ◌≡◌, sym, ap, ◌∙◌, subst, inl, inr, Bool, true, Option, none, some, List, [], ◌∷◌,
  if◌then◌else◌, any, All, All-append, All-map, Bool-cases, Option-cases,
}
use vibe_verifier.Base.Text.{Text, text, same_iff}
use vibe_verifier.Base.Json.{Json, str, obj, Fields}
use vibe_verifier.Base.Json.Dict.{at}
use vibe_verifier.HeadState.Pull.{Calendar, Head, Repository}
use vibe_verifier.HeadState.Collect.{Key, find, find_at, head_key}
use vibe_verifier.HeadState.Unseen.{Texts, number_json, unseen_pull, owner_of}
use vibe_verifier.HeadState.Reading.{
  Snapshot, key_of, open_pulls, read_rows, is_key, shows_pull, shows, is_named, add_pull,
  add_unseen, apply_head_reading,
}
use vibe_verifier.HeadState.Collect.Keys.{
  same_key-eq, is_some, any_gives, same_bool, find_self, at_found,
}
use vibe_verifier.HeadState.Reading.Numbers.{number-shown}
use vibe_verifier.HeadState.Reading.Open.{either}
use vibe_verifier.HeadState.Reading.Shown.{
  IsKeyed, number-unseen_pull, key-number_json, apply_head_reading-shows,
}

module _ (texts : Texts) (calendar : Calendar) (found : List (Key × Head)) where
  -- What the pull request shows is among the heads that were found.
  abbrev IsOpen : Json → Json → Type 0
  IsOpen repository v =
      (key : Key)
      → shows_pull texts calendar key repository v ≡ true
      → is_some (find key found) ≡ true

  abbrev AllOpen : List Repository → Type 0
  AllOpen = All (λ (row : Repository). All (IsOpen row.repository) row.pulls)

  is_key-found :
      (o : Option Key) (key : Key)
      → is_some (find_at o found) ≡ true
      → is_key key o ≡ true
      → is_some (find key found) ≡ true
  is_key-found none key h k = absurd (cc)
  is_key-found (some j) key h k =
      subst (λ (z : Key). is_some (find z found) ≡ true) (sym (same_key-eq key j k)) h

  open_pulls-Open :
      (repository : Json) (now : ℕ) (pulls : List Json)
      → All (IsOpen repository) (open_pulls texts calendar found repository now pulls)
  unfolding open_pulls
  open_pulls-Open repository now [] = tt
  open_pulls-Open repository now (obj pull ∷ pulls) =
      elim (Option-cases (find_at (key_of texts calendar repository pull) found)) [
        | inl e ↦ rw (e, open_pulls) (open_pulls-Open repository now pulls)
        | inr (head, e) ↦
            rw (e, open_pulls)
              (
                λ key h. is_key-found (key_of texts calendar repository pull) key (ap is_some e) (
                    ap (λ v. is_key key (head_key texts.casefold repository v))
                      (sym (
                        number-shown calendar
                          (find_at (key_of texts calendar repository pull) found) pull now))
                    ∙ h),
                open_pulls-Open repository now pulls,
              )
      ]
  open_pulls-Open repository now (v ∷ pulls) = open_pulls-Open repository now pulls

  shows_pull-named :
      (key : Key) (other : Key) (repository : Json) (pull : Fields)
      → is_named texts calendar other.repository repository ≡ true
      → at "number" pull ≡ number_json other.number
      → shows_pull texts calendar key repository (obj pull) ≡ true
      → key ≡ other
  shows_pull-named key other (str s) pull named e h =
      let folded : texts.casefold s ≡ other.repository =
        (same_iff (texts.casefold s) other.repository).0 named in
      let made =
        ap (head_key texts.casefold (str s)) e
        ∙ key-number_json texts calendar s other.number
        ∙ ap (λ (t : Text). some (record { repository = t; number = other.number })) folded in
      same_key-eq key other (sym (ap (is_key key) made) ∙ h)
  shows_pull-named key other _ pull named e h = absurd (cc)

  add_pull-Open :
      (key : Key) (repository : Text) (pull : Json → Fields) (rows : List Repository)
      → key.repository ≡ texts.casefold repository
      → ((subscription : Json) → at "number" (pull subscription) ≡ number_json key.number)
      → is_some (find key found) ≡ true
      → AllOpen rows
      → AllOpen (add_pull texts calendar repository pull rows)
  unfolding add_pull
  add_pull-Open key repository pull [] k n h open_so = (
    (
      λ other shown.
          let named = (same_iff (texts.casefold repository) key.repository).1 (sym k) in
          let equal =
            shows_pull-named other key (str repository) (pull (str (text "unknown"))) named
              (n (str (text "unknown"))) shown in
          subst (λ (z : Key). is_some (find z found) ≡ true) (sym equal) h,
      tt,
    ),
    tt,
  )
  add_pull-Open key repository pull (row ∷ rows) k n h open_so =
      elim (Bool-cases (is_named texts calendar (texts.casefold repository) row.repository)) [
        | inr e ↦
            rw (e, add_pull) (open_so.0, add_pull-Open key repository pull rows k n h open_so.1)
        | inl e ↦
            rw (e, add_pull)
              (
                All-append (IsOpen row.repository) row.pulls (obj (pull row.subscription) ∷ [])
                    open_so.0
                    (
                      λ other shown.
                          let named =
                            subst (λ t. is_named texts calendar t row.repository ≡ true) (sym k)
                              e in
                          let equal =
                            shows_pull-named other key row.repository (pull row.subscription) named
                              (n row.subscription) shown in
                          subst (λ (z : Key). is_some (find z found) ≡ true) (sym equal) h,
                      tt,
                    ),
                open_so.1,
              )
      ]

  read_rows-Open :
      (now : ℕ) (rows : List Repository) → AllOpen (read_rows texts calendar true found now rows)
  read_rows-Open now [] = tt
  read_rows-Open now (row ∷ rows) =
      (open_pulls-Open row.repository now row.pulls, read_rows-Open now rows)

  add_unseen-Open :
      (seen : Key → Bool) (owner : Text) (now : ℕ) (heads : List (Key × Head))
      (rows : List Repository)
      → All (IsKeyed texts calendar) heads
      → All (λ (entry : Key × Head). is_some (find entry.0 found) ≡ true) heads
      → AllOpen rows
      → AllOpen (add_unseen texts calendar seen owner now heads rows)
  unfolding add_unseen
  add_unseen-Open seen owner now [] rows keyed inside h = h
  add_unseen-Open seen owner now ((key, head) ∷ heads) rows keyed inside h =
      let pull = λ (subscription : Json).
        unseen_pull texts calendar head.repository key.number head now subscription owner in
      let added = add_pull texts calendar head.repository pull rows in
      add_unseen-Open seen owner now heads (if seen key then rows else added) keyed.1 inside.1 (
        either (seen key) AllOpen rows added h (
          add_pull-Open key head.repository pull rows keyed.0
            (λ subscription.
              number-unseen_pull texts calendar head.repository key.number head now subscription
                owner)
            inside.0 h))

  shows-Open :
      (key : Key) (rows : List Repository)
      → AllOpen rows
      → shows texts calendar key rows ≡ true
      → is_some (find key found) ≡ true
  shows-Open key rows h k =
      let Goal = is_some (find key found) ≡ true in
      any_gives (λ (row : Repository). any (shows_pull texts calendar key row.repository) row.pulls)
        Goal rows
        (All-map (λ (row : Repository). All (IsOpen row.repository) row.pulls)
          (λ (row : Repository).
            any (shows_pull texts calendar key row.repository) row.pulls ≡ true → Goal)
          (λ row each shown.
            any_gives (shows_pull texts calendar key row.repository) Goal row.pulls
              (All-map (IsOpen row.repository)
                (λ v. shows_pull texts calendar key row.repository v ≡ true → Goal)
                (λ v is_open. is_open key) row.pulls each)
              shown)
          rows h)
        k

module _ (texts : Texts) (calendar : Calendar) where
  -- A complete search refines the snapshot to the set of keys that it found: after the reading a pull
  -- request of a key is shown exactly where the search found one, those that were closed being gone and
  -- those never seen added, where the key of each head has the folded name of its repository, as `_one_head`
  -- gives it.
  pub apply_head_reading-shows_found :
      (github : Snapshot) (heads : List (Key × Head)) (now calls points : ℕ)
      → All (IsKeyed texts calendar) heads
      → (key : Key)
      → shows texts calendar key
          (apply_head_reading texts calendar github heads now calls points true).repositories
        ≡ is_some (find key heads)
  unfolding apply_head_reading
  apply_head_reading-shows_found github heads now calls points keyed key =
      let rows = read_rows texts calendar true heads now github.repositories in
      same_bool _ _
        (shows-Open texts calendar heads key
          (add_unseen texts calendar (λ (k : Key). shows texts calendar k rows)
            (owner_of github.owner) now heads rows)
          (add_unseen-Open texts calendar heads (λ (k : Key). shows texts calendar k rows)
            (owner_of github.owner) now heads rows keyed (find_self heads)
            (read_rows-Open texts calendar heads now github.repositories)))
        (at_found
          (λ (k : Key).
            shows texts calendar k
              (apply_head_reading texts calendar github heads now calls points true).repositories
            ≡ true)
          key heads (apply_head_reading-shows texts calendar github heads now calls points keyed))
