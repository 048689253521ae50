-- ===== src/HeadState/Reading/Open.antt =====
-- dashboard/head_state.py, `apply_head_reading`: a reading of the heads makes nothing ready, and shows what is
-- open.
use vibe_verifier.Base.{
  ℕ, String, ◌==◌, ◌≡◌, refl, ap, ◌∙◌, inl, inr, Bool, true, false, Option, none, some, List, [],
  ◌∷◌, if◌then◌else◌, All, All-append, Bool-cases, Option-cases,
}
use vibe_verifier.Base.Text.{Text, text}
use vibe_verifier.Base.Json.{Json, null, int, str, obj, Fields, truthy}
use vibe_verifier.Base.Json.Dict.{at, at-set_other}
use vibe_verifier.HeadState.Pull.{Calendar, Head, Repository, stamp_behind, reconcile_pull, of_text}
use vibe_verifier.HeadState.Pull.Fresh.{is_ready, reconcile_pull-ready}
use vibe_verifier.HeadState.Collect.{Key, Number, find_at}
use vibe_verifier.HeadState.Unseen.{
  Texts, with_rollup, dict_of, unseen_fields, unseen_pull, rollup_category, owner_of,
}
use vibe_verifier.HeadState.Reading.{
  Snapshot, stamp_under, key_of, open_pulls, all_pulls, read_rows, shows, is_named, add_pull,
  add_unseen, apply_head_reading,
}

-- `stamp_behind` leaves the other fields.
pub at-stamp_behind :
    (k : String) (pull : Fields) (head : Head)
    → (k == "default_branch") ≡ false
    → (k == "behind_by") ≡ false
    → at k (stamp_behind pull head) ≡ at k pull
at-stamp_behind k pull head a b =
    at-set_other k "default_branch" (of_text head.default_branch) _ a
    ∙ at-set_other k "behind_by" (elim head.behind_by [ none ↦ null | some n ↦ int n ]) pull b

pub at-stamp_under :
    (k : String) (head : Option Head) (pull : Fields)
    → (k == "default_branch") ≡ false
    → (k == "behind_by") ≡ false
    → at k (stamp_under head pull) ≡ at k pull
at-stamp_under k none pull a b = refl
at-stamp_under k (some head) pull a b = at-stamp_behind k pull head a b

pub at-with_rollup :
    (k : String) (overall : Option Text) (fs : Fields)
    → (k == "rollup_category") ≡ false
    → at k (with_rollup overall fs) ≡ at k fs
at-with_rollup k none fs h = refl
at-with_rollup k (some overall) fs h = at-set_other k "rollup_category" (str overall) fs h

abbrev pub IsUnready : Json → Type 0
IsUnready (obj pull) = is_ready pull ≡ false
IsUnready v = Unit

-- No pull request of the rows is ready.
abbrev pub NoneReady : List Repository → Type 0
NoneReady = All (λ (row : Repository). All IsUnready row.pulls)

pub either :
    {A : Type 0} → (b : Bool) (P : A → Type 0) (x y : A) → P x → P y → P (if b then x else y)
either true P x y h k = h
either false P x y h k = k

module _ (texts : Texts) (calendar : Calendar) where
  unseen_pull-ready :
      (repository : Text) (number : Number) (head : Head) (now : ℕ) (subscription : Json)
      (owner : Text)
      → is_ready (unseen_pull texts calendar repository number head now subscription owner) ≡ false
  unfolding unseen_pull truthy at
  unseen_pull-ready repository number head now subscription owner =
      let fields =
        dict_of (unseen_fields texts calendar repository number head now subscription owner) in
      let rolled = with_rollup (rollup_category head.rollup) fields in
      ap truthy (
        at-stamp_behind "merge_ready" rolled head refl refl
        ∙ at-with_rollup "merge_ready" (rollup_category head.rollup) fields refl)

  shown-ready :
      (head : Option Head) (pull : Fields) (now : ℕ)
      → is_ready (stamp_under head (reconcile_pull calendar pull head now)) ≡ false
  unfolding truthy
  shown-ready head pull now =
      ap truthy
        (at-stamp_under "merge_ready" head (reconcile_pull calendar pull head now) refl refl)
      ∙ reconcile_pull-ready calendar pull head now

  open_pulls-IsUnready :
      (heads : List (Key × Head)) (repository : Json) (now : ℕ) (pulls : List Json)
      → All IsUnready (open_pulls texts calendar heads repository now pulls)
  unfolding open_pulls
  open_pulls-IsUnready heads repository now [] = tt
  open_pulls-IsUnready heads repository now (obj pull ∷ pulls) =
      elim (Option-cases (find_at (key_of texts calendar repository pull) heads)) [
        | inl e ↦ rw (e, open_pulls) (open_pulls-IsUnready heads repository now pulls)
        | inr (head, e) ↦
            rw (e, open_pulls)
              (
                shown-ready (find_at (key_of texts calendar repository pull) heads) pull now,
                open_pulls-IsUnready heads repository now pulls,
              )
      ]
  open_pulls-IsUnready heads repository now (v ∷ pulls) =
      open_pulls-IsUnready heads repository now pulls

  add_pull-unready :
      (repository : Text) (pull : Json → Fields) (rows : List Repository)
      → ((subscription : Json) → is_ready (pull subscription) ≡ false)
      → NoneReady rows
      → NoneReady (add_pull texts calendar repository pull rows)
  unfolding add_pull
  add_pull-unready repository pull [] h k = ((h (str (text "unknown")), tt), tt)
  add_pull-unready repository pull (row ∷ rows) h k =
      elim (Bool-cases (is_named texts calendar (texts.casefold repository) row.repository)) [
        | inl e ↦
            rw (e, add_pull)
              (
                All-append IsUnready row.pulls (obj (pull row.subscription) ∷ []) k.0
                    (h row.subscription, tt),
                k.1,
              )
        | inr e ↦ rw (e, add_pull) (k.0, add_pull-unready repository pull rows h k.1)
      ]

  all_pulls-IsUnready :
      (heads : List (Key × Head)) (repository : Json) (now : ℕ) (pulls : List Json)
      → All IsUnready (all_pulls texts calendar heads repository now pulls)
  unfolding all_pulls
  all_pulls-IsUnready heads repository now [] = tt
  all_pulls-IsUnready heads repository now (obj pull ∷ pulls) = (
    shown-ready (find_at (key_of texts calendar repository pull) heads) pull now,
    all_pulls-IsUnready heads repository now pulls,
  )
  all_pulls-IsUnready heads repository now (v ∷ pulls) =
      all_pulls-IsUnready heads repository now pulls

  read_rows-unready :
      (complete : Bool) (heads : List (Key × Head)) (now : ℕ) (rows : List Repository)
      → NoneReady (read_rows texts calendar complete heads now rows)
  read_rows-unready complete heads now [] = tt
  read_rows-unready true heads now (row ∷ rows) = (
    open_pulls-IsUnready heads row.repository now row.pulls,
    read_rows-unready true heads now rows,
  )
  read_rows-unready false heads now (row ∷ rows) = (
    all_pulls-IsUnready heads row.repository now row.pulls,
    read_rows-unready false heads now rows,
  )

  add_unseen-unready :
      (seen : Key → Bool) (owner : Text) (now : ℕ) (heads : List (Key × Head))
      (rows : List Repository)
      → NoneReady rows
      → NoneReady (add_unseen texts calendar seen owner now heads rows)
  unfolding add_unseen
  add_unseen-unready seen owner now [] rows h = h
  add_unseen-unready seen owner now ((key, head) ∷ heads) rows h =
      let pull = λ (subscription : Json).
        unseen_pull texts calendar head.repository key.number head now subscription owner in
      let added = add_pull texts calendar head.repository pull rows in
      let unready : NoneReady (if seen key then rows else added) =
        either (seen key) NoneReady rows added h (
          add_pull-unready head.repository pull rows
            (λ subscription.
              unseen_pull-ready head.repository key.number head now subscription owner)
            h) in
      add_unseen-unready seen owner now heads (if seen key then rows else added) unready

  -- A reading of the heads leaves no pull request ready, whether the search is complete or not: the checks
  -- were not read.
  pub apply_head_reading-unready :
      (github : Snapshot) (heads : List (Key × Head)) (now calls points : ℕ) (complete : Bool)
      → NoneReady
          (apply_head_reading texts calendar github heads now calls points complete).repositories
  unfolding apply_head_reading
  apply_head_reading-unready github heads now calls points false =
      read_rows-unready false heads now github.repositories
  apply_head_reading-unready github heads now calls points true =
      let rows = read_rows texts calendar true heads now github.repositories in
      add_unseen-unready (λ (key : Key). shows texts calendar key rows) (owner_of github.owner) now
        heads rows (read_rows-unready true heads now github.repositories)
