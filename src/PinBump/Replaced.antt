-- ===== src/PinBump/Replaced.antt =====
-- gates/_pin_bump.py: `supersede` closes the bumps that the new one replaces, and no other pull request.
use vibe_verifier.Base.{
  ℕ, ◌≤◌, ◌≡◌, ◌≢◌, ◌∙◌, ◌⊎◌, ◌↔◌, inl, inr, refl, sym, ap, subst, Bool, true, Option, none, some,
  List, [], ◌∷◌, ◌++◌, Result, ok, err, ◌>>=◌, select, all, length, drop, eqb_iff, All, All-map,
  All-of_In, All-at, In, In-select, arith, Bool-cases, Option-cases,
}
use vibe_verifier.Base.Text.{Text, same, same_iff, starts_with, starts_with-append}
use vibe_verifier.Descriptors.Conflicts.Blame.{In-select_of}
use vibe_verifier.PinMerge.Changes.{Stop, cannot_read, prefix_of}
use vibe_verifier.PinMerge.Checks.{is_text}
use vibe_verifier.PinMerge.Pin.{is_hex}
use vibe_verifier.PinBump.{
  Open, Close, Gh, open_pulls, is_sha, older_than, is_replaced, close_of, shown_url, then_closed,
  close_all, close_listed, supersede,
}

-- An open pull request that a new bump on a branch replaces: of this repository, on another branch, which
-- is named for the level by its prefix and then for a commit, 7 to 40 hex digits, that git calls an
-- ancestor of the new bump's.
pub record IsOlderBump (repo branch prefix : Text) (ancestor : Text → Bool) (pull : Open)
    : Type 0 where
  pub short : Text
  pub named : pull.head_ref ≡ prefix ++ short
  pub other : pull.head_ref ≢ branch
  pub here : pull.head_repo ≡ some repo
  pub long_enough : 7 ≤ length short
  pub no_longer : length short ≤ 40
  pub hex : All (λ c. is_hex c ≡ true) short
  pub older : ancestor short ≡ true

drop-starts_with :
    (ref prefix : Text) → starts_with ref prefix ≡ true → ref ≡ prefix ++ drop (length prefix) ref
drop-starts_with ref [] h = refl
drop-starts_with [] (c ∷ prefix) h = absurd (cc)
drop-starts_with (d ∷ ref) (c ∷ prefix) h =
    let rest = drop-starts_with ref prefix (ground arith) in
    let first = (eqb_iff d c).0 (ground arith) in rw first (ap (λ s. c ∷ s) rest)

drop_prefix : (prefix short : Text) → drop (length prefix) (prefix ++ short) ≡ short
drop_prefix [] short = refl
drop_prefix (c ∷ prefix) short = drop_prefix prefix short

All-all : (p : ℕ → Bool) (s : Text) → (all p s ≡ true) ↔ All (λ c. p c ≡ true) s
All-all p [] = (λ h. tt, λ h. refl)
All-all p (c ∷ s) = (
  λ h. (ground arith, (All-all p s).0 (ground arith)),
  λ (h, k). let rest = (All-all p s).1 k in ground arith,
)

is_text-some : (s : Text) (o : Option Text) → (is_text s o ≡ true) ↔ (o ≡ some s)
is_text-some s none = (λ h. absurd (cc), λ h. absurd (cc))
is_text-some s (some t) =
    (λ h. ap some ((same_iff t s).0 h), λ h. let e = same_iff t s in ground arith)

module _ (repo branch prefix : Text) (is_ancestor : Text → Bool) (pull : Open) where
  is_replaced-IsOlderBump :
      is_replaced repo prefix branch (older_than is_ancestor) pull ≡ true
      → IsOlderBump repo branch prefix is_ancestor pull
  unfolding is_replaced older_than is_sha
  is_replaced-IsOlderBump h =
      let short = drop (length prefix) pull.head_ref in
      record {
        short = short;
        named = drop-starts_with pull.head_ref prefix (ground arith);
        other = λ e. let same_branch = (same_iff pull.head_ref branch).1 e in ground arith;
        here = (is_text-some repo pull.head_repo).0 (ground arith);
        long_enough = ground arith;
        no_longer = ground arith;
        hex = (All-all is_hex short).0 (ground arith);
        older = ground arith;
      }

  IsOlderBump-is_replaced :
      IsOlderBump repo branch prefix is_ancestor pull
      → is_replaced repo prefix branch (older_than is_ancestor) pull ≡ true
  unfolding is_replaced older_than is_sha
  IsOlderBump-is_replaced bump =
      let starts : starts_with pull.head_ref prefix ≡ true =
        ap (λ r. starts_with r prefix) bump.named ∙ starts_with-append prefix bump.short in
      let rest : drop (length prefix) pull.head_ref ≡ bump.short =
        ap (λ r. drop (length prefix) r) bump.named ∙ drop_prefix prefix bump.short in
      let hex = (All-all is_hex bump.short).1 bump.hex in
      let is_older : older_than is_ancestor bump.short ≡ true =
        ground (arith, hex, bump.long_enough, bump.no_longer, bump.older) in
      let here = (is_text-some repo pull.head_repo).1 bump.here in
      elim (Bool-cases (same pull.head_ref branch)) [
        | inl on_it ↦ elim (bump.other ((same_iff pull.head_ref branch).0 on_it)) [ ]
        | inr other ↦ rw (starts, other, here, rest, is_older) refl
      ]

-- A close of an open pull request that was listed and that the new bump replaces
pub Replaced : Text → Text → Text → (Text → Bool) → List Open → Close → Type 0
Replaced repo branch prefix ancestor pulls call =
    (pull : Open) × In pull pulls
    × (call.number ≡ pull.number)
    × IsOlderBump repo branch prefix ancestor pull

-- A pull request is closed by one of the calls where the new bump replaces it.
pub IsClosed : Text → Text → Text → (Text → Bool) → List Close → Open → Type 0
IsClosed repo branch prefix ancestor calls pull =
    IsOlderBump repo branch prefix ancestor pull
    → (call : Close) × In call calls × (call.number ≡ pull.number)

-- The answer of the calls is an error, or something holds of every pull request listed.
abbrev pub FailsOr : (Open → Type 0) → List Open → Result Stop (List Text) → Type 0
FailsOr P pulls answer = ((stop : Stop) × (answer ≡ err stop)) ⊎ All P pulls

close_all-made :
    (gh : Gh) (url : Text) (pulls : List Open)
    → All
        (λ call. (pull : Open) × In pull pulls × (call ≡ close_of url pull))
        (close_all gh url pulls).1
unfolding close_all
close_all-made gh url [] = tt
close_all-made gh url (pull ∷ pulls) =
    let rest =
      All-map (λ call. (p : Open) × In p pulls × (call ≡ close_of url p))
        (λ call. (p : Open) × In p (pull ∷ pulls) × (call ≡ close_of url p))
        (λ call found. (found.0, inr found.1, found.2)) (close_all gh url pulls).1
        (close_all-made gh url pulls) in
    elim (Option-cases (gh (close_of url pull))) [
      | inl e ↦ rw (e, All) ((pull, inl refl, refl), rest)
      | inr (message, e) ↦ rw (e, All) ((pull, inl refl, refl), tt)
    ]

-- The calls fail, or each of the pull requests is closed by one.
abbrev Closes : Text → List Open → Result Stop (List Text) × List Close → Type 0
Closes url pulls ran = FailsOr (λ p. In (close_of url p) ran.1) pulls ran.0

close_all-fails :
    (gh : Gh) (url : Text) (pull : Open) (pulls : List Open) (message : Text)
    → gh (close_of url pull) ≡ some message
    → close_all gh url (pull ∷ pulls) ≡ (err (cannot_read message), close_of url pull ∷ [])
unfolding close_all
close_all-fails gh url pull pulls message e = rw (e, close_all) refl

close_all-goes_on :
    (gh : Gh) (url : Text) (pull : Open) (pulls : List Open)
    → gh (close_of url pull) ≡ none
    → close_all gh url (pull ∷ pulls) ≡ (
      (then_closed pull (close_all gh url pulls)).0,
      close_of url pull ∷ (close_all gh url pulls).1,
    )
unfolding close_all
close_all-goes_on gh url pull pulls e = rw (e, close_all) refl

close_all-Closes :
    (gh : Gh) (url : Text) (pulls : List Open) → Closes url pulls (close_all gh url pulls)
close_all-Closes gh url [] = inr tt
close_all-Closes gh url (pull ∷ pulls) = elim (Option-cases (gh (close_of url pull))) [
  | inr (message, e) ↦
      subst (Closes url (pull ∷ pulls)) (sym (close_all-fails gh url pull pulls message e))
        (inl (cannot_read message, refl))
  | inl e ↦
      subst (Closes url (pull ∷ pulls)) (sym (close_all-goes_on gh url pull pulls e))
        (elim (close_all-Closes gh url pulls) [
          | inl (stop, failed) ↦
              inl (stop, ap (λ r. r >>= λ urls. ok (shown_url pull ∷ urls)) failed)
          | inr closed ↦ inr (
            inl refl,
            All-map (λ p. In (close_of url p) (close_all gh url pulls).1)
                (λ p. In (close_of url p) (close_of url pull ∷ (close_all gh url pulls).1))
                (λ p found. inr found) pulls closed,
          )
        ])
]

module _ (gh : Gh) (repo branch url prefix : Text) (ancestor : Text → Bool)
    (pulls : List Open) where
  abbrev test : Open → Bool
  test = is_replaced repo prefix branch (older_than ancestor)

  close_listed-Replaced :
      All (Replaced repo branch prefix ancestor pulls) (close_listed gh url test (ok pulls)).1
  unfolding Replaced
  close_listed-Replaced =
      All-map (λ call. (p : Open) × In p (select test pulls) × (call ≡ close_of url p))
        (Replaced repo branch prefix ancestor pulls)
        (λ call found.
          let (listed, tested) = In-select test found.0 pulls found.1 in
          (
            found.0,
            listed,
            ap (λ (c : Close). c.number) found.2,
            is_replaced-IsOlderBump repo branch prefix ancestor found.0 tested,
          ))
        (close_all gh url (select test pulls)).1 (close_all-made gh url (select test pulls))

  close_listed-closes :
      let ran = close_listed gh url test (ok pulls) in
      FailsOr (IsClosed repo branch prefix ancestor ran.1) pulls ran.0
  unfolding IsClosed
  close_listed-closes = elim (close_all-Closes gh url (select test pulls)) [
    | inl failed ↦ inl failed
    | inr closed ↦ inr (
        All-of_In (IsClosed repo branch prefix ancestor (close_all gh url (select test pulls)).1)
          pulls
          (λ pull listed bump. (
            close_of url pull,
            All-at (λ p. In (close_of url p) (close_all gh url (select test pulls)).1)
                (select test pulls) closed pull
                (In-select_of test pull pulls listed
                  (IsOlderBump-is_replaced repo branch prefix ancestor pull bump)),
            refl,
          )))
  ]

-- What `supersede` closes is open pull requests that were listed and that the new bump replaces: of this
-- repository, on another branch than the new bump's, with the prefix of its level, and named for a commit
-- of 7 to 40 hex digits that git calls an ancestor of the new bump's. Where no call fails, it closes every
-- one of them.
pub supersede-Replaced :
    (gh : Gh) (repo branch url prefix : Text) (ancestor : Text → Bool)
    (pages : List (Result Stop (List Open))) (pulls : List Open)
    → prefix_of branch ≡ ok prefix
    → open_pulls pages ≡ ok pulls
    → let (answer, calls) = supersede gh repo branch url (older_than ancestor) pages in
      All (Replaced repo branch prefix ancestor pulls) calls
      × FailsOr (IsClosed repo branch prefix ancestor calls) pulls answer
unfolding supersede
supersede-Replaced gh repo branch url prefix ancestor pages pulls e e' =
    rw (e, e')
      (
        close_listed-Replaced gh repo branch url prefix ancestor pulls,
        close_listed-closes gh repo branch url prefix ancestor pulls,
      )
