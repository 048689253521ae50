-- ===== src/PinMerge/Merge/Ready.antt =====
-- gates/_pin_merge.py, `judge`: what holds of a bump that it merges.
use vibe_verifier.Base.{
  ℕ, inl, inr, ◌≡◌, ◌⊎◌, ap, ◌∙◌, Bool, true, false, not, Option, none, some, List, [], ◌∷◌, Result,
  ok, err, In, arith, Bool-cases, Option-cases, returned,
}
use vibe_verifier.Base.Text.{Text, text, same_iff, starts_with}
use vibe_verifier.PinMerge.Changes.{Stop, Compare, catalog_prefix, not_pins}
use vibe_verifier.PinMerge.Changes.Lines.{OnlyPins, not_pins-OnlyPins}
use vibe_verifier.PinMerge.Checks.{Check, check_results, checks, reviews, is_text, one_of}
use vibe_verifier.PinMerge.Checks.Passed.{Passes, checks-Passes}
use vibe_verifier.PinMerge.Merge.{
  Pull, GitHub, merge, Gh, Step, hold, closing, behind, ready, by_state, by_checks, by_mergeable,
  decide, is_empty_change, merged, perform, perform_step, judge,
}

-- What `judge` checks of the head before it merges
pub record HeadReady (github : GitHub) (number : ℕ) (pull : Pull) : Type 0 where
  pub results : List Check
  pub read :
      check_results (github.check_runs pull.head_sha) (github.statuses pull.head_sha) ≡ ok results
  pub passes : Passes results (starts_with pull.head_ref catalog_prefix)
  pub unasked : reviews (github.reviews number) ≡ ok none
  pub clean :
      (pull.mergeable_state ≡ some (text "clean"))
      ⊎ (pull.mergeable_state ≡ some (text "has_hooks"))

is_clean :
    (state : Text)
    → one_of (text "clean" ∷ text "has_hooks" ∷ []) state ≡ true
    → (state ≡ text "clean") ⊎ (state ≡ text "has_hooks")
is_clean state h = ground (arith, same_iff state (text "clean"), same_iff state (text "has_hooks"))

is_clean_state :
    (pull : Pull) (state : Text)
    → pull.mergeable_state ≡ some state
    → one_of (text "clean" ∷ text "has_hooks" ∷ []) state ≡ true
    → (pull.mergeable_state ≡ some (text "clean"))
      ⊎ (pull.mergeable_state ≡ some (text "has_hooks"))
is_clean_state pull state e h = elim (is_clean state h) [
  | inl clean ↦ inl (e ∙ ap (λ s. some s) clean)
  | inr hooks ↦ inr (e ∙ ap (λ s. some s) hooks)
]

by_state-ready :
    (pull : Pull) (head title branch : Text)
    → by_state pull ≡ ready head title branch
    → (head ≡ pull.head_sha)
      × ((pull.mergeable_state ≡ some (text "clean"))
          ⊎ (pull.mergeable_state ≡ some (text "has_hooks")))
unfolding by_state
by_state-ready pull head title branch h = elim (Option-cases pull.mergeable_state) [
  | inl e ↦ ground arith
  | inr (state, e) ↦ (ground arith, ground (arith, is_clean_state pull state e (ground arith)))
]

by_checks-ready :
    (github : GitHub) (number : ℕ) (pull : Pull) (head title branch : Text)
    → by_checks github number pull ≡ ok (ready head title branch)
    → (head ≡ pull.head_sha) × HeadReady github number pull
unfolding by_checks
by_checks-ready github number pull head title branch h =
    let (results, read, h') =
      returned (check_results (github.check_runs pull.head_sha) (github.statuses pull.head_sha)) _
        (ready head title branch) h in
    elim (Option-cases (checks results (starts_with pull.head_ref catalog_prefix))) [
      | inr ((code, why), e) ↦ ground arith
      | inl e ↦
          let (asked, answered, h'') =
            returned (reviews (github.reviews number)) _ (ready head title branch) (rw e at h') in
          elim (Option-cases asked) [
            | inr ((code, why), e') ↦ ground arith
            | inl e' ↦
                let (at_head, clean) = by_state-ready pull head title branch (ground arith) in
                (
                  at_head,
                  record {
                    results = results;
                    read = read;
                    passes = checks-Passes results (starts_with pull.head_ref catalog_prefix) e;
                    unasked = rw e' at answered;
                    clean = clean;
                  },
                )
          ]
    ]

-- What holds of a bump that `judge` merges
pub record Ready (is_word : ℕ → Bool) (repo : Text) (on_main : Text → Text → Bool) (github : GitHub)
    (number : ℕ) (head : Text) : Type 0 where
  pub pull : Pull
  pub compared : Compare
  pub read : github.pull number ≡ ok pull
  pub at_head : head ≡ pull.head_sha
  pub into_default : github.default_branch ≡ ok (some pull.base_ref)
  pub is_compared : github.compare pull.base_ref pull.head_sha ≡ ok compared
  pub only_pins : OnlyPins is_word github.contents repo compared pull.head_sha pull.head_ref on_main
  pub mergeable : pull.mergeable ≡ some true
  pub up_to_date : compared.behind_by ≡ 0
  pub head_ready : HeadReady github number pull

by_mergeable-ready :
    (github : GitHub) (number : ℕ) (pull : Pull) (compare : Compare) (head title branch : Text)
    → by_mergeable github number pull compare ≡ ok (ready head title branch)
    → (pull.mergeable ≡ some true)
      × (compare.behind_by ≡ 0)
      × (by_checks github number pull ≡ ok (ready head title branch))
unfolding by_mergeable
by_mergeable-ready github number pull compare head title branch h =
    elim (Option-cases pull.mergeable) [
      | inl e ↦ ground arith
      | inr (false, e) ↦ ground arith
      | inr (true, e) ↦ (e, ground arith, ground arith)
    ]

is_base : (default : Option Text) (base : Text) → is_text base default ≡ true → default ≡ some base
is_base none base h = ground arith
is_base (some d) base h = ap (λ t. some t) ((same_iff d base).0 h)

merged-no_merge :
    (n : ℕ) (head title branch : Text) (answer : Option Text)
    → In (merge n head title) (merged answer branch)
    → ⊥
merged-no_merge n head title branch none h = ground arith
merged-no_merge n head title branch (some message) h = h

perform_step-merge :
    (gh : Gh) (number n : ℕ) (head title : Text) (step : Result Stop Step)
    → In (merge n head title) (perform_step gh number step).made
    → (n ≡ number) × (t : Text) × (branch : Text) × (step ≡ ok (ready head t branch))
unfolding perform
perform_step-merge gh number n head title (err stop) h = elim h [ ]
perform_step-merge gh number n head title (ok (hold code why)) h = ground arith
perform_step-merge gh number n head title (ok (closing why)) h = ground arith
perform_step-merge gh number n head title (ok (behind count head' base)) h = ground arith
perform_step-merge gh number n head title (ok (ready head' t branch)) (inl e) =
    (ground arith, t, branch, ground arith)
perform_step-merge gh number n head title (ok (ready head' t branch)) (inr h) =
    elim (merged-no_merge n head title branch _ h) [ ]

module _ (is_word : ℕ → Bool) (repo : Text) (on_main : Text → Text → Bool) (github : GitHub)
    (number : ℕ) where
  decide-Ready :
      (head title branch : Text)
      → decide is_word repo on_main github number ≡ ok (ready head title branch)
      → Ready is_word repo on_main github number head
  unfolding decide
  decide-Ready head title branch h =
      let step : Step = ready head title branch in
      let (pull, read, h₁) = returned (github.pull number) _ step h in
      let (default, is_default, h₂) = returned github.default_branch _ step h₁ in
      elim (Bool-cases (not (is_text pull.base_ref default))) [
        | inl e ↦ ground arith
        | inr e ↦ elim (Bool-cases (is_empty_change pull.changed_files)) [
          | inl e' ↦ ground arith
          | inr e' ↦
              let (compared, is_compared, h₃) =
                returned (github.compare pull.base_ref pull.head_sha) _ step (rw (e, e') at h₂) in
              let (why, judged, h₄) =
                returned
                  (not_pins is_word github.contents repo compared pull.head_sha pull.head_ref
                    on_main)
                  _ step h₃ in
              elim (Option-cases why) [
                | inr (reason, e'') ↦ ground arith
                | inl e'' ↦
                    let (mergeable, current, h₅) =
                      by_mergeable-ready github number pull compared head title branch
                        (ground arith) in
                    let (at_head, head_ready) =
                      by_checks-ready github number pull head title branch h₅ in
                    record {
                      pull = pull;
                      compared = compared;
                      read = read;
                      at_head = at_head;
                      into_default =
                          is_default
                          ∙ ap (λ d. ok d) (is_base default pull.base_ref (ground arith));
                      is_compared = is_compared;
                      only_pins = not_pins-OnlyPins _ _ _ _ _ _ _ (rw e'' at judged);
                      mergeable = mergeable;
                      up_to_date = current;
                      head_ready = head_ready;
                    }
              ]
        ]
      ]

  -- A bump that `judge` sends GitHub a merge of is the one judged, at the head it judged, and it is
  -- ready: into the default branch, pins alone and all to one commit of the main, every check of its
  -- head finished and none failed, the gate job among them where it is of the catalog's, no review
  -- asking for changes, not behind its base, and GitHub says it merges cleanly.
  pub judge-Ready :
      (gh : Gh) (n : ℕ) (head title : Text)
      → In (merge n head title) (judge is_word repo on_main github gh number).made
      → (n ≡ number) × Ready is_word repo on_main github number head
  unfolding judge
  judge-Ready gh n head title h =
      let (same_number, t, branch, e) =
        perform_step-merge gh number n head title (decide is_word repo on_main github number) h in
      (same_number, decide-Ready head t branch e)
