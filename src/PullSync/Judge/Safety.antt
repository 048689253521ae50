-- ===== src/PullSync/Judge/Safety.antt =====
-- Which pull requests `judge` updates, and whose conflict label it changes.
use vibe_verifier.Base.{
  ℕ, ◌+◌, ◌≤◌, ◌<◌, ◌≡◌, Bool-cases, ◌↔◌, ◌⊎◌, inl, inr, refl, Bool, true, false, ◌&&◌, [], ◌∷◌,
  arith, is_empty, if◌then◌else◌,
}
use vibe_verifier.Base.Text.{Text, text, same, same_iff}
use vibe_verifier.PullSync.Pull.{
  Pull, one_of, red, running, checks, opt_out_label, out_of_scope, behind,
}
use vibe_verifier.PullSync.Judge.{
  sync, Relabel, add, remove, keep, Tier, ready, stale, later, tier, tier_line, while_running,
  is_labelled, is_mergeable, unlabel_of, judge,
}

-- The pull request is the engine's to update at all.
pub record InScope (pull : Pull) (base : Text) : Type 0 where
  pub allowed : one_of pull.labels opt_out_label ≡ false
  pub own : pull.is_cross_repository ≡ false
  pub into_base : pull.base_ref ≡ base
  pub behind_base : 0 < behind pull

scope_parts : (pull : Pull) (base : Text) → InScope pull base → out_of_scope pull base ≡ []
unfolding out_of_scope behind
scope_parts pull base s =
    ground (arith, same_iff pull.base_ref base, s.allowed, s.own, s.into_base, s.behind_base)

scope_of :
    (pull : Pull) (base : Text)
    → is_empty (out_of_scope pull base) ≡ true
    → 0 < behind pull
    → InScope pull base
unfolding out_of_scope behind text
scope_of pull base e h = ground (arith, same_iff pull.base_ref base)

-- Nobody works on it, and its checks passed or its head is old.
pub record IsQuiet (pull : Pull) (now quiet stale_after : ℕ) (needs_update : Bool) : Type 0 where
  pub unchanged : pull.updated + quiet ≤ now
  pub due :
      ((pull.is_draft ≡ false) × (checks pull needs_update ≡ text "SUCCESS"))
      ⊎ (pull.commit.committed + stale_after ≤ now)

-- Its checks run in vain: only an up-to-date head merges.
pub record IsReplaceable (pull : Pull) (now quiet : ℕ) (strict needs_update : Bool) : Type 0 where
  pub up_to_date_only : strict ≡ true
  pub undrafted : pull.is_draft ≡ false
  pub no_failure : one_of red (checks pull needs_update) ≡ false
  pub settled : pull.commit.committed + quiet ≤ now

empty_iff : (t : Text) → (is_empty t ≡ true) ↔ (t ≡ [])
empty_iff [] = (λ _. refl, λ _. refl)
empty_iff (c ∷ t) = (λ h. cc, λ h. cc)

mergeable_tests :
    {m : Text}
    → m ≡ text "MERGEABLE"
    → (same m (text "CONFLICTING") ≡ false) × (same m (text "MERGEABLE") ≡ true)
unfolding text
mergeable_tests e = rw e (refl, refl)

module _ (pull : Pull) (base : Text) (now quiet : ℕ) where
  while_running-sync :
      (strict : Bool) (u : Relabel) (nu : Bool)
      → ((while_running pull base now quiet strict u nu).action ≡ sync)
        ↔ IsReplaceable pull now quiet strict nu
  unfolding while_running
  while_running-sync strict u nu = ground arith

  tier-sync :
      (stale_after : ℕ) (u : Relabel) (nu : Bool)
      → ((tier_line (tier pull now stale_after nu) pull base u).action ≡ sync) ↔ (
          ((pull.is_draft ≡ false) × (checks pull nu ≡ text "SUCCESS"))
          ⊎ (pull.commit.committed + stale_after ≤ now))
  unfolding tier
  tier-sync stale_after u nu = ground (arith, same_iff (checks pull nu) (text "SUCCESS"))

  judge_syncs :
      (stale_after : ℕ) (strict nu : Bool)
      → InScope pull base
      → pull.mergeable ≡ text "MERGEABLE"
      → ((running pull ≡ true) × IsReplaceable pull now quiet strict nu)
        ⊎ ((running pull ≡ false) × IsQuiet pull now quiet stale_after nu)
      → (judge pull base now quiet stale_after strict nu).action ≡ sync
  unfolding judge
  judge_syncs stale_after strict nu s m (inl (r, replaceable)) = ground (
    arith,
    scope_parts pull base s,
    mergeable_tests m,
    s.behind_base,
    (while_running-sync strict (unlabel_of pull) nu).1 replaceable,
  )
  judge_syncs stale_after strict nu s m (inr (r, q)) = ground (
    arith,
    scope_parts pull base s,
    mergeable_tests m,
    s.behind_base,
    q.unchanged,
    (tier-sync stale_after (unlabel_of pull) nu).1 q.due,
  )

  -- A row says `sync` exactly where the pull request is in scope and behind, GitHub says that it
  -- merges cleanly, and either its checks run in vain, or none runs, it is quiet, and it is ready or
  -- stale.
  pub judge-sync :
      (stale_after : ℕ) (strict nu : Bool)
      → ((judge pull base now quiet stale_after strict nu).action ≡ sync) ↔ (
          InScope pull base
          × (pull.mergeable ≡ text "MERGEABLE")
          × (((running pull ≡ true) × IsReplaceable pull now quiet strict nu)
              ⊎ ((running pull ≡ false) × IsQuiet pull now quiet stale_after nu)))
  unfolding judge
  judge-sync stale_after strict nu = (
    (λ h. ground (
      arith,
      scope_of pull base,
      same_iff pull.mergeable (text "MERGEABLE"),
      (while_running-sync strict (unlabel_of pull) nu).0,
      (tier-sync stale_after (unlabel_of pull) nu).0,
    )),
    (λ (s, m, r). judge_syncs stale_after strict nu s m r),
  )

  while_running-label :
      (strict : Bool) (u : Relabel) (nu : Bool)
      → (while_running pull base now quiet strict u nu).label ≡ u
  unfolding while_running
  while_running-label strict u nu = ground arith

  tier_line-label : (t : Tier) (u : Relabel) → (tier_line t pull base u).label ≡ u
  tier_line-label ready u = refl
  tier_line-label _ u = refl

  -- The label of a row in scope.
  label_in_scope :
      (stale_after : ℕ) (strict nu : Bool)
      → is_empty (out_of_scope pull base) ≡ true
      → (judge pull base now quiet stale_after strict nu).label ≡ (
          if same pull.mergeable (text "CONFLICTING")
          then (if is_labelled pull then keep else add)
          else if is_mergeable pull
          then unlabel_of pull
          else keep)
  unfolding judge unlabel_of
  label_in_scope stale_after strict nu e = ground (
    arith,
    while_running-label strict (unlabel_of pull) nu,
    tier_line-label (tier pull now stale_after nu) (unlabel_of pull),
  )

  label_out_of_scope :
      (stale_after : ℕ) (strict nu : Bool)
      → is_empty (out_of_scope pull base) ≡ false
      → (judge pull base now quiet stale_after strict nu).label ≡ keep
  unfolding judge
  label_out_of_scope stale_after strict nu e = ground arith

  label_choice :
      (m : Text) (labelled : Bool) (l : Relabel)
      → l ≡ (
          if same m (text "CONFLICTING")
          then (if labelled then keep else add)
          else if same m (text "MERGEABLE")
          then (if labelled && same m (text "MERGEABLE") then remove else keep)
          else keep)
      → ((l ≡ add) ↔ ((m ≡ text "CONFLICTING") × (labelled ≡ false)))
        × ((l ≡ remove) ↔ ((labelled ≡ true) × (m ≡ text "MERGEABLE")))
  label_choice m labelled l e = ground (
    arith,
    same_iff m (text "CONFLICTING"),
    same_iff m (text "MERGEABLE"),
    mergeable_tests {m = m},
  )

  -- A row adds the conflict label exactly where the pull request is in scope, conflicts and lacks the
  -- label, and takes the label off exactly where the pull request is in scope, has the label, and
  -- GitHub says that the merge is clean.
  pub judge-label :
      (stale_after : ℕ) (strict nu : Bool)
      → (((judge pull base now quiet stale_after strict nu).label ≡ add) ↔ (
          (out_of_scope pull base ≡ [])
          × (pull.mergeable ≡ text "CONFLICTING")
          × (is_labelled pull ≡ false)))
        × (((judge pull base now quiet stale_after strict nu).label ≡ remove) ↔ (
            (out_of_scope pull base ≡ [])
            × (is_labelled pull ≡ true)
            × (pull.mergeable ≡ text "MERGEABLE")))
  judge-label stale_after strict nu = elim (Bool-cases (is_empty (out_of_scope pull base))) [
    | inl e ↦ ground (
      arith,
      label_choice pull.mergeable (is_labelled pull)
          (judge pull base now quiet stale_after strict nu).label
          (unfold unlabel_of is_mergeable in label_in_scope stale_after strict nu e),
      empty_iff (out_of_scope pull base),
    )
    | inr e ↦
        ground
          (arith, label_out_of_scope stale_after strict nu e, empty_iff (out_of_scope pull base))
  ]

  while_running-head :
      (strict : Bool) (u : Relabel) (nu : Bool)
      → ((while_running pull base now quiet strict u nu).number ≡ pull.number)
        × ((while_running pull base now quiet strict u nu).action ≡ sync
            → (while_running pull base now quiet strict u nu).head ≡ pull.head)
  unfolding while_running
  while_running-head strict u nu = ground arith

  tier_line-head :
      (t : Tier) (u : Relabel)
      → ((tier_line t pull base u).number ≡ pull.number)
        × ((tier_line t pull base u).action ≡ sync → (tier_line t pull base u).head ≡ pull.head)
  tier_line-head ready u = (refl, λ _. refl)
  tier_line-head stale u = (refl, λ _. refl)
  tier_line-head (later why) u = (refl, λ h. cc)

  -- A row is about its pull request, and an update names the head that was judged.
  pub judge-head :
      (stale_after : ℕ) (strict nu : Bool)
      → ((judge pull base now quiet stale_after strict nu).number ≡ pull.number)
        × ((judge pull base now quiet stale_after strict nu).action ≡ sync
            → (judge pull base now quiet stale_after strict nu).head ≡ pull.head)
  unfolding judge
  judge-head stale_after strict nu = ground (
    arith,
    while_running-head strict (unlabel_of pull) nu,
    tier_line-head (tier pull now stale_after nu) (unlabel_of pull),
  )
