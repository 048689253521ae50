-- ===== src/SuiteScope/InertList/Never.antt =====
-- What no inert list can make inert, and when a list line reads as it is written.
use mathlib.Core.List.{append_assoc}
use vibe_verifier.Base.{
  ◌⊎◌, inl, inr, ℕ, ◌≡◌, Bool, true, false, [], ◌∷◌, ◌++◌, arith, eqb_iff, any,
}
use vibe_verifier.Base.Text.{Text, text, same, split, split_from}
use vibe_verifier.SuiteScope.InertList.{Patterns, under_e2e, is_inert}

-- A separator ends the part that is read.
split_from-append :
    (sep : ℕ) (part before after : Text)
    → (test : Text → Bool) → any test (split_from sep [] after) ≡ true
    → any test (split_from sep part (before ++ sep ∷ after)) ≡ true
unfolding split_from
split_from-append sep part [] after test h = ground (arith, eqb_iff sep sep)
split_from-append sep part (c ∷ before) after test h = ground (
  arith,
  split_from-append sep [] before after test h,
  split_from-append sep (part ++ c ∷ []) before after test h,
)

-- What may stand before a path segment: nothing, or a path that ends in a slash.
abbrev pub BeforeSegment : Text → Type 0
BeforeSegment before = (before ≡ []) ⊎ ((dirs : Text) × (before ≡ dirs ++ 47 ∷ []))

-- What may stand behind a path segment: nothing, or a slash and more.
abbrev pub BehindSegment : Text → Type 0
BehindSegment behind = (behind ≡ []) ⊎ ((more : Text) × (behind ≡ 47 ∷ more))

abbrev is_e2e : Text → Bool
is_e2e part = same part (text "e2e")

starts_e2e :
    (behind : Text)
    → BehindSegment behind
    → any is_e2e (split_from 47 [] (text "e2e" ++ behind)) ≡ true
unfolding split_from text
starts_e2e behind (inl e) = rw e
starts_e2e behind (inr (more, e)) = rw e

under_e2e-segment :
    (before behind : Text)
    → BeforeSegment before
    → BehindSegment behind
    → under_e2e (before ++ (text "e2e" ++ behind)) ≡ true
unfolding under_e2e split
under_e2e-segment before behind (inl e) k = rw e (starts_e2e behind k)
under_e2e-segment before behind (inr (dirs, e)) k =
    rw (e, append_assoc)
      (split_from-append 47 [] dirs (text "e2e" ++ behind) is_e2e (starts_e2e behind k))

-- Whatever the list says, a path with a segment named e2e, at any depth, is not inert.
pub is_inert-e2e :
    (before behind : Text) (patterns : Patterns)
    → BeforeSegment before
    → BehindSegment behind
    → is_inert (before ++ (text "e2e" ++ behind)) patterns ≡ false
unfolding is_inert
is_inert-e2e before behind patterns h k = rw (under_e2e-segment before behind h k)
