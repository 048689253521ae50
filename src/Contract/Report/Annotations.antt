-- ===== src/Contract/Report/Annotations.antt =====
-- An annotation is one workflow command, whatever a finding's message and path hold.
use vibe_verifier.Base.{
  ℕ, ◌<◌, ◌≡◌, refl, Bool, true, false, Option, none, some, [], ◌∷◌, ◌++◌, arith, if◌then◌else◌,
  All, All-append,
}
use vibe_verifier.Base.Text.{Text, text, has, decimal}
use vibe_verifier.Base.Text.Has.{has-append_of, has-join, has-decimal}
use vibe_verifier.Contract.Escape.{esc_data, esc_prop}
use vibe_verifier.Contract.Escape.Safety.{
  esc_data-line_feed, esc_data-carriage_return, esc_prop-line_feed, esc_prop-carriage_return,
}
use vibe_verifier.Contract.Report.{Finding, annotation, where_props, line_part}

-- A character that no part of an annotation has.
record IsForeign (c : ℕ) : Type 0 where
  small : c < 48
  colons : has c (text "::") ≡ false
  warning : has c (text "warning") ≡ false
  error : has c (text "error") ≡ false
  space : has c (text " ") ≡ false
  comma : has c (text ",") ≡ false
  file : has c (text "file=") ≡ false
  line : has c (text "line=") ≡ false
  title : has c (text "title=") ≡ false
  escaped : (s : Text) → has c (esc_data s) ≡ false
  property : (s : Text) → has c (esc_prop s) ≡ false

module _ (c : ℕ) (h : IsForeign c) where
  lacks-line_part : (n : Option ℕ) → All (λ p. has c p ≡ false) (line_part (text "line=") n)
  lacks-line_part none = tt
  lacks-line_part (some n) =
      ground (arith, has-append_of c (text "line=") (decimal n) h.line (has-decimal c n h.small))

  lacks-where_props :
      (path : Option Text) (n : Option ℕ) → All (λ p. has c p ≡ false) (where_props path n)
  lacks-where_props none n = tt
  lacks-where_props (some []) n = tt
  lacks-where_props (some (x ∷ xs)) n = (
    has-append_of c (text "file=") (esc_prop (x ∷ xs)) h.file (h.property (x ∷ xs)),
    lacks-line_part n,
  )

  lacks-level : (soak : Bool) → has c (if soak then text "warning" else text "error") ≡ false
  lacks-level true = h.warning
  lacks-level false = h.error

  lacks-props :
      (gate : Text) (path : Option Text) (n : Option ℕ)
      → All (λ p. has c p ≡ false) (where_props path n ++ (text "title=" ++ esc_prop gate) ∷ [])
  lacks-props gate path n =
      All-append (λ p. has c p ≡ false) (where_props path n) _ (lacks-where_props path n)
        (has-append_of c (text "title=") (esc_prop gate) h.title (h.property gate), tt)

  lacks-annotation :
      (gate : Text) (f : Finding) (soak : Bool) → has c (annotation gate f soak) ≡ false
  unfolding annotation
  lacks-annotation gate f soak =
      has-append_of c _ _
        (has-append_of c _ _
          (has-append_of c _ _
            (has-append_of c _ _ (has-append_of c _ _ h.colons (lacks-level soak)) h.space)
            (has-join c _ _ h.comma (lacks-props gate f.path f.line)))
          h.colons)
        (h.escaped f.message)

line_feed-IsForeign : IsForeign 10
unfolding text
line_feed-IsForeign = record {
  small = omega arith;
  colons = refl;
  warning = refl;
  error = refl;
  space = refl;
  comma = refl;
  file = refl;
  line = refl;
  title = refl;
  escaped = esc_data-line_feed;
  property = esc_prop-line_feed;
}

carriage_return-IsForeign : IsForeign 13
unfolding text
carriage_return-IsForeign = record {
  small = omega arith;
  colons = refl;
  warning = refl;
  error = refl;
  space = refl;
  comma = refl;
  file = refl;
  line = refl;
  title = refl;
  escaped = esc_data-carriage_return;
  property = esc_prop-carriage_return;
}

-- The annotation of any finding of any gate is one line: it has no line feed and no carriage return,
-- so neither a message nor a path can write a workflow command of its own.
pub annotation_one_line :
    (gate : Text) (f : Finding) (soak : Bool)
    → (has 10 (annotation gate f soak) ≡ false) × (has 13 (annotation gate f soak) ≡ false)
annotation_one_line gate f soak = (
  lacks-annotation 10 line_feed-IsForeign gate f soak,
  lacks-annotation 13 carriage_return-IsForeign gate f soak,
)
