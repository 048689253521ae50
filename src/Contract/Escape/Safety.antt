-- ===== src/Contract/Escape/Safety.antt =====
-- The escaped values cannot end a workflow command or one of its properties.
use vibe_verifier.Base.{◌≡◌, refl, false}
use vibe_verifier.Base.Text.{Text, text, has}
use vibe_verifier.Base.Text.Has.{has-replace_self, has-replace_other}
use vibe_verifier.Contract.Escape.{esc_data, esc_prop}

pub esc_data-line_feed : (s : Text) → has 10 (esc_data s) ≡ false
unfolding esc_data text
esc_data-line_feed s = has-replace_self 10 _ _ refl

pub esc_data-carriage_return : (s : Text) → has 13 (esc_data s) ≡ false
unfolding esc_data text
esc_data-carriage_return s = has-replace_other 13 10 _ _ refl (has-replace_self 13 _ _ refl)

pub esc_prop-line_feed : (s : Text) → has 10 (esc_prop s) ≡ false
unfolding esc_prop text
esc_prop-line_feed s =
    has-replace_other 10 44 _ _ refl (has-replace_other 10 58 _ _ refl (esc_data-line_feed s))

pub esc_prop-carriage_return : (s : Text) → has 13 (esc_prop s) ≡ false
unfolding esc_prop text
esc_prop-carriage_return s =
    has-replace_other 13 44 _ _ refl (has-replace_other 13 58 _ _ refl (esc_data-carriage_return s))

-- An escaped property has no line feed, no carriage return, no colon and no comma, so it ends
-- neither the command, nor its property, nor the list of properties.
pub esc_prop-safe :
    (s : Text)
    → (has 10 (esc_prop s) ≡ false)
      × (has 13 (esc_prop s) ≡ false)
      × (has 58 (esc_prop s) ≡ false)
      × (has 44 (esc_prop s) ≡ false)
unfolding text
esc_prop-safe s = (
  esc_prop-line_feed s,
  esc_prop-carriage_return s,
  unfold esc_prop in has-replace_other 58 44 _ _ refl (has-replace_self 58 _ _ refl),
  unfold esc_prop in has-replace_self 44 _ _ refl,
)
