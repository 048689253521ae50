-- ===== src/Contract/Escape.antt =====
-- gates/_contract.py, `_esc_data` and `_esc_prop`: the values of a GitHub workflow command.
pub mod Safety
pub mod Decode
use vibe_verifier.Base.Text.{Text, text, replace}

-- `text.replace("%", "%25").replace("\r", "%0D").replace("\n", "%0A")`
unfoldable pub esc_data : Text → Text
esc_data s = replace 10 (text "%0A") (replace 13 (text "%0D") (replace 37 (text "%25") s))

-- `_esc_data(text).replace(":", "%3A").replace(",", "%2C")`
unfoldable pub esc_prop : Text → Text
unfolding esc_data
esc_prop s = replace 44 (text "%2C") (replace 58 (text "%3A") (esc_data s))
