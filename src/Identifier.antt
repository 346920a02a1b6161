-- ===== src/Identifier.antt =====
-- internal/identifier/identifier.go: the identifiers of roles and capabilities.
pub mod Words
mod Tests
use lts_agent.Base.{ℕ, Bool, ◌||◌, Bytes, ◌==◌, within}
use lts_agent.Go.Regexp.{Regex, class, seq, star, plus, matches}

abbrev pub is_name_byte : ℕ → Bool
is_name_byte c = within b'a' b'z' c || within b'0' b'9' c

-- `^[a-z0-9]+(?:-[a-z0-9]+)*$`
abbrev pub pattern : Regex
pattern =
    seq (plus (class is_name_byte))
      (star (seq (class (λ c. c == b'-')) (plus (class is_name_byte))))

unfoldable pub valid : Bytes → Bool
valid value = matches pattern value
