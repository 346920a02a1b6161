-- ===== src/Go/Quote.antt =====
-- `strconv.Quote`, as `%q` writes a string. Every rune outside ASCII counts as printable.
use lts_agent.Base.{
  ℕ, zero, suc, ◌/◌, ◌%◌, ◌||◌, Bytes, [], ◌∷◌, ◌++◌, lit, ltb, ◌==◌, if◌then◌else◌,
}
use lts_agent.Go.Numbers.{hex_digit}
use lts_agent.Go.Utf8.{rune_length}

hex_escape : ℕ → Bytes
hex_escape c = lit "\\x" ++ (hex_digit (c / 16) ∷ hex_digit (c % 16) ∷ [])

quote_ascii : ℕ → Bytes
unfolding hex_escape
quote_ascii c =
    if c == b'"' || c == b'\\'
    then b'\\' ∷ c ∷ []
    else if c == 7
    then lit "\\a"
    else if c == 8
    then lit "\\b"
    else if c == 12
    then lit "\\f"
    else if c == 10
    then lit "\\n"
    else if c == 13
    then lit "\\r"
    else if c == 9
    then lit "\\t"
    else if c == 11
    then lit "\\v"
    else if ltb c 32 || c == 127
    then hex_escape c
    else c ∷ []

-- `pending` bytes of a rune are still to be copied.
quote_from : ℕ → Bytes → Bytes
unfolding quote_ascii
quote_from pending [] = []
quote_from (suc pending) (c ∷ s) = c ∷ quote_from pending s
quote_from zero (c ∷ s) = elim (rune_length (c ∷ s)) [
  | zero ↦ hex_escape c ++ quote_from 0 s
  | suc n ↦ elim n [ zero ↦ quote_ascii c ++ quote_from 0 s | suc m ↦ c ∷ quote_from (suc m) s ]
]

unfoldable pub quote : Bytes → Bytes
unfolding quote_from
quote s = b'"' ∷ (quote_from 0 s ++ (b'"' ∷ []))
