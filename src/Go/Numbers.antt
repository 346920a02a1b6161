-- ===== src/Go/Numbers.antt =====
-- Integers and their decimal and hexadecimal text: `%d`, `strconv`, `encoding/hex`.
use lts_agent.Base.{
  ℕ, zero, suc, ◌+◌, ◌-◌, ◌*◌, ◌/◌, ◌%◌, ◌^◌, Bool, true, false, ◌||◌, Bytes, [], ◌∷◌, Option, none,
  some, ltb, leb, ◌==◌, if◌then◌else◌, within,
}

-- A Go `int`: `negsuc n` is -(n + 1).
pub data ℤ : Type 0 where
  pos : ℕ → ℤ
  negsuc : ℕ → ℤ

abbrev pub is_digit : ℕ → Bool
is_digit c = within b'0' b'9' c

-- The digits of `n` in front of `rest`; a number below 10 ^ fuel has at most `fuel` digits.
show_digits : ℕ → ℕ → Bytes → Bytes
show_digits zero n rest = rest
show_digits (suc fuel) n rest = elim (ltb n 10) [
  | true ↦ (b'0' + n) ∷ rest
  | false ↦ show_digits fuel (n / 10) ((b'0' + n % 10) ∷ rest)
]

unfoldable pub show_nat : ℕ → Bytes
unfolding show_digits
show_nat n = show_digits (suc n) n []

unfoldable pub show_int : ℤ → Bytes
unfolding show_nat
show_int (pos n) = show_nat n
show_int (negsuc n) = b'-' ∷ show_nat (suc n)

unfoldable pub int_eq : ℤ → ℤ → Bool
int_eq (pos a) (pos b) = a == b
int_eq (negsuc a) (negsuc b) = a == b
int_eq _ _ = false

-- `a < b` on integers.
unfoldable pub int_lt : ℤ → ℤ → Bool
int_lt (pos a) (pos b) = ltb a b
int_lt (negsuc a) (pos b) = true
int_lt (pos a) (negsuc b) = false
int_lt (negsuc a) (negsuc b) = ltb b a

read_digits : ℕ → Bytes → Option ℕ
read_digits n [] = some n
read_digits n (c ∷ s) =
    let rest = read_digits (n * 10 + (c - b'0')) s in if is_digit c then rest else none

abbrev pub in_range : ℕ → ℕ → (ℕ → ℤ) → Option ℤ
in_range limit n make = if leb n limit then some (make n) else none

pub of_negative : ℕ → ℤ
of_negative zero = pos 0
of_negative (suc n) = negsuc n

read_magnitude : Bool → Option ℕ → Option ℤ
read_magnitude negative none = none
read_magnitude true (some n) = in_range (2 ^ 63) n of_negative
read_magnitude false (some n) = in_range (2 ^ 63 - 1) n pos

-- A JSON number literal as a 64-bit `int`; a fraction, an exponent or an overflow is refused.
unfoldable pub read_int : Bytes → Option ℤ
unfolding read_digits of_negative read_magnitude
read_int [] = none
read_int (c ∷ s) =
    if c == b'-'
    then read_magnitude true (read_digits 0 s)
    else read_magnitude false (read_digits 0 (c ∷ s))

-- `hex.DecodeString` accepts a string of hexadecimal digits of even length.
abbrev pub is_hex_digit : ℕ → Bool
is_hex_digit c = is_digit c || within b'a' b'f' c || within b'A' b'F' c

-- The value of a hexadecimal digit.
abbrev pub hex_value : ℕ → ℕ
hex_value c =
    if is_digit c then c - b'0' else if within b'a' b'f' c then c - b'a' + 10 else c - b'A' + 10

abbrev pub hex_digit : ℕ → ℕ
hex_digit n = if ltb n 10 then b'0' + n else b'a' + (n - 10)

-- `hex.EncodeToString`.
unfoldable pub hex_encode : Bytes → Bytes
hex_encode [] = []
hex_encode (c ∷ s) = hex_digit (c / 16) ∷ hex_digit (c % 16) ∷ hex_encode s
