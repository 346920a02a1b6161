-- ===== src/Go/Json/Encode.antt =====
-- The text of a value, as `json.Encoder` writes it with `SetEscapeHTML(false)`: no spaces, and a
-- newline at the end.
use lts_agent.Base.{
  ℕ, zero, suc, ◌/◌, ◌%◌, Bool, true, false, ◌&&◌, ◌||◌, Bytes, [], ◌∷◌, ◌++◌, ltb, ◌==◌,
  if◌then◌else◌, lit,
}
use lts_agent.Go.Numbers.{hex_digit}
use lts_agent.Go.Utf8.{rune_length}
use lts_agent.Go.Json.Value.{
  Value, null, bool, num, str, arr, obj, Items, nil, cons, Fields, end, field,
}

-- A byte below 0x80 inside a string.
unfoldable pub escape_ascii : ℕ → Bytes
escape_ascii c =
    if c == b'"' || c == b'\\'
    then b'\\' ∷ c ∷ []
    else if c == 8
    then lit "\\b"
    else if c == 12
    then lit "\\f"
    else if c == 10
    then lit "\\n"
    else if c == 13
    then lit "\\r"
    else if c == 9
    then lit "\\t"
    else if ltb c 32
    then lit "\\u00" ++ (hex_digit (c / 16) ∷ hex_digit (c % 16) ∷ [])
    else c ∷ []

is_line_separator : Bytes → Bool
is_line_separator (a ∷ b ∷ c ∷ s) = a == 0xE2 && (b == 0x80 && (c == 0xA8 || c == 0xA9))
is_line_separator s = false

-- U+2028 and U+2029 are escaped; their last bytes are 0xA8 and 0xA9.
separator_escape : Bytes → Bytes
separator_escape (a ∷ b ∷ c ∷ s) = lit "\\u202" ++ (hex_digit (c % 16) ∷ [])
separator_escape s = []

-- `pending` bytes of a rune are still to be copied, or dropped where the rune was escaped.
unfoldable pub escape_from : ℕ → Bool → Bytes → Bytes
unfolding escape_ascii is_line_separator separator_escape
escape_from pending copy [] = []
escape_from (suc pending) copy (c ∷ s) = (if copy then c ∷ [] else []) ++ escape_from pending copy s
escape_from zero copy (c ∷ s) = elim (ltb c 0x80) [
  | true ↦ escape_ascii c ++ escape_from 0 true s
  | false ↦ elim (rune_length (c ∷ s)) [
    | zero ↦ lit "\\ufffd" ++ escape_from 0 true s
    | suc n ↦ elim (is_line_separator (c ∷ s)) [
      | true ↦ separator_escape (c ∷ s) ++ escape_from n false s
      | false ↦ c ∷ escape_from n true s
    ]
  ]
]

unfoldable pub quote : Bytes → Bytes
unfolding escape_from
quote s = b'"' ∷ (escape_from 0 true s ++ (b'"' ∷ []))

unfoldable mutual
  pub print : Value → Bytes
  print null = lit "null"
  print (bool true) = lit "true"
  print (bool false) = lit "false"
  print (num literal) = literal
  print (str s) = quote s
  print (arr vs) = b'[' ∷ print_items true vs
  print (obj fs) = b'{' ∷ print_fields true fs

  pub print_items : Bool → Items → Bytes
  print_items first nil = b']' ∷ []
  print_items first (cons v vs) =
      (if first then [] else b',' ∷ []) ++ (print v ++ print_items false vs)

  pub print_fields : Bool → Fields → Bytes
  print_fields first end = b'}' ∷ []
  print_fields first (field name v fs) =
      (if first then [] else b',' ∷ [])
      ++ (quote name ++ (b':' ∷ (print v ++ print_fields false fs)))

-- `encoder.Encode`.
unfoldable pub encode : Value → Bytes
unfolding print quote
encode v = print v ++ (b'\n' ∷ [])
