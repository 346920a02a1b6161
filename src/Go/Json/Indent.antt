-- ===== src/Go/Json/Indent.antt =====
-- The text of a value, as `json.Encoder` writes it after `SetIndent("", "  ")` and
-- `SetEscapeHTML(false)`.
use lts_agent.Base.{ℕ, zero, suc, ◌+◌, Bytes, [], ◌∷◌, ◌++◌, lit}
use lts_agent.Go.Json.Value.{Value, arr, obj, Items, nil, cons, Fields, end, field}
use lts_agent.Go.Json.Encode.{print, quote}

-- A new line at a depth.
margin : ℕ → Bytes
margin zero = []
margin (suc depth) = b' ' ∷ b' ' ∷ margin depth

new_line : ℕ → Bytes
unfolding margin
new_line depth = b'\n' ∷ margin depth

-- An empty array or object takes no new line.
unfoldable mutual
  unfolding new_line

  pub indent : ℕ → Value → Bytes
  indent depth (arr nil) = lit "[]"
  indent depth (arr (cons v vs)) =
      b'[' ∷ (new_line (depth + 1) ++ (indent (depth + 1) v ++ indent_items depth vs))
  indent depth (obj end) = lit "{}"
  indent depth (obj (field name v fs)) =
      b'{'
      ∷ (new_line (depth + 1)
          ++ (quote name ++ (lit ": " ++ (indent (depth + 1) v ++ indent_fields depth fs))))
  indent depth v = print v

  pub indent_items : ℕ → Items → Bytes
  indent_items depth nil = new_line depth ++ lit "]"
  indent_items depth (cons v vs) =
      b',' ∷ (new_line (depth + 1) ++ (indent (depth + 1) v ++ indent_items depth vs))

  pub indent_fields : ℕ → Fields → Bytes
  indent_fields depth end = new_line depth ++ lit "}"
  indent_fields depth (field name v fs) =
      b','
      ∷ (new_line (depth + 1)
          ++ (quote name ++ (lit ": " ++ (indent (depth + 1) v ++ indent_fields depth fs))))

-- `encoder.Encode`.
unfoldable pub encode_indented : Value → Bytes
unfolding indent
encode_indented v = indent 0 v ++ (b'\n' ∷ [])
