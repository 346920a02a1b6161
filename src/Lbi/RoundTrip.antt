-- ===== src/Lbi/RoundTrip.antt =====
-- Reading back a release file: entries that are written as KEY='VALUE', one to a line.
use lts_agent.Base.{
  ℕ, ◌+◌, ◌≡◌, refl, ap, ◌∙◌, subst, true, false, not, Bytes, [], ◌∷◌, ◌++◌, All, all, arith, lit,
  ◌==◌, some, is_empty, append_assoc,
}
use lts_agent.Go.Errors.{ok}
use lts_agent.Go.Maps.{Map, put}
use lts_agent.Go.Strings.{split, trim_space, has_prefix}
use lts_agent.Go.Strings.Parts.{is_free, split-append, cut-append, cut_last-append}
use lts_agent.Go.Strings.Trim.{all-append, is_visible, trim_space-visible, trim_space-between}
use lts_agent.Lbi.{Parsed, parse_value, parse_pair, parse_line, parse_lines, parse_release}

-- A line, without its newline.
abbrev entry_line : Bytes → Bytes → Bytes
entry_line key value = key ++ (b'=' ∷ b'\'' ∷ (value ++ (b'\'' ∷ [])))

abbrev pub render : Map → Bytes
render [] = []
render ((key, value) ∷ entries) = entry_line key value ++ (10 ∷ render entries)

-- `values[key] = value` for each entry in turn.
abbrev pub put_all : Map → Map → Map
put_all [] m = m
put_all ((key, value) ∷ entries) m = put_all entries (put key value m)

-- A key is not empty, has visible ASCII characters only and no `=`, and does not start a comment.
-- A value is any text without a newline.
pub record IsEntry (entry : Bytes × Bytes) : Type 0 where
  pub nonempty : is_empty entry.0 ≡ false
  pub visible : all is_visible entry.0 ≡ true
  pub plain : is_free b'=' entry.0 ≡ true
  pub no_comment : has_prefix (lit "#") entry.0 ≡ false
  pub one_line : is_free 10 entry.1 ≡ true

parse_value-quoted : (value : Bytes) → parse_value (b'\'' ∷ (value ++ (b'\'' ∷ []))) ≡ ok value
unfolding parse_value
parse_value-quoted value = ground (arith, cut_last-append b'\'' value)

parse_pair-entry :
    (number : ℕ) (key value : Bytes) (p : Parsed)
    → IsEntry (key, value)
    → parse_pair number (some (key, b'\'' ∷ (value ++ (b'\'' ∷ [])))) p ≡ (put key value p.0, p.1)
unfolding parse_pair
parse_pair-entry number key value p h =
    rw
      (
        trim_space-visible key h.visible,
        h.nonempty,
        trim_space-between b'\'' value b'\'' refl refl,
        parse_value-quoted value,
      )
      refl

trim_space-entry :
    (key value : Bytes)
    → IsEntry (key, value)
    → trim_space (entry_line key value) ≡ entry_line key value
trim_space-entry [] value h = ground (arith, h.nonempty)
trim_space-entry (c ∷ key) value h =
    let e : c ∷ ((key ++ (b'=' ∷ b'\'' ∷ value)) ++ (b'\'' ∷ [])) ≡ entry_line (c ∷ key) value =
      ap (λ s. c ∷ s) (append_assoc key (b'=' ∷ b'\'' ∷ value) (b'\'' ∷ [])) in
    subst (λ s. trim_space s ≡ s) e
      (trim_space-between c (key ++ (b'=' ∷ b'\'' ∷ value)) b'\'' (ground (arith, h.visible)) refl)

no_comment-entry :
    (c : ℕ) (key value : Bytes)
    → IsEntry (c ∷ key, value)
    → has_prefix (lit "#") (entry_line (c ∷ key) value) ≡ false
unfolding has_prefix lit
no_comment-entry c key value h = h.no_comment

parse_line-entry :
    (number : ℕ) (key value : Bytes) (p : Parsed)
    → IsEntry (key, value)
    → parse_line number (entry_line key value) p ≡ (put key value p.0, p.1)
unfolding parse_line
parse_line-entry number [] value p h = ground (arith, h.nonempty)
parse_line-entry number (c ∷ key) value p h =
    rw
      (
        trim_space-entry (c ∷ key) value h,
        no_comment-entry c key value h,
        cut-append b'=' (c ∷ key) (b'\'' ∷ (value ++ (b'\'' ∷ []))) h.plain,
      )
      (parse_pair-entry number (c ∷ key) value p h)

visible-one_line : (s : Bytes) → all is_visible s ≡ true → is_free 10 s ≡ true
visible-one_line [] h = refl
visible-one_line (c ∷ s) h = ground (arith, visible-one_line s)

entry_line-one_line :
    (key value : Bytes) → IsEntry (key, value) → is_free 10 (entry_line key value) ≡ true
entry_line-one_line key value h = rw all-append (
    ground (
      arith,
      visible-one_line key h.visible,
      all-append (λ c. not (c == 10)) value (b'\'' ∷ []),
      h.one_line,
    ))

parse_lines-render :
    (number : ℕ) (entries : Map) (values : Map)
    → All IsEntry entries
    → parse_lines number (split 10 (render entries)) (values, []) ≡ (put_all entries values, [])
unfolding parse_lines split parse_line trim_space
parse_lines-render number [] values h = refl
parse_lines-render number ((key, value) ∷ entries) values (h, hs) =
    let rest = split 10 (render entries) in
    ap (λ lines. parse_lines number lines (values, []))
      (split-append 10 (entry_line key value) (render entries) (entry_line-one_line key value h))
    ∙ ap (λ p. parse_lines (number + 1) rest p) (parse_line-entry number key value (values, []) h)
    ∙ parse_lines-render (number + 1) entries (put key value values) hs

-- Reading back a text that was written from entries gives no warning and the map that storing them
-- in order gives.
pub parse_release-render :
    (entries : Map)
    → All IsEntry entries
    → parse_release (render entries) ≡ (put_all entries [], [])
unfolding parse_release
parse_release-render entries h = parse_lines-render 1 entries [] h
