-- ===== src/Wire/Elements.antt =====
-- crates/h11r/src/wire/fields.rs: whitespace, tokens, quoted strings and comma-separated lists.
pub mod Bounds
pub mod Within
use h11r.Prelude.{
  ℕ, zero, suc, ◌+◌, min, Bool, true, false, not, ◌&&◌, ◌||◌, Option, none, some, List, [], ◌∷◌,
  ◌++◌, Bytes, length, take, drop, is_empty, within, map, ◌==◌, if◌then◌else◌,
}
use h11r.Method.{is_token_byte}
use h11r.Wire.Syntax.{is_line_value_byte}

unfoldable pub is_ows : ℕ → Bool
is_ows b = b == b' ' || b == b'\t'

-- `value.get(at)`, tested against a byte
abbrev pub byte_at : Bytes → ℕ → Option ℕ
byte_at [] at = none
byte_at (x ∷ xs) zero = some x
byte_at (x ∷ xs) (suc at) = byte_at xs at

abbrev pub is_byte : Option ℕ → ℕ → Bool
is_byte none b = false
is_byte (some c) b = c == b

-- The bytes at the front that pass a test, which a `while` loop over the index walks past.
unfoldable pub count_while : (ℕ → Bool) → Bytes → ℕ
count_while test [] = 0
count_while test (x ∷ xs) = if test x then suc (count_while test xs) else 0

unfoldable pub skip_ows : Bytes → ℕ → ℕ
unfolding count_while is_ows
skip_ows value at = at + count_while is_ows (drop at value)

-- `iter().position(test)`
unfoldable pub position : (ℕ → Bool) → Bytes → Option ℕ
position test [] = none
position test (x ∷ xs) = elim (test x) [
  | true ↦ some 0
  | false ↦ elim (position test xs) [ none ↦ none | some at ↦ some (suc at) ]
]

end_or : ℕ → ℕ → Option ℕ → ℕ
end_or len start none = len
end_or len start (some end) = start + end

unfoldable pub token_end : Bytes → ℕ → ℕ
unfolding position end_or
token_end value start =
    end_or (length value) start
      (position (λ b. not (is_token_byte b)) (drop (min start (length value)) value))

unfoldable pub token_name : Bytes → Bytes
unfolding token_end
token_name element = take (token_end element 0) element

-- A byte of a quoted string other than the quote and the backslash.
abbrev pub is_quoted_byte : ℕ → Bool
is_quoted_byte b =
    b == b'\t'
    || b == 0x20
    || b == 0x21
    || within 0x23 0x5b b
    || within 0x5d 0x7e b
    || within 0x80 0xff b

-- The loop of `parse_quoted_string` at the position `at`, over the bytes from there.
quoted_end : ℕ → Bytes → Option ℕ
quoted_end at [] = none
quoted_end at (b ∷ []) = if b == b'"' then some (at + 1) else none
quoted_end at (b ∷ (c ∷ cs)) =
    let escaped = quoted_end (at + 2) cs in
    let plain = quoted_end (at + 1) (c ∷ cs) in
    if b == b'"'
    then some (at + 1)
    else if b == b'\\'
    then (if is_line_value_byte c then escaped else none)
    else if is_quoted_byte b
    then plain
    else none

unfoldable pub parse_quoted_string : Bytes → ℕ → Option ℕ
unfolding quoted_end is_line_value_byte
parse_quoted_string value at = quoted_end (at + 1) (drop (at + 1) value)

trim_start : Bytes → Bytes
trim_start [] = []
trim_start (x ∷ xs) = elim (is_ows x) [ true ↦ trim_start xs | false ↦ x ∷ xs ]

trim_end : Bytes → Bytes
trim_end [] = []
trim_end (x ∷ xs) = let rest = trim_end xs in if is_empty rest && is_ows x then [] else x ∷ rest

unfoldable pub trim_ows : Bytes → Bytes
unfolding trim_start trim_end is_ows
trim_ows value = trim_end (trim_start value)

-- The flags that the closure of `split` keeps.
pub record Quoting : Type 0 where
  pub quoted : Bool
  pub escaped : Bool

-- The closure for one byte: the new flags, and whether the byte separates two elements.
separates : Bool → Quoting → ℕ → Quoting × Bool
separates quoting q b =
    if q.escaped
    then (record q { escaped = false }, false)
    else if b == b'\\' && q.quoted
    then (record q { escaped = true }, false)
    else if b == b'"' && quoting
    then (record q { quoted = not q.quoted }, false)
    else if b == b','
    then (q, not q.quoted)
    else (q, false)

split_elements : Bool → Quoting → Bytes → Bytes → List Bytes
split_elements quoting q current [] = current ∷ []
split_elements quoting q current (b ∷ bs) =
    let (r, ends) = separates quoting q b in
    elim ends [
      | true ↦ current ∷ split_elements quoting r [] bs
      | false ↦ split_elements quoting r (current ++ b ∷ []) bs
    ]

unfoldable pub elements : Bytes → Bool → List Bytes
unfolding split_elements separates trim_ows
elements value quoting =
    map trim_ows (split_elements quoting (record { quoted = false; escaped = false }) [] value)
