-- ===== src/Wire/Syntax.antt =====
-- crates/h11r/src/wire/fields.rs: byte classes, and the syntax of field names and values.
use h11r.Prelude.{
  ℕ, ◌+◌, Bool, true, false, not, ◌&&◌, ◌||◌, [], ◌∷◌, Bytes, all, is_empty, within, ◌==◌,
}
use h11r.Method.{is_token_byte}

unfoldable pub is_line_value_byte : ℕ → Bool
is_line_value_byte b = b == b'\t' || within 0x20 0x7e b || within 0x80 0xff b

unfoldable pub is_field_vchar : ℕ → Bool
is_field_vchar b = within 0x21 0x7e b || within 0x80 0xff b

-- `byte.to_ascii_lowercase()`
unfoldable pub to_ascii_lowercase : ℕ → ℕ
to_ascii_lowercase b = elim (within b'A' b'Z' b) [ true ↦ b + 32 | false ↦ b ]

unfoldable pub eq_ignore_ascii_case : Bytes → Bytes → Bool
unfolding to_ascii_lowercase
eq_ignore_ascii_case [] [] = true
eq_ignore_ascii_case (x ∷ xs) (y ∷ ys) =
    to_ascii_lowercase x == to_ascii_lowercase y && eq_ignore_ascii_case xs ys
eq_ignore_ascii_case _ _ = false

unfoldable pub valid_name : Bytes → Bool
unfolding is_token_byte
valid_name name = not (is_empty name) && all is_token_byte name

-- `first()` and `last()` of a slice under a test that fails on none
unfoldable pub first_is : (ℕ → Bool) → Bytes → Bool
first_is test [] = false
first_is test (x ∷ xs) = test x

unfoldable pub last_is : (ℕ → Bool) → Bytes → Bool
last_is test [] = false
last_is test (x ∷ []) = test x
last_is test (x ∷ (y ∷ ys)) = last_is test (y ∷ ys)

unfoldable pub valid_value : Bytes → Bool
unfolding first_is last_is is_field_vchar is_line_value_byte
valid_value value =
    is_empty value
    || (first_is is_field_vchar value
        && last_is is_field_vchar value
        && all is_line_value_byte value)
