-- ===== src/Wire/Elements/Bounds.antt =====
-- crates/h11r/src/wire/fields.rs: the scans stay within the value and do not go back.
use h11r.Prelude.{
  ℕ, zero, suc, ◌+◌, ◌≤◌, ◌<◌, ◌≡◌, refl, arith, min, inl, inr, Bool, true, false, not, Option,
  none, some, [], ◌∷◌, ◌++◌, Bytes, length, drop, is_empty, Bool-cases, Option-cases, length-drop,
}
use h11r.Method.{is_token_byte}
use h11r.Wire.Elements.{
  Quoting, separates, split_elements, elements, is_ows, byte_at, is_byte, count_while, skip_ows,
  position, end_or, token_end, quoted_end, parse_quoted_string,
}

count_while-le : (test : ℕ → Bool) (xs : Bytes) → count_while test xs ≤ length xs
unfolding count_while
count_while-le test [] = omega arith
count_while-le test (x ∷ xs) = ground (arith, count_while-le test xs)

pub skip_ows-ge : (value : Bytes) (at : ℕ) → at ≤ skip_ows value at
skip_ows-ge value at = unfold skip_ows in omega arith

pub skip_ows-le : (value : Bytes) (at : ℕ) → at ≤ length value → skip_ows value at ≤ length value
skip_ows-le value at h =
    unfold skip_ows in omega (arith, count_while-le is_ows (drop at value), length-drop at value)

position-lt : (test : ℕ → Bool) (xs : Bytes) (i : ℕ) → position test xs ≡ some i → i < length xs
unfolding position
position-lt test [] i h = cc
position-lt test (x ∷ xs) i h = elim (Bool-cases (test x)) [
  | inl here ↦ ground arith
  | inr on ↦ elim (Option-cases (position test xs)) [
    | inl none_found ↦ ground arith
    | inr (j, e) ↦ ground (arith, position-lt test xs j e)
  ]
]

end_or-le :
    (len start : ℕ) (o : Option ℕ)
    → ((i : ℕ) → o ≡ some i → start + i ≤ len)
    → (end_or len start o ≤ len) × (start ≤ len → start ≤ end_or len start o)
unfolding end_or
end_or-le len start none h = (omega arith, λ s. s)
end_or-le len start (some i) h = (h i refl, λ s. omega arith)

token_end_bounds :
    (value : Bytes) (start : ℕ)
    → (token_end value start ≤ length value)
      × (start ≤ length value → start ≤ token_end value start)
unfolding token_end
token_end_bounds value start =
    end_or-le (length value) start
      (position (λ b. not (is_token_byte b)) (drop (min start (length value)) value))
      (λ i e. omega (
        arith,
        position-lt (λ b. not (is_token_byte b)) (drop (min start (length value)) value) i e,
        length-drop (min start (length value)) value,
      ))

pub token_end-le : (value : Bytes) (start : ℕ) → token_end value start ≤ length value
token_end-le value start = (token_end_bounds value start).0

pub token_end-ge :
    (value : Bytes) (start : ℕ) → start ≤ length value → start ≤ token_end value start
token_end-ge value start = (token_end_bounds value start).1

quoted_end-le : (at : ℕ) (xs : Bytes) (e : ℕ) → quoted_end at xs ≡ some e → e ≤ at + length xs
unfolding quoted_end
quoted_end-le at [] e h = cc
quoted_end-le at (b ∷ []) e h = ground arith
quoted_end-le at (b ∷ (c ∷ cs)) e h =
    ground (arith, quoted_end-le (at + 2) cs e, quoted_end-le (at + 1) (c ∷ cs) e)

-- A quoted string that opens within the value ends within it.
pub parse_quoted_string-le :
    (value : Bytes) (at e : ℕ)
    → at < length value
    → parse_quoted_string value at ≡ some e
    → e ≤ length value
parse_quoted_string-le value at e h q = omega (
  arith,
  quoted_end-le (at + 1) (drop (at + 1) value) e (unfold parse_quoted_string in q),
  length-drop (at + 1) value,
)

-- A byte that is there lies before the end.
pub byte_at-lt :
    (value : Bytes) (at b : ℕ) → is_byte (byte_at value at) b ≡ true → at < length value
byte_at-lt [] at b h = cc
byte_at-lt (x ∷ xs) zero b h = omega arith
byte_at-lt (x ∷ xs) (suc at) b h = omega (arith, byte_at-lt xs at b h)

pub byte_at-ge : (value : Bytes) (at : ℕ) → byte_at value at ≡ none → length value ≤ at
byte_at-ge [] at h = omega arith
byte_at-ge (x ∷ xs) zero h = cc
byte_at-ge (x ∷ xs) (suc at) h = omega (arith, byte_at-ge xs at h)

split_elements-ne :
    (quoting : Bool) (q : Quoting) (current value : Bytes)
    → is_empty (split_elements quoting q current value) ≡ false
unfolding split_elements
split_elements-ne quoting q current [] = refl
split_elements-ne quoting q current (b ∷ bs) =
    let r = (separates quoting q b).0 in
    elim (Bool-cases (separates quoting q b).1) [
      | inl ends ↦ rw (ends, split_elements) refl
      | inr on ↦ rw (on, split_elements) (split_elements-ne quoting r (current ++ b ∷ []) bs)
    ]

-- A value has at least one element, which may be empty.
pub elements-ne : (value : Bytes) (quoting : Bool) → is_empty (elements value quoting) ≡ false
unfolding elements
elements-ne value quoting =
    ground (arith, split_elements-ne quoting (record { quoted = false; escaped = false }) [] value)

quoted_end-ge : (at : ℕ) (xs : Bytes) (e : ℕ) → quoted_end at xs ≡ some e → at ≤ e
unfolding quoted_end
quoted_end-ge at [] e h = cc
quoted_end-ge at (b ∷ []) e h = ground arith
quoted_end-ge at (b ∷ (c ∷ cs)) e h =
    ground (arith, quoted_end-ge (at + 2) cs e, quoted_end-ge (at + 1) (c ∷ cs) e)

pub parse_quoted_string-ge :
    (value : Bytes) (at e : ℕ) → parse_quoted_string value at ≡ some e → at ≤ e
parse_quoted_string-ge value at e q =
    omega (arith, quoted_end-ge (at + 1) (drop (at + 1) value) e (unfold parse_quoted_string in q))
