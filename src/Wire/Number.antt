-- ===== src/Wire/Number.antt =====
-- crates/h11r/src/wire/chunked.rs: `parse_number`; crates/h11r/src/lib.rs: `DataPrefix`.
-- A `usize` has 64 bits.
pub mod Digits
pub mod RoundTrip
use h11r.Prelude.{
  ℕ, zero, suc, ◌+◌, ◌-◌, ◌*◌, ◌/◌, ◌%◌, ◌^◌, max, Bool, true, false, Option, none, some, List, [],
  ◌∷◌, ◌++◌, Bytes, codes, length, take, is_empty, within, ltb, leb, ◌==◌, if◌then◌else◌,
}

abbrev pub usize_max : ℕ
usize_max = 18446744073709551615

abbrev pub at_most_max : ℕ → Option ℕ
at_most_max n = if leb n usize_max then some n else none

abbrev pub checked_mul : ℕ → ℕ → Option ℕ
checked_mul a b = at_most_max (a * b)

abbrev pub checked_add : ℕ → ℕ → Option ℕ
checked_add a b = at_most_max (a + b)

-- The value of a digit or letter in any radix up to 36; other bytes have a value that none has.
abbrev pub digit_value : ℕ → ℕ
digit_value b =
    if within b'0' b'9' b
    then b - b'0'
    else if within b'a' b'z' b
    then b - b'a' + 10
    else if within b'A' b'Z' b
    then b - b'A' + 10
    else 36

-- `(byte as char).to_digit(radix)`, for a radix up to 36
unfoldable pub to_digit : ℕ → ℕ → Option ℕ
to_digit byte radix = if ltb (digit_value byte) radix then some (digit_value byte) else none

infixl 5 ◌>>=◌
abbrev pub ◌>>=◌ {ℓ κ} : {A : Type ℓ} {B : Type κ} → Option A → (A → Option B) → Option B
none >>= f = none
some a >>= f = f a

-- The closure of `try_fold`.
unfoldable pub next_number : ℕ → ℕ → ℕ → Option ℕ
next_number radix number byte = do
  scaled ← checked_mul number radix
  digit ← to_digit byte radix
  checked_add scaled digit

unfoldable pub fold_digits : ℕ → ℕ → Bytes → Option ℕ
fold_digits radix number [] = some number
fold_digits radix number (b ∷ bs) = next_number radix number b >>= λ n. fold_digits radix n bs

unfoldable pub parse_number : Bytes → ℕ → Option ℕ
unfolding fold_digits next_number to_digit
parse_number value radix = if is_empty value then none else fold_digits radix 0 value

-- `usize::BITS - length.leading_zeros()`, with the bits that are left to look at
unfoldable pub bit_length : ℕ → ℕ → ℕ
bit_length zero n = 0
bit_length (suc bits) n = if n == 0 then 0 else suc (bit_length bits (n / 2))

abbrev pub table_at : Bytes → ℕ → ℕ
table_at [] i = 0
table_at (x ∷ xs) zero = x
table_at (x ∷ xs) (suc i) = table_at xs i

abbrev pub hex_table : Bytes
hex_table = codes "0123456789abcdef"

-- The loop of `chunk_size` over the digits, with those that are left to write.
unfoldable pub hex_digits : ℕ → ℕ → Bytes
hex_digits zero n = []
hex_digits (suc left) n = table_at hex_table (n / 2 ^ (4 * left) % 16) ∷ hex_digits left n

unfoldable pub digit_count : ℕ → ℕ
unfolding bit_length
digit_count n = max ((bit_length 64 n + 3) / 4) 1

abbrev pub zeros : ℕ → Bytes
zeros zero = []
zeros (suc n) = 0 ∷ zeros n

-- An array of 18 bytes and the number of them in use.
pub record DataPrefix : Type 0 where
  pub bytes : Bytes
  pub len : ℕ

unfoldable pub no_prefix : DataPrefix
no_prefix = record { bytes = zeros 18; len = 0 }

unfoldable pub chunk_size : ℕ → DataPrefix
chunk_size n =
    let digits = digit_count n in
    record {
      bytes = hex_digits digits n ++ (b'\r' ∷ b'\n' ∷ zeros (16 - digits));
      len = digits + 2;
    }

-- `Deref` to the bytes in use
unfoldable pub prefix_bytes : DataPrefix → Bytes
prefix_bytes p = take p.len p.bytes

-- `length.to_string()`: the decimal digits, with no zero in front.
unfoldable pub decimal_count : ℕ → ℕ → ℕ
decimal_count zero n = 1
decimal_count (suc fuel) n = if ltb n 10 then 1 else suc (decimal_count fuel (n / 10))

unfoldable pub decimal_digits : ℕ → ℕ → Bytes
decimal_digits zero n = []
decimal_digits (suc left) n = (b'0' + n / 10 ^ left % 10) ∷ decimal_digits left n

unfoldable pub to_decimal : ℕ → Bytes
to_decimal n = decimal_digits (decimal_count 20 n) n
