-- ===== src/Wire/Number/RoundTrip.antt =====
-- crates/h11r/src/lib.rs and wire/chunked.rs: what is written as a number is read back.
use native.Mathlib.Nat.{pow-suc, pow-zero, pow-le-pow_right, le_trans}
use h11r.Prelude.{
  ℕ, zero, suc, ◌+◌, ◌-◌, ◌*◌, ◌/◌, ◌^◌, ◌≤◌, ◌<◌, max, ◌≡◌, refl, ap, arith, inl, inr, some, [],
  ◌∷◌, ◌++◌, append_assoc, Bytes, length, ltb, ◌==◌, Bool-cases, length-append, take_append,
}
use h11r.Wire.Number.{
  usize_max, to_digit, parse_number, bit_length, table_at, hex_table, hex_digits, digit_count,
  zeros, chunk_size, prefix_bytes, decimal_count, decimal_digits, to_decimal,
}
use h11r.Wire.Number.Digits.{digits_from, parse_number-digits_from}

pub hex_reads : (d : ℕ) → d < 16 → to_digit (table_at hex_table d) 16 ≡ some d
unfolding to_digit
hex_reads zero h = refl
hex_reads (suc zero) h = refl
hex_reads (suc (suc zero)) h = refl
hex_reads (suc (suc (suc zero))) h = refl
hex_reads (suc (suc (suc (suc zero)))) h = refl
hex_reads (suc (suc (suc (suc (suc zero))))) h = refl
hex_reads (suc (suc (suc (suc (suc (suc zero)))))) h = refl
hex_reads (suc (suc (suc (suc (suc (suc (suc zero))))))) h = refl
hex_reads (suc (suc (suc (suc (suc (suc (suc (suc zero)))))))) h = refl
hex_reads (suc (suc (suc (suc (suc (suc (suc (suc (suc zero))))))))) h = refl
hex_reads (suc (suc (suc (suc (suc (suc (suc (suc (suc (suc zero)))))))))) h = refl
hex_reads (suc (suc (suc (suc (suc (suc (suc (suc (suc (suc (suc zero))))))))))) h = refl
hex_reads (suc (suc (suc (suc (suc (suc (suc (suc (suc (suc (suc (suc zero)))))))))))) h = refl
hex_reads (suc (suc (suc (suc (suc (suc (suc (suc (suc (suc (suc (suc (suc zero))))))))))))) h =
    refl
hex_reads (suc (suc (suc (suc (suc (suc (suc (suc (suc (suc (suc (suc (suc (suc zero))))))))))))))
      h =
    refl
hex_reads
      (suc (suc (suc (suc (suc (suc (suc (suc (suc (suc (suc (suc (suc (suc (suc zero)))))))))))))))
      h =
    refl
hex_reads
      (suc
        (suc (suc (suc (suc (suc (suc (suc (suc (suc (suc (suc (suc (suc (suc (suc d))))))))))))))))
      h =
    absurd (omega arith)

decimal_reads : (d : ℕ) → d < 10 → to_digit (b'0' + d) 10 ≡ some d
unfolding to_digit
decimal_reads d h = ground arith

four_bits : (k : ℕ) → 2 ^ (4 * k) ≡ 16 ^ k
four_bits zero = refl
four_bits (suc k) =
    let e : 4 * suc k ≡ suc (suc (suc (suc (4 * k)))) = omega arith in
    rw e (
      omega (
        arith,
        pow-suc 2 (suc (suc (suc (4 * k)))),
        pow-suc 2 (suc (suc (4 * k))),
        pow-suc 2 (suc (4 * k)),
        pow-suc 2 (4 * k),
        four_bits k,
        pow-suc 16 k,
      ))

hex-digits_from : (k n : ℕ) → hex_digits k n ≡ digits_from (table_at hex_table) 16 k n
unfolding hex_digits digits_from
hex-digits_from zero n = refl
hex-digits_from (suc k) n = rw (four_bits k, hex-digits_from k n)

lt-pow-bit_length : (bits n : ℕ) → n < 2 ^ bits → n < 2 ^ bit_length bits n
unfolding bit_length
lt-pow-bit_length zero n h = h
lt-pow-bit_length (suc bits) n h = elim (Bool-cases (n == 0)) [
  | inl none_left ↦ rw none_left (let e : n ≡ 0 = ground arith in rw (e, pow-zero) (omega arith))
  | inr more ↦ rw more (
      omega (
        arith,
        pow-suc 2 bits,
        pow-suc 2 (bit_length bits (n / 2)),
        lt-pow-bit_length bits (n / 2) (omega (arith, pow-suc 2 bits)),
      ))
]

bit_length-le : (bits n : ℕ) → bit_length bits n ≤ bits
unfolding bit_length
bit_length-le zero n = omega arith
bit_length-le (suc bits) n = ground (arith, bit_length-le bits (n / 2))

-- The digits that are written suffice.
pub fits_digits : (n : ℕ) → n ≤ usize_max → n < 16 ^ digit_count n
fits_digits n small =
    unfold digit_count in
    rw (← four_bits (max ((bit_length 64 n + 3) / 4) 1)) (
      le_trans (lt-pow-bit_length 64 n (omega arith))
        (pow-le-pow_right (omega arith) (omega arith)))

pub digit_count_bounds : (n : ℕ) → (1 ≤ digit_count n) × (digit_count n ≤ 16)
unfolding digit_count
digit_count_bounds n = omega (arith, bit_length-le 64 n)

pub length-hex_digits : (k n : ℕ) → length (hex_digits k n) ≡ k
unfolding hex_digits
length-hex_digits zero n = refl
length-hex_digits (suc k) n = ap suc (length-hex_digits k n)

length-zeros : (k : ℕ) → length (zeros k) ≡ k
length-zeros zero = refl
length-zeros (suc k) = ap suc (length-zeros k)

pub parse-hex_digits :
    (k n : ℕ) → 0 < k → n < 16 ^ k → n ≤ usize_max → parse_number (hex_digits k n) 16 ≡ some n
parse-hex_digits zero n h fits small = elim h [ ]
parse-hex_digits (suc k) n h fits small =
    rw (hex-digits_from (suc k) n)
      (parse_number-digits_from (table_at hex_table) 16 (omega arith) hex_reads k n fits small)

abbrev crlf : Bytes
crlf = b'\r' ∷ b'\n' ∷ []

-- For every length that a `usize` holds, the framing before a chunk is hexadecimal digits and CRLF,
-- it fits the array of 18 bytes, and the digits are read back as that length.
pub chunk_size-parse :
    (n : ℕ)
    → n ≤ usize_max
    → (prefix_bytes (chunk_size n) ≡ hex_digits (digit_count n) n ++ crlf)
      × (length (chunk_size n).bytes ≡ 18)
      × ((chunk_size n).len ≤ 18)
      × (parse_number (hex_digits (digit_count n) n) 16 ≡ some n)
chunk_size-parse n small = (
  written,
  size,
  len_fits,
  parse-hex_digits (digit_count n) n (digit_count_bounds n).0 (fits_digits n small) small,
)
  where
    digits : Bytes
    digits = hex_digits (digit_count n) n

    unused : Bytes
    unused = zeros (16 - digit_count n)

    size : length (chunk_size n).bytes ≡ 18
    size =
        unfold chunk_size in
        omega (
          arith,
          length-append digits (crlf ++ unused),
          length-hex_digits (digit_count n) n,
          length-zeros (16 - digit_count n),
          digit_count_bounds n,
        )

    len_fits : (chunk_size n).len ≤ 18
    len_fits = unfold chunk_size in omega (arith, digit_count_bounds n)

    in_use : digit_count n + 2 ≡ length (digits ++ crlf)
    in_use = omega (arith, length-append digits crlf, length-hex_digits (digit_count n) n)

    written : prefix_bytes (chunk_size n) ≡ digits ++ crlf
    written =
        unfold prefix_bytes chunk_size in
        rw (in_use, ← append_assoc digits crlf unused) (take_append (digits ++ crlf) unused)

decimal-digits_from : (k n : ℕ) → decimal_digits k n ≡ digits_from (λ d. b'0' + d) 10 k n
unfolding decimal_digits digits_from
decimal-digits_from zero n = refl
decimal-digits_from (suc k) n = rw (decimal-digits_from k n)

decimal_count-pos : (fuel n : ℕ) → 0 < decimal_count fuel n
unfolding decimal_count
decimal_count-pos zero n = omega arith
decimal_count-pos (suc fuel) n = ground arith

lt-pow-decimal_count : (fuel n : ℕ) → n < 10 ^ suc fuel → n < 10 ^ decimal_count fuel n
unfolding decimal_count
lt-pow-decimal_count zero n h = h
lt-pow-decimal_count (suc fuel) n h = elim (Bool-cases (ltb n 10)) [
  | inl last ↦ rw last (ground arith)
  | inr more ↦ rw more (
      omega (
        arith,
        pow-suc 10 (suc fuel),
        pow-suc 10 (decimal_count fuel (n / 10)),
        lt-pow-decimal_count fuel (n / 10) (omega (arith, pow-suc 10 (suc fuel))),
      ))
]

parse-decimal_digits :
    (k n : ℕ) → 0 < k → n < 10 ^ k → n ≤ usize_max → parse_number (decimal_digits k n) 10 ≡ some n
parse-decimal_digits zero n h fits small = elim h [ ]
parse-decimal_digits (suc k) n h fits small =
    rw (decimal-digits_from (suc k) n)
      (parse_number-digits_from (λ d. b'0' + d) 10 (omega arith) decimal_reads k n fits small)

-- The decimal text of every length that a `usize` holds is read back as that length.
pub parse-to_decimal : (n : ℕ) → n ≤ usize_max → parse_number (to_decimal n) 10 ≡ some n
parse-to_decimal n small =
    unfold to_decimal in
    parse-decimal_digits (decimal_count 20 n) n (decimal_count-pos 20 n)
      (lt-pow-decimal_count 20 n (omega arith)) small
