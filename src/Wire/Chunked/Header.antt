-- ===== src/Wire/Chunked/Header.antt =====
-- crates/h11r/src/wire/chunked.rs: chunk-size lines are read to their end, and read back.
use h11r.Prelude.{
  ℕ, zero, suc, ◌+◌, ◌-◌, ◌*◌, ◌/◌, ◌%◌, ◌^◌, ◌≤◌, ◌<◌, ◌≡◌, refl, ap, sym, ◌∙◌, [], ◌∷◌, ◌++◌,
  take, run_while, arith, inl, inr, true, false, not, ◌&&◌, some, Bytes, length, ltb, if◌then◌else◌,
  Option-cases, run_while_ends,
}
use h11r.Wire.Elements.{skip_ows, count_while}
use h11r.Wire.Head.{crlf}
use h11r.Wire.Number.{
  usize_max, to_digit, parse_number, table_at, hex_table, hex_digits, digit_count, chunk_size,
  prefix_bytes,
}
use h11r.Wire.Number.RoundTrip.{hex_reads, chunk_size-parse, length-hex_digits}
use h11r.Wire.Target.{is_ascii_hexdigit}
use h11r.Wire.Elements.Bounds.{skip_ows-ge, parse_quoted_string-ge}
use h11r.Wire.Chunked.{
  skip_token, extension_value, after_extension_name, read_extension, Extensions, or_failed,
  extensions_left, read_extensions, parse_chunk_header,
}

value-gt :
    (line : Bytes) (after_equals e : ℕ)
    → extension_value line after_equals ≡ some e
    → after_equals ≤ e
unfolding extension_value
value-gt line after_equals e h = ground (
  arith,
  skip_ows-ge line after_equals,
  parse_quoted_string-ge line (skip_ows line after_equals) e,
)

after_name-ge :
    (line : Bytes) (after_name e : ℕ)
    → after_extension_name line after_name ≡ some e
    → after_name ≤ e
unfolding after_extension_name
after_name-ge line after_name e h =
    ground (arith, skip_ows-ge line after_name, value-gt line (skip_ows line after_name + 1) e)

-- An extension has at least its semicolon and one byte of its name.
read_extension-gt : (line : Bytes) (from e : ℕ) → read_extension line from ≡ some e → from < e
unfolding read_extension
read_extension-gt line from e h = ground (
  arith,
  skip_ows-ge line from,
  skip_ows-ge line (at + 1),
  after_name-ge line (skip_token line name) e,
)
  where
    at : ℕ
    at = skip_ows line from

    name : ℕ
    name = skip_ows line (at + 1)

abbrev bytes_left : Bytes → Extensions → ℕ
bytes_left line s = if s.failed then 0 else length line - s.at

extension_steps :
    (line : Bytes) (s : Extensions)
    → Unit {0}
    → extensions_left line s ≡ true
    → Unit {0} × (bytes_left line (or_failed s (read_extension line s.at)) < bytes_left line s)
unfolding extensions_left or_failed
extension_steps line s _ more = elim (Option-cases (read_extension line s.at)) [
  | inl bad ↦ rw bad (tt, ground arith)
  | inr (e, good) ↦ rw good (tt, ground (arith, read_extension-gt line s.at e))
]

-- From any position the loop over the extensions ends, because an extension was malformed or because
-- the end of the line is reached.
pub read_extensions_end :
    (line : Bytes) (at : ℕ)
    → (not (read_extensions line at).failed && ltb (read_extensions line at).at (length line))
      ≡ false
read_extensions_end line at =
    unfold read_extensions in
    (run_while_ends {Holds = λ s. Unit} (bytes_left line) (extensions_left line)
      (λ s. or_failed s (read_extension line s.at)) (extension_steps line) (length line + 1)
      (record { at = at; failed = false }) tt (omega arith)).0

digit_is_hex : (b d : ℕ) → to_digit b 16 ≡ some d → is_ascii_hexdigit b ≡ true
unfolding to_digit
digit_is_hex b d h = ground (arith, h)

count-hex_digits : (k n : ℕ) → count_while is_ascii_hexdigit (hex_digits k n) ≡ k
unfolding count_while hex_digits
count-hex_digits zero n = refl
count-hex_digits (suc k) n =
    rw (digit_is_hex (table_at hex_table digit) digit (hex_reads digit (omega arith)))
      (ap suc (count-hex_digits k n))
  where
    digit : ℕ
    digit = n / 2 ^ (4 * k) % 16

take_length : (xs : Bytes) → take (length xs) xs ≡ xs
take_length [] = refl
take_length (x ∷ xs) = ap (◌∷◌ x) (take_length xs)

-- At the end of the line there is no extension.
no_extensions :
    (line : Bytes) (at : ℕ) → length line ≤ at → (read_extensions line at).failed ≡ false
unfolding read_extensions extensions_left run_while
no_extensions line at h =
    let e : length line + 1 ≡ suc (length line) = omega arith in
    let done : ltb at (length line) ≡ false = ground arith in rw e (rw (done, run_while) refl)

header_of_digits :
    (line : Bytes) (n : ℕ)
    → count_while is_ascii_hexdigit line ≡ length line
    → parse_number line 16 ≡ some n
    → parse_chunk_header line ≡ some n
unfolding parse_chunk_header
header_of_digits line n all_digits reads =
    rw (all_digits, take_length line, reads, no_extensions line (length line) (omega arith)) refl

-- What the sender writes before a chunk is a line and its CRLF, and the receiver reads the line as the
-- size of the chunk, for every length that a `usize` holds.
pub parse_chunk_header-chunk_size :
    (n : ℕ)
    → n ≤ usize_max
    → let line = hex_digits (digit_count n) n in
      (prefix_bytes (chunk_size n) ≡ line ++ crlf) × (parse_chunk_header line ≡ some n)
parse_chunk_header-chunk_size n h =
    let (written, _, _, reads) = chunk_size-parse n h in
    (
      written,
      header_of_digits (hex_digits (digit_count n) n) n
          (count-hex_digits (digit_count n) n ∙ sym (length-hex_digits (digit_count n) n)) reads,
    )
