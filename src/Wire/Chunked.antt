-- ===== src/Wire/Chunked.antt =====
-- crates/h11r/src/wire/chunked.rs: chunk-size lines.
pub mod Header
use h11r.Prelude.{
  ℕ, ◌+◌, Bool, true, false, not, ◌&&◌, ◌||◌, Option, none, some, List, [], ◌∷◌, Bytes, length,
  take, drop, ltb, ◌==◌, if◌then◌else◌, run_while,
}
use h11r.Method.{is_token_byte}
use h11r.Wire.Elements.{byte_at, is_byte, count_while, skip_ows, parse_quoted_string}
use h11r.Wire.Number.{parse_number, ◌>>=◌}
use h11r.Wire.Target.{is_ascii_hexdigit}

-- `while line.get(at).is_some_and(is_token_byte)`
abbrev skip_token : Bytes → ℕ → ℕ
skip_token line at = at + count_while is_token_byte (drop at line)

-- The value of an extension, from the byte behind the equals sign.
unfoldable pub extension_value : Bytes → ℕ → Option ℕ
extension_value line after_equals =
    let at = skip_ows line after_equals in
    if is_byte (byte_at line at) b'"'
    then parse_quoted_string line at
    else if skip_token line at == at
    then none
    else some (skip_token line at)

-- What may follow the name of an extension.
unfoldable pub after_extension_name : Bytes → ℕ → Option ℕ
after_extension_name line after_name =
    let at = skip_ows line after_name in
    if is_byte (byte_at line at) b'='
    then extension_value line (at + 1)
    else if not (at == after_name) && not (is_byte (byte_at line at) b';')
    then none
    else some at

-- The body of the loop: the position behind one extension, unless it is malformed.
unfoldable pub read_extension : Bytes → ℕ → Option ℕ
read_extension line from =
    let at = skip_ows line from in
    let name = skip_ows line (at + 1) in
    if not (is_byte (byte_at line at) b';')
    then none
    else if skip_token line name == name
    then none
    else after_extension_name line (skip_token line name)

-- The position of the loop, and whether it has returned `None`.
pub record Extensions : Type 0 where
  pub at : ℕ
  pub failed : Bool

unfoldable pub or_failed : Extensions → Option ℕ → Extensions
or_failed s none = record s { failed = true }
or_failed s (some at) = record s { at = at }

unfoldable pub extensions_left : Bytes → Extensions → Bool
extensions_left line s = not s.failed && ltb s.at (length line)

-- The loop from `at`; one round more than the line has bytes is enough.
unfoldable pub read_extensions : Bytes → ℕ → Extensions
unfolding extensions_left
read_extensions line at =
    run_while (extensions_left line) (λ s. or_failed s (read_extension line s.at)) (length line + 1)
      (record { at = at; failed = false })

unfoldable pub parse_chunk_header : Bytes → Option ℕ
parse_chunk_header line =
    let digits = count_while is_ascii_hexdigit line in
    parse_number (take digits line) 16 >>= λ size.
    if (read_extensions line digits).failed then none else some size
