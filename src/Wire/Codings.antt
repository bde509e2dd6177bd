-- ===== src/Wire/Codings.antt =====
-- crates/h11r/src/wire/fields.rs: `Codings`, what a `Transfer-Encoding` list says about framing.
pub mod Ends
use Prim.Native.String.{String}
use h11r.Prelude.{
  ℕ, zero, suc, ◌+◌, ◌-◌, Bool, true, false, not, ◌&&◌, ◌||◌, Option, none, some, List, [], ◌∷◌,
  Bytes, codes, length, take, drop, any, ltb, ◌==◌, if◌then◌else◌, Result, ok, err, run_while,
}
use h11r.Wire.Buffer.{Framing, fixed, chunked, close_delimited}
use h11r.Wire.Syntax.{eq_ignore_ascii_case}
use h11r.Wire.Elements.{byte_at, is_byte, skip_ows, token_end, parse_quoted_string}
use h11r.Wire.Errors.{RemoteProtocolError, remote}

pub record Codings : Type 0 where
  pub any_coding : Bool
  pub empty : Bool
  pub malformed : Bool
  pub last_chunked : Bool
  pub chunked_before_last : Bool
  pub other_before_last : Bool

abbrev pub no_codings : Codings
no_codings = record {
  any_coding = false;
  empty = false;
  malformed = false;
  last_chunked = false;
  chunked_before_last = false;
  other_before_last = false;
}

unfoldable pub is_registered_coding : Bytes → Bool
is_registered_coding name = any (eq_ignore_ascii_case name) (
    codes "chunked"
    ∷ codes "compress"
    ∷ codes "deflate"
    ∷ codes "gzip"
    ∷ codes "x-compress"
    ∷ codes "x-gzip"
    ∷ [])

-- The variables of the loop over the parameters of one coding.
pub record Parameters : Type 0 where
  pub at : ℕ
  pub valid : Bool
  pub parameters : Bool

abbrev or_here : ℕ → Option ℕ → ℕ
or_here here none = here
or_here here (some at) = at

more_parameters : Bytes → Parameters → Bool
more_parameters value s = s.valid && is_byte (byte_at value s.at) b';'

-- Where the value of a parameter that starts at `at` ends; at its start if it is not valid.
parameter_end : Bytes → ℕ → ℕ
parameter_end value at =
    if is_byte (byte_at value at) b'"'
    then or_here at (parse_quoted_string value at)
    else token_end value at

read_parameter : Bytes → Parameters → Parameters
read_parameter value s =
    let name = skip_ows value (s.at + 1) in
    let after_name = skip_ows value (token_end value name) in
    let named = ltb name after_name && is_byte (byte_at value after_name) b'=' in
    let parameter = skip_ows value (after_name + 1) in
    let end = parameter_end value parameter in
    record { at = skip_ows value end; valid = named && ltb parameter end; parameters = true }

-- The variables of the loop over the list, and whether it has returned.
pub record Reading : Type 0 where
  pub codings : Codings
  pub at : ℕ
  pub returned : Bool

abbrev ends_element : Option ℕ → Bool
ends_element none = true
ends_element (some c) = c == b','

-- The flags of the codings before, once one more coding follows.
note_before : Codings → Codings
note_before c =
    if c.any_coding
    then (if c.last_chunked
        then record c { chunked_before_last = true }
        else record c { other_before_last = true })
    else c

-- The parameters of the coding whose name ends at `name_end`.
read_parameters : Bytes → ℕ → ℕ → Parameters
read_parameters value start name_end =
    run_while (more_parameters value) (read_parameter value) (length value + 2)
      (record { at = skip_ows value name_end; valid = ltb start name_end; parameters = false })

finish_coding : Bytes → Codings → Bytes → Parameters → Reading
finish_coding value c name read =
    let valid =
      read.valid
      && (not (read.parameters && is_registered_coding name)
          && ends_element (byte_at value read.at)) in
    let before = note_before c in
    let noted = record before {
      any_coding = true;
      malformed = before.malformed || not valid;
      last_chunked = eq_ignore_ascii_case name (codes "chunked") && valid;
    } in
    if not valid || read.at == length value
    then record { codings = noted; at = read.at; returned = true }
    else record { codings = noted; at = read.at + 1; returned = false }

read_coding : Bytes → Codings → ℕ → Reading
read_coding value c start =
    let name_end = token_end value start in
    finish_coding value c (take (name_end - start) (drop start value))
      (read_parameters value start name_end)

-- The body of the loop of `read`.
read_element : Bytes → Reading → Reading
read_element value s =
    let start = skip_ows value s.at in
    if ends_element (byte_at value start)
    then (let noted = record s.codings { empty = true } in
        if start == length value
        then record { codings = noted; at = s.at; returned = true }
        else record { codings = noted; at = start + 1; returned = false })
    else read_coding value s.codings start

-- The loop of `read`; three rounds more than the value has bytes are enough.
unfoldable pub read_loop : Codings → Bytes → Reading
unfolding read_element read_coding read_parameters finish_coding more_parameters read_parameter
    parameter_end note_before
read_loop c value =
    run_while (λ s. not s.returned) (read_element value) (length value + 3)
      (record { codings = c; at = 0; returned = false })

unfoldable pub read : Codings → Bytes → Codings
read c value = (read_loop c value).codings

unfoldable pub framing : Codings → Bool → Result RemoteProtocolError Framing
framing c response =
    if c.malformed || not c.any_coding
    then err (remote "invalid Transfer-Encoding field" (some 400))
    else if response && not c.last_chunked
    then ok close_delimited
    else if not c.last_chunked || c.chunked_before_last
    then err (remote "chunked must be the final transfer coding" (some 400))
    else if c.other_before_last && not response
    then err (remote "only Transfer-Encoding: chunked is supported" (some 501))
    else ok chunked
