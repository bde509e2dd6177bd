-- ===== src/Tests/Messages.antt =====
-- crates/h11r/src/headers.rs, lib.rs and wire/head.rs at concrete sections and messages.
use h11r.Prelude.{◌+◌, ◌≡◌, arith, [], ◌∷◌, ◌++◌, Bytes, codes, length, all, true, not, Bool}
use h11r.Headers
use h11r.Headers.{
  Range, range, Field, Headers, field_valid, push, retain, extend, iter, iter_from, is_valid,
}
use h11r.Headers.Entries.{IsWellFormed, new-IsWellFormed, iter-extend}
use h11r.Headers.Built.{empty, pushed, retained, extended, Built-is_valid}
use h11r.Wire.Syntax.{eq_ignore_ascii_case}
use h11r.Method.{named}
use h11r.Events.{Request}
use h11r.Wire.Fields.{http11}
use h11r.Wire.Head.{head_len, serialize_request, Slices, copy_headers}
use h11r.Wire.Head.Lengths.{length-serialize_request}
use h11r.Wire.Head.Copies.{unfolded, copy_headers-fields}

abbrev host : Field
host = (codes "Host", codes "a.example")

abbrev one_field : Headers
one_field = push Headers.new (codes "Host") (codes "a.example")

abbrev get : Request
get = record {
  method = named (codes "GET");
  target = codes "/";
  headers = one_field;
  http_version = http11;
}

abbrev not_te : Bytes → Bytes → Bool
not_te name value = not (eq_ignore_ascii_case name (codes "te"))

-- Valid fields, one that is not, and one that a removal takes out.
abbrev three_fields : Headers
three_fields =
    retain
      (push (extend one_field ((codes "TE", codes "trailers") ∷ [])) (codes "bad name") (codes "b"))
      not_te

Built-is_valid_example : is_valid three_fields ≡ all field_valid (iter three_fields)
Built-is_valid_example = Built-is_valid (
    retained not_te (
      pushed (codes "bad name") (codes "b") (
        extended ((codes "TE", codes "trailers") ∷ [])
          (pushed (codes "Host") (codes "a.example") empty))))

iter-extend_example :
    (iter (extend Headers.new (host ∷ host ∷ [])) ≡ iter Headers.new ++ host ∷ host ∷ [])
    × IsWellFormed (extend Headers.new (host ∷ host ∷ []))
iter-extend_example = iter-extend Headers.new (host ∷ host ∷ []) new-IsWellFormed

length-serialize_request_example :
    length (serialize_request get 0)
    ≡ head_len (length get.method.as_bytes + length get.target + 12) get.headers
length-serialize_request_example = length-serialize_request get 0

abbrev section : Bytes
section = codes "A: b" ++ b'\r' ∷ b'\n' ∷ codes " c"

abbrev slices : Slices
slices = (range 0 1, range 3 8) ∷ []

copy_headers-fields_example : iter (copy_headers section slices true) ≡ unfolded section slices
copy_headers-fields_example =
    copy_headers-fields section slices
      (((omega arith, omega arith), (omega arith, omega arith)), tt)
      ((omega arith, omega arith), tt)
