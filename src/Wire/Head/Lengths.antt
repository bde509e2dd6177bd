-- ===== src/Wire/Head/Lengths.antt =====
-- crates/h11r/src/wire/head.rs: the capacity reserved for a head is its length.
use h11r.Prelude.{
  ℕ, zero, suc, ◌+◌, ◌<◌, ◌≡◌, refl, sym, subst, arith, true, false, Option, none, some, List, [],
  ◌∷◌, ◌++◌, Bytes, codes, length, get_elem?, ◌==◌, length-append,
}
use h11r.Headers.{Field, Headers, iter}
use h11r.Status.{StatusCode}
use h11r.Wire.Fields.{Version, http10, http11}
use h11r.Events.{Request}
use h11r.Wire.Head.{
  crlf, version_wire, write_field, write_headers, write_host, write_others, serialize_request,
  serialize_response, field_lengths, head_len, status_digits,
}

length-write_field :
    (out : Bytes) (f : Field)
    → length (write_field out f) ≡ length out + (length f.0 + length f.1 + 4)
unfolding write_field
length-write_field out (name, value) = omega (
  arith,
  length-append (((out ++ name) ++ codes ": ") ++ value) crlf,
  length-append ((out ++ name) ++ codes ": ") value,
  length-append (out ++ name) (codes ": "),
  length-append out name,
)

length-write_headers :
    (out : Bytes) (fields : List Field)
    → length (write_headers out fields) ≡ length out + field_lengths fields
unfolding write_headers
length-write_headers out [] = omega arith
length-write_headers out ((name, value) ∷ fields) = omega (
  arith,
  length-write_headers (write_field out (name, value)) fields,
  length-write_field out (name, value),
)

-- Past the host nothing is left out.
others_after :
    (out : Bytes) (host_at at : ℕ) (fields : List Field)
    → host_at < at
    → length (write_others out host_at at fields) ≡ length out + field_lengths fields
unfolding write_others
others_after out host_at at [] past = omega arith
others_after out host_at at ((name, value) ∷ fields) past =
    let no : (at == host_at) ≡ false = ground arith in
    rw no (
      omega (
        arith,
        others_after (write_field out (name, value)) host_at (at + 1) fields (omega arith),
        length-write_field out (name, value),
      ))

host_length : Option Field → ℕ
host_length none = 0
host_length (some (name, value)) = length name + length value + 4

-- The host is left out of the others once, at its index.
others_length :
    (out : Bytes) (ahead at : ℕ) (fields : List Field)
    → length (write_others out (at + ahead) at fields) + host_length (get_elem? fields ahead)
      ≡ length out + field_lengths fields
unfolding write_others host_length
others_length out ahead at [] = omega arith
others_length out zero at ((name, value) ∷ fields) =
    let here : (at == at + 0) ≡ true = ground arith in
    let e : at + 0 ≡ at = omega arith in
    rw here (omega (arith, others_after out (at + 0) (at + 1) fields (omega arith)))
others_length out (suc ahead) at ((name, value) ∷ fields) =
    let no : (at == at + suc ahead) ≡ false = ground arith in
    let e : at + suc ahead ≡ (at + 1) + ahead = omega arith in
    rw no (
      rw e (
        omega (
          arith,
          others_length (write_field out (name, value)) ahead (at + 1) fields,
          length-write_field out (name, value),
        )))

length-write_host :
    (out : Bytes) (host : Option Field)
    → length (write_host out host) ≡ length out + host_length host
unfolding host_length write_host
length-write_host out none = omega arith
length-write_host out (some (name, value)) = length-write_field out (name, value)

all_others :
    (out : Bytes) (host_at : ℕ) (fields : List Field)
    → length (write_others out host_at 0 fields) + host_length (get_elem? fields host_at)
      ≡ length out + field_lengths fields
all_others out host_at fields =
    let e : host_at ≡ 0 + host_at = omega arith in
    subst
      (λ n.
        length (write_others out n 0 fields) + host_length (get_elem? fields host_at)
        ≡ length out + field_lengths fields)
      (sym e) (others_length out host_at 0 fields)

length-version_wire : (v : Version) → length (version_wire v) ≡ 3
length-version_wire http10 = refl
length-version_wire http11 = refl

-- The bytes reserved for a request are as many as are written, whichever index its host field is
-- said to have.
pub length-serialize_request :
    (request : Request) (host_at : ℕ)
    → length (serialize_request request host_at)
      ≡ head_len (length request.method.as_bytes + length request.target + 12) request.headers
unfolding serialize_request head_len
length-serialize_request request host_at = omega (
  arith,
  length-append (write_others (write_host line host) host_at 0 fields) crlf,
  all_others (write_host line host) host_at fields,
  length-write_host line host,
  line_length,
)
  where
    start : Bytes
    start = ((request.method.as_bytes ++ b' ' ∷ []) ++ request.target) ++ codes " HTTP/"

    line : Bytes
    line = (start ++ version_wire request.http_version) ++ crlf

    fields : List Field
    fields = iter request.headers

    host : Option Field
    host = get_elem? fields host_at

    line_length : length line ≡ length request.method.as_bytes + length request.target + 12
    line_length = omega (
      arith,
      length-append (start ++ version_wire request.http_version) crlf,
      length-append start (version_wire request.http_version),
      length-append ((request.method.as_bytes ++ b' ' ∷ []) ++ request.target) (codes " HTTP/"),
      length-append (request.method.as_bytes ++ b' ' ∷ []) request.target,
      length-append request.method.as_bytes (b' ' ∷ []),
      length-version_wire request.http_version,
    )

-- The bytes reserved for a response are as many as are written.
pub length-serialize_response :
    (version : Version) (status : StatusCode) (reason : Bytes) (headers : Headers)
    → length (serialize_response version status reason headers)
      ≡ head_len (15 + length reason) headers
unfolding serialize_response head_len status_digits
length-serialize_response version status reason headers = omega (
  arith,
  length-append (write_headers (line ++ crlf) fields) crlf,
  length-write_headers (line ++ crlf) fields,
  length-append line crlf,
  line_length,
)
  where
    fields : List Field
    fields = iter headers

    numbered : Bytes
    numbered = ((codes "HTTP/" ++ version_wire version) ++ b' ' ∷ []) ++ status_digits status.as_u16

    line : Bytes
    line = (numbered ++ b' ' ∷ []) ++ reason

    line_length : length line ≡ 13 + length reason
    line_length = omega (
      arith,
      length-append (numbered ++ b' ' ∷ []) reason,
      length-append numbered (b' ' ∷ []),
      length-append ((codes "HTTP/" ++ version_wire version) ++ b' ' ∷ [])
          (status_digits status.as_u16),
      length-append (codes "HTTP/" ++ version_wire version) (b' ' ∷ []),
      length-append (codes "HTTP/") (version_wire version),
      length-version_wire version,
    )
