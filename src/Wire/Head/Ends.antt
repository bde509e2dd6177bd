-- ===== src/Wire/Head/Ends.antt =====
-- crates/h11r/src/wire/head.rs: a written head is over, for a receiver, where its last line is.
use h11r.Prelude.{
  ℕ, zero, suc, ◌+◌, ◌≡◌, refl, ap, ◌∙◌, arith, inl, inr, Bool, true, not, ◌&&◌, some, List, [],
  ◌∷◌, ◌++◌, append_assoc, Bytes, codes, length, all, is_empty, get_elem?, ◌==◌, Bool-cases,
}
use h11r.Headers.{Field, Headers, field_valid, iter}
use h11r.Method.{is_token_byte}
use h11r.Status.{StatusCode}
use h11r.Events.{Request}
use h11r.Wire.Syntax.{is_line_value_byte, valid_name, valid_value}
use h11r.Wire.Fields.{Version, http10, http11}
use h11r.Wire.Section.{fresh, poll}
use h11r.Wire.Section.Lines.{poll-section_end}
use h11r.Wire.Head.{
  crlf, version_wire, write_field, write_headers, write_host, write_others, serialize_request,
  serialize_response, status_digits,
}
use h11r.Wire.Head.Whole.{
  no_newline, all-weaken, no_newline-append, refuses_newline, Whole, start-Whole, line-Whole,
  append-Whole, Whole-ends,
}

pub token-no_newline : (bytes : Bytes) → all is_token_byte bytes ≡ true → no_newline bytes ≡ true
unfolding is_token_byte
token-no_newline bytes h =
    all-weaken is_token_byte (λ b. not (b == b'\n')) bytes (refuses_newline is_token_byte refl) h

pub line-no_newline :
    (bytes : Bytes) → all is_line_value_byte bytes ≡ true → no_newline bytes ≡ true
unfolding is_line_value_byte
line-no_newline bytes h =
    all-weaken is_line_value_byte (λ b. not (b == b'\n')) bytes
      (refuses_newline is_line_value_byte refl) h

pub valid_value-no_newline : (value : Bytes) → valid_value value ≡ true → no_newline value ≡ true
unfolding valid_value
valid_value-no_newline [] h = refl
valid_value-no_newline (v ∷ vs) h = line-no_newline (v ∷ vs) (ground (arith, h))

write_field-appends :
    (out name value : Bytes)
    → write_field out (name, value) ≡ out ++ ((name ++ (codes ": " ++ value)) ++ crlf)
unfolding write_field
write_field-appends out name value =
    ap (λ l. l ++ crlf)
      (append_assoc (out ++ name) (codes ": ") value ∙ append_assoc out name (codes ": " ++ value))
    ∙ append_assoc out (name ++ (codes ": " ++ value)) crlf

-- A field that stays on its line.
abbrev pub field_on_line : Field → Bool
field_on_line (name, value) = not (is_empty name) && (no_newline name && no_newline value)

pub field_valid-on_line : (f : Field) → field_valid f ≡ true → field_on_line f ≡ true
unfolding valid_name
field_valid-on_line (name, value) h =
    let clean = token-no_newline name (ground (arith, h)) in
    let clean_value = valid_value-no_newline value (ground (arith, h)) in
    ground (arith, h, clean, clean_value)

pub all-on_line :
    (fields : List Field) → all field_valid fields ≡ true → all field_on_line fields ≡ true
all-on_line [] h = refl
all-on_line (f ∷ fields) h =
    ground
      (arith, field_valid-on_line f (ground (arith, h)), all-on_line fields (ground (arith, h)))

write_field-Whole :
    (out : Bytes) (f : Field) → Whole out → field_on_line f ≡ true → Whole (write_field out f)
write_field-Whole out ([], value) w h = absurd (ground (arith, h))
write_field-Whole out (n ∷ ns, value) w h =
    let name : no_newline (n ∷ ns) ≡ true = ground (arith, h) in
    let text : no_newline (codes ": " ++ value) ≡ true =
      no_newline-append (codes ": ") value refl (ground (arith, h)) in
    rw (write_field-appends out (n ∷ ns) value) (
      append-Whole out n (ns ++ (codes ": " ++ value)) w
        (no_newline-append (n ∷ ns) (codes ": " ++ value) name text))

write_headers-Whole :
    (out : Bytes) (fields : List Field)
    → Whole out
    → all field_on_line fields ≡ true
    → Whole (write_headers out fields)
unfolding write_headers
write_headers-Whole out [] w h = w
write_headers-Whole out (f ∷ fields) w h =
    write_headers-Whole (write_field out f) fields (write_field-Whole out f w (ground (arith, h)))
      (ground (arith, h))

write_host-Whole :
    (out : Bytes) (fields : List Field) (i : ℕ)
    → Whole out
    → all field_on_line fields ≡ true
    → Whole (write_host out (get_elem? fields i))
unfolding write_host
write_host-Whole out [] i w h = w
write_host-Whole out (f ∷ fields) zero w h = write_field-Whole out f w (ground (arith, h))
write_host-Whole out (f ∷ fields) (suc i) w h = write_host-Whole out fields i w (ground (arith, h))

write_others-Whole :
    (out : Bytes) (host_at at : ℕ) (fields : List Field)
    → Whole out
    → all field_on_line fields ≡ true
    → Whole (write_others out host_at at fields)
unfolding write_others
write_others-Whole out host_at at [] w h = w
write_others-Whole out host_at at (f ∷ fields) w h = elim (Bool-cases (at == host_at)) [
  | inl is_host ↦ rw is_host (write_others-Whole out host_at (at + 1) fields w (ground (arith, h)))
  | inr other ↦ rw other (
      write_others-Whole (write_field out f) host_at (at + 1) fields
        (write_field-Whole out f w (ground (arith, h))) (ground (arith, h)))
]

version-no_newline : (version : Version) → no_newline (version_wire version) ≡ true
version-no_newline http10 = refl
version-no_newline http11 = refl

digits-no_newline : (status : ℕ) → no_newline (status_digits status) ≡ true
unfolding status_digits
digits-no_newline status = ground arith

abbrev request_line : Bytes → Bytes → Version → Bytes
request_line method target version =
    (((method ++ b' ' ∷ []) ++ target) ++ codes " HTTP/") ++ version_wire version

request_line-Whole :
    (method target : Bytes) (version : Version)
    → valid_name method ≡ true
    → no_newline target ≡ true
    → Whole (request_line method target version ++ crlf)
unfolding valid_name
request_line-Whole [] target version h on_line = absurd (ground (arith, h))
request_line-Whole (m ∷ ms) target version h on_line =
    start-Whole m ((((ms ++ b' ' ∷ []) ++ target) ++ codes " HTTP/") ++ version_wire version) (
      no_newline-append ((((m ∷ ms) ++ b' ' ∷ []) ++ target) ++ codes " HTTP/")
        (version_wire version)
        (no_newline-append (((m ∷ ms) ++ b' ' ∷ []) ++ target) (codes " HTTP/")
          (no_newline-append ((m ∷ ms) ++ b' ' ∷ []) target
            (no_newline-append (m ∷ ms) (b' ' ∷ []) (token-no_newline (m ∷ ms) (ground (arith, h)))
              refl)
            on_line)
          refl)
        (version-no_newline version))

-- A request head with a token for its method, a target and fields that stay on their lines ends, for a receiver
-- that reads it with whatever follows, at its own end.
pub serialize_request_end :
    (request : Request) (host_at : ℕ) (more : Bytes)
    → valid_name request.method.as_bytes ≡ true
    → no_newline request.target ≡ true
    → all field_on_line (iter request.headers) ≡ true
    → (poll fresh (serialize_request request host_at ++ more) true).1
      ≡ some (length (serialize_request request host_at))
unfolding serialize_request
serialize_request_end request host_at more is_method on_line valid =
    poll-section_end (serialize_request request host_at ++ more) true
    ∙ Whole-ends
        (write_others (write_host line (get_elem? (iter request.headers) host_at)) host_at 0
          (iter request.headers))
        more
        (write_others-Whole _ host_at 0 (iter request.headers)
          (write_host-Whole line (iter request.headers) host_at
            (request_line-Whole request.method.as_bytes request.target request.http_version
              is_method on_line)
            valid)
          valid)
  where
    line : Bytes
    line = request_line request.method.as_bytes request.target request.http_version ++ crlf

-- A response head with a reason that is valid and fields that stay on their lines ends, for a receiver that reads it with whatever
-- follows, at its own end.
pub serialize_response_end :
    (version : Version) (status : StatusCode) (reason : Bytes) (headers : Headers) (more : Bytes)
    → all is_line_value_byte reason ≡ true
    → all field_on_line (iter headers) ≡ true
    → (poll fresh (serialize_response version status reason headers ++ more) true).1
      ≡ some (length (serialize_response version status reason headers))
unfolding serialize_response
serialize_response_end version status reason headers more on_line valid =
    poll-section_end (serialize_response version status reason headers ++ more) true
    ∙ Whole-ends (write_headers (line ++ crlf) (iter headers)) more
        (write_headers-Whole (line ++ crlf) (iter headers) line_whole valid)
  where
    start : Bytes
    start =
        (((codes "HTTP/" ++ version_wire version) ++ b' ' ∷ []) ++ status_digits status.as_u16)
        ++ b' ' ∷ []

    line : Bytes
    line = start ++ reason

    clean : no_newline line ≡ true
    clean =
        no_newline-append start reason
          (no_newline-append
            (((codes "HTTP/" ++ version_wire version) ++ b' ' ∷ []) ++ status_digits status.as_u16)
            (b' ' ∷ [])
            (no_newline-append ((codes "HTTP/" ++ version_wire version) ++ b' ' ∷ [])
              (status_digits status.as_u16)
              (no_newline-append (codes "HTTP/" ++ version_wire version) (b' ' ∷ [])
                (no_newline-append (codes "HTTP/") (version_wire version) refl
                  (version-no_newline version))
                refl)
              (digits-no_newline status.as_u16))
            refl)
          (line-no_newline reason on_line)

    line_whole : Whole (line ++ crlf)
    line_whole = line-Whole line refl clean
