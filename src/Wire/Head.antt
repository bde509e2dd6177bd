-- ===== src/Wire/Head.antt =====
-- crates/h11r/src/wire/head.rs: parsed heads are copied, and heads are written.
pub mod Copies
pub mod Lengths
pub mod Whole
pub mod Ends
use h11r.Prelude.{
  ℕ, zero, suc, ◌+◌, ◌-◌, ◌*◌, ◌/◌, ◌%◌, max, Bool, true, false, not, ◌&&◌, ◌||◌, Option, none,
  some, List, [], ◌∷◌, ◌++◌, Bytes, codes, length, get_elem?, take, drop, any, ◌==◌, if◌then◌else◌,
}
use h11r.Headers.{Range, range, slice, Field, Headers, new, from_section, push, iter}
use h11r.Status.{StatusCode}
use h11r.Wire.Elements.{is_ows, byte_at}
use h11r.Wire.Syntax.{last_is}
use h11r.Wire.Fields.{Version, http10, http11}
use h11r.Events.{Request}

-- The minor version that the parser of heads found, if any.
unfoldable pub version : Option ℕ → Version
version none = http11
version (some minor) = if minor == 0 then http10 else http11

abbrev pub starts_ows : Bytes → Bool
starts_ows [] = false
starts_ows (b ∷ rest) = is_ows b

-- `data.windows(2).any(..)`
unfoldable pub has_fold : Bytes → Bool
has_fold [] = false
has_fold (b ∷ rest) = b == b'\n' && starts_ows rest || has_fold rest

abbrev pub pop_cr : Bytes → Bytes
pop_cr out = if last_is (λ b. b == b'\r') out then take (length out - 1) out else out

-- Whether the white space behind a fold is being skipped, and the bytes written.
abbrev pub fold_byte : Bool → Bytes → ℕ → Bytes → Bool × Bytes
fold_byte skipping out b rest =
    if skipping && is_ows b
    then (true, out)
    else if b == b'\n' && starts_ows rest
    then (true, pop_cr out ++ b' ' ∷ [])
    else (false, out ++ b ∷ [])

unfoldable pub fold_from : Bool → Bytes → Bytes → Bytes
fold_from skipping out [] = out
fold_from skipping out (b ∷ rest) =
    let next = fold_byte skipping out b rest in fold_from next.0 next.1 rest

unfoldable pub normalize_obs_fold : Bytes → Bytes
unfolding has_fold fold_from
normalize_obs_fold value = if has_fold value then fold_from false [] value else value

-- The parser returns every name and value as a slice of the section: a range of it.
abbrev pub Slices : Type 0
Slices = List (Range × Range)

abbrev pub shifted : ℕ → Range → Range
shifted start r = range (r.start - start) (r.end - start)

abbrev pub all_shifted : ℕ → Slices → Slices
all_shifted start [] = []
all_shifted start ((name, value) ∷ rest) =
    (shifted start name, shifted start value) ∷ all_shifted start rest

abbrev pub first_start : Slices → ℕ
first_start [] = 0
first_start ((name, value) ∷ _) = name.start

-- The greatest end of a value, from `end` up.
abbrev pub last_end : ℕ → Slices → ℕ
last_end end [] = end
last_end end ((name, value) ∷ rest) = last_end (max end value.end) rest

unfoldable pub copy_section : Bytes → Slices → Headers
unfolding from_section
copy_section section headers =
    let start = first_start headers in
    from_section (slice section (range start (last_end start headers))) (all_shifted start headers)

abbrev pub value_folded : Bytes → Slices → Bool
value_folded section [] = false
value_folded section ((name, value) ∷ rest) =
    any (λ b. b == b'\n') (slice section value) || value_folded section rest

unfoldable pub copy_folded : Headers → Bytes → Slices → Headers
unfolding push normalize_obs_fold
copy_folded copied section [] = copied
copy_folded copied section ((name, value) ∷ rest) =
    copy_folded (push copied (slice section name) (normalize_obs_fold (slice section value)))
      section rest

unfoldable pub copy_headers : Bytes → Slices → Bool → Headers
unfolding copy_section copy_folded new
copy_headers section headers unfold_values =
    if unfold_values && value_folded section headers
    then copy_folded new section headers
    else copy_section section headers

abbrev pub blank : Bytes → Bool
blank [] = true
blank (b ∷ rest) = (is_ows b || b == b'\r' || b == b'\n') && blank rest

unfoldable pub dropped_from : Bytes → ℕ → ℕ → Slices → Bool
dropped_from head end from [] = not (blank (slice head (range from end)))
dropped_from head end from ((name, value) ∷ rest) =
    let later = dropped_from head end value.end rest in
    not (blank (slice head (range from name.start))) || later

unfoldable pub dropped_lines : Bytes → Range → ℕ → Slices → Bool
unfolding dropped_from
dropped_lines head status_line end fields = dropped_from head end status_line.end fields

abbrev pub crlf : Bytes
crlf = b'\r' ∷ b'\n' ∷ []

abbrev pub version_wire : Version → Bytes
version_wire http10 = codes "1.0"
version_wire http11 = codes "1.1"

unfoldable pub write_field : Bytes → Field → Bytes
write_field out (name, value) = (((out ++ name) ++ codes ": ") ++ value) ++ crlf

unfoldable pub write_headers : Bytes → List Field → Bytes
unfolding write_field
write_headers out [] = out
write_headers out (f ∷ fields) = write_headers (write_field out f) fields

-- `if let Some(host) = request.headers.iter().nth(host_at)`
abbrev pub write_host : Bytes → Option Field → Bytes
unfolding write_field
write_host out none = out
write_host out (some host) = write_field out host

-- The other fields, from the one of index `at`.
unfoldable pub write_others : Bytes → ℕ → ℕ → List Field → Bytes
unfolding write_field
write_others out host_at at [] = out
write_others out host_at at (f ∷ fields) =
    let next = if at == host_at then out else write_field out f in
    write_others next host_at (at + 1) fields

unfoldable pub serialize_request : Request → ℕ → Bytes
unfolding iter write_others
serialize_request request host_at =
    let line =
      ((((request.method.as_bytes ++ b' ' ∷ []) ++ request.target) ++ codes " HTTP/")
        ++ version_wire request.http_version)
      ++ crlf in
    let fields = iter request.headers in
    write_others (write_host line (get_elem? fields host_at)) host_at 0 fields ++ crlf

unfoldable pub status_digits : ℕ → Bytes
status_digits status = (b'0' + status / 100) ∷ (b'0' + status / 10 % 10) ∷ (b'0' + status % 10) ∷ []

unfoldable pub serialize_response : Version → StatusCode → Bytes → Headers → Bytes
unfolding iter write_headers status_digits
serialize_response version status reason headers =
    let line =
      ((((codes "HTTP/" ++ version_wire version) ++ b' ' ∷ []) ++ status_digits status.as_u16)
        ++ b' ' ∷ [])
      ++ reason in
    write_headers (line ++ crlf) (iter headers) ++ crlf

abbrev pub field_lengths : List Field → ℕ
field_lengths [] = 0
field_lengths ((name, value) ∷ rest) = length name + length value + 4 + field_lengths rest

unfoldable pub head_len : ℕ → Headers → ℕ
unfolding iter
head_len start_line headers = start_line + field_lengths (iter headers) + 2
