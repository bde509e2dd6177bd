-- ===== src/Wire/Lists.antt =====
-- crates/h11r/src/wire/fields.rs: list-valued fields of a section, and what may be sent.
pub mod Options
use h11r.Prelude.{
  Bool, true, false, not, ◌&&◌, ◌||◌, Option, none, some, List, [], ◌∷◌, ◌++◌, Bytes, codes, all,
  any, is_empty, ◌==◌, if◌then◌else◌, bytes_eq, Result, ok, err,
}
use h11r.Headers.{Headers, Field, iter, get_all, retain, push, is_valid}
use h11r.Wire.Syntax.{eq_ignore_ascii_case, valid_name, is_line_value_byte}
use h11r.Wire.Elements.{elements}
use h11r.Wire.Errors.{LocalProtocolError, local}

unfoldable pub has_field : Headers → Bytes → Bool
has_field h name = not (is_empty (get_all h name))

unfoldable pub has_framing_fields : Headers → Bool
unfolding has_field
has_framing_fields h =
    has_field h (codes "transfer-encoding") || has_field h (codes "content-length")

-- `flat_map(|value| elements(value, false))`
abbrev pub all_elements : List Bytes → List Bytes
all_elements [] = []
all_elements (value ∷ rest) = elements value false ++ all_elements rest

unfoldable pub has_token : Headers → Bytes → Bytes → Bool
has_token h name token =
    any (λ value. eq_ignore_ascii_case value token) (all_elements (get_all h name))

-- `split(|byte| *byte == b'/')`
split_slash : Bytes → Bytes → List Bytes
split_slash current [] = current ∷ []
split_slash current (c ∷ cs) = elim (c == b'/') [
  | true ↦ current ∷ split_slash [] cs
  | false ↦ split_slash (current ++ c ∷ []) cs
]

name_and_version : List Bytes → Bool
name_and_version [] = false
name_and_version (name ∷ []) = valid_name name
name_and_version (name ∷ (version ∷ [])) = valid_name name && valid_name version
name_and_version (name ∷ (version ∷ (more ∷ rest))) = false

unfoldable pub valid_protocol : Bytes → Bool
unfolding split_slash name_and_version
valid_protocol value = name_and_version (split_slash [] value)

-- `filter` the non-empty values, `map` and `collect` into an `Option`
collect_protocols : List Bytes → Option (List Bytes)
collect_protocols [] = some []
collect_protocols (value ∷ rest) =
    let later = collect_protocols rest in
    if is_empty value
    then later
    else if valid_protocol value
    then elim later [ none ↦ none | some values ↦ some (value ∷ values) ]
    else none

unless_empty_field : Bool → Option (List Bytes) → Option (List Bytes)
unless_empty_field present none = none
unless_empty_field present (some protocols) =
    if not present || not (is_empty protocols) then some protocols else none

unfoldable pub upgrade_protocols : Headers → Option (List Bytes)
unfolding collect_protocols unless_empty_field
upgrade_protocols h =
    unless_empty_field (has_field h (codes "upgrade"))
      (collect_protocols (all_elements (get_all h (codes "upgrade"))))

-- `splitn(2, |byte| *byte == b'/')`: the part before the first slash, and the part behind it.
split_once : Bytes → Bytes → Bytes × Option Bytes
split_once current [] = (current, none)
split_once current (c ∷ cs) = elim (c == b'/') [
  | true ↦ (current, some cs)
  | false ↦ split_once (current ++ c ∷ []) cs
]

abbrev same_version : Option Bytes → Option Bytes → Bool
same_version none none = true
same_version (some a) (some b) = bytes_eq a b
same_version _ _ = false

unfoldable pub protocol_matches : Bytes → Bytes → Bool
unfolding split_once
protocol_matches left right =
    let (left_name, left_version) = split_once [] left in
    let (right_name, right_version) = split_once [] right in
    eq_ignore_ascii_case left_name right_name && same_version left_version right_version

abbrev is_persistence_option : Bytes → Bool
is_persistence_option value =
    eq_ignore_ascii_case value (codes "close") || eq_ignore_ascii_case value (codes "keep-alive")

other_options : List Bytes → List Bytes
other_options [] = []
other_options (value ∷ rest) =
    let later = other_options rest in
    if not (is_empty value) && not (is_persistence_option value) then value ∷ later else later

-- `options.join(", ")`
join_options : List Bytes → Bytes
join_options [] = []
join_options (value ∷ []) = value
join_options (value ∷ (next ∷ rest)) = value ++ (codes ", " ++ join_options (next ∷ rest))

unfoldable pub set_connection_option : Headers → Bytes → Headers
unfolding other_options join_options
set_connection_option h option =
    let options = other_options (all_elements (get_all h (codes "connection"))) ++ option ∷ [] in
    push (retain h (λ name _. not (eq_ignore_ascii_case name (codes "connection"))))
      (codes "Connection") (join_options options)

unfoldable pub validate_headers : Headers → Result LocalProtocolError (Unit {0})
validate_headers h = if not (is_valid h) then err (local "invalid HTTP header field") else ok tt

unfoldable pub validate_reason : Bytes → Result LocalProtocolError (Unit {0})
validate_reason reason =
    if all is_line_value_byte reason then ok tt else err (local "invalid HTTP reason phrase")

abbrev pub forbidden_trailers : List Bytes
forbidden_trailers =
    codes "content-length"
    ∷ codes "transfer-encoding"
    ∷ codes "host"
    ∷ codes "connection"
    ∷ codes "trailer"
    ∷ codes "upgrade"
    ∷ codes "expect"
    ∷ codes "te"
    ∷ []

abbrev pub names_forbidden : Field → Bool
names_forbidden (name, _) = any (eq_ignore_ascii_case name) forbidden_trailers

reject_forbidden : Headers → Result LocalProtocolError (Unit {0})
reject_forbidden h =
    if any names_forbidden (iter h)
    then err (local "field is not permitted in an HTTP trailer")
    else ok tt

unfoldable pub validate_trailers : Headers → Result LocalProtocolError (Unit {0})
unfolding validate_headers reject_forbidden
validate_trailers h = elim (validate_headers h) [ ok _ ↦ reject_forbidden h | err e ↦ err e ]
