-- ===== src/Headers.antt =====
-- crates/h11r/src/headers.rs: ordered fields over one shared buffer.
pub mod Entries
pub mod Built
use h11r.Prelude.{
  ℕ, ◌-◌, Bool, true, false, ◌&&◌, ◌||◌, List, [], ◌∷◌, ◌++◌, Bytes, length, take, drop, all,
  is_empty, if◌then◌else◌,
}
use h11r.Wire.Syntax.{valid_name, valid_value, eq_ignore_ascii_case}

pub record Range : Type 0 where
  pub start : ℕ
  pub end : ℕ

abbrev pub range : ℕ → ℕ → Range
range a b = record { start = a; end = b }

-- `&bytes[range]`, for a range within the bytes
abbrev pub slice : Bytes → Range → Bytes
slice bytes r = take (r.end - r.start) (drop r.start bytes)

abbrev pub Field : Type 0
Field = Bytes × Bytes

pub record Headers : Type 0 where
  pub bytes : Bytes
  pub fields : List (Range × Range)
  pub is_known_valid : Bool

unfoldable pub new : Headers
new = record { bytes = []; fields = []; is_known_valid = true }

unfoldable pub from_section : Bytes → List (Range × Range) → Headers
from_section section fields = record { bytes = section; fields = fields; is_known_valid = false }

abbrev pub field_valid : Field → Bool
field_valid (name, value) = valid_name name && valid_value value

unfoldable pub push : Headers → Bytes → Bytes → Headers
push h name value =
    let name_start = length h.bytes in
    let value_start = length (h.bytes ++ name) in
    let bytes = (h.bytes ++ name) ++ value in
    record {
      bytes = bytes;
      fields = h.fields ++ (range name_start value_start, range value_start (length bytes)) ∷ [];
      is_known_valid = h.is_known_valid && (valid_name name && valid_value value);
    }

unfoldable pub len : Headers → ℕ
len h = length h.fields

unfoldable pub no_fields : Headers → Bool
no_fields h = is_empty h.fields

unfoldable pub iter_from : Bytes → List (Range × Range) → List Field
iter_from bytes [] = []
iter_from bytes ((name, value) ∷ rest) =
    (slice bytes name, slice bytes value) ∷ iter_from bytes rest

unfoldable pub iter : Headers → List Field
unfolding iter_from
iter h = iter_from h.bytes h.fields

abbrev pub keep_named : Bytes → List Field → List Bytes
keep_named name [] = []
keep_named name ((field, value) ∷ rest) =
    let kept = keep_named name rest in
    if eq_ignore_ascii_case field name then value ∷ kept else kept

unfoldable pub get_all : Headers → Bytes → List Bytes
unfolding iter
get_all h name = keep_named name (iter h)

unfoldable pub is_valid : Headers → Bool
unfolding iter
is_valid h = h.is_known_valid || all field_valid (iter h)

retain_ranges : (Bytes → Bytes → Bool) → Bytes → List (Range × Range) → List (Range × Range)
retain_ranges keep bytes [] = []
retain_ranges keep bytes ((name, value) ∷ rest) =
    let kept = retain_ranges keep bytes rest in
    if keep (slice bytes name) (slice bytes value) then (name, value) ∷ kept else kept

unfoldable pub retain : Headers → (Bytes → Bytes → Bool) → Headers
unfolding retain_ranges
retain h keep = record h { fields = retain_ranges keep h.bytes h.fields }

-- `Extend`, `FromIterator` and `From` push in order.
unfoldable pub extend : Headers → List Field → Headers
unfolding push
extend h [] = h
extend h ((name, value) ∷ rest) = extend (push h name value) rest
