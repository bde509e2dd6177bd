-- ===== src/Wire/Fields/Presence.antt =====
-- crates/h11r/src/wire/fields.rs: the one pass over a section sees every framing field.
use h11r.Prelude.{
  ℕ, ◌+◌, ◌≡◌, refl, arith, Bool, true, false, not, ◌||◌, List, [], ◌∷◌, Bytes, codes, length,
  is_empty,
}
use h11r.Headers.{Headers, Field, iter, get_all, keep_named}
use h11r.Wire.Syntax.{eq_ignore_ascii_case}
use h11r.Wire.Lists.{has_field, has_framing_fields}
use h11r.Wire.Elements.{elements}
use h11r.Wire.Elements.Bounds.{elements-ne}
use h11r.Wire.Fields.{
  Fields, no_fields, note_empty, read_te, found, read_host, read_expect, read_upgrade, read_options,
  read_connection, read_option, read_length, read_lengths, read_codings, scan_field, scan_from,
  scan, has_framing,
}

pub length_of_eq : (a b : Bytes) → eq_ignore_ascii_case a b ≡ true → length a ≡ length b
unfolding eq_ignore_ascii_case
length_of_eq [] [] h = refl
length_of_eq [] (y ∷ ys) h = cc
length_of_eq (x ∷ xs) [] h = cc
length_of_eq (x ∷ xs) (y ∷ ys) h = ground (arith, length_of_eq xs ys)

pub options_keep :
    (f : Fields) (options : List Bytes)
    → ((read_options f options).codings ≡ f.codings) × ((read_options f options).length ≡ f.length)
unfolding read_options read_option
options_keep f [] = (refl, refl)
options_keep f (option ∷ rest) = options_keep (read_option f option) rest

lengths_keep : (f : Fields) (values : List Bytes) → (read_lengths f values).codings ≡ f.codings
unfolding read_lengths read_length
lengths_keep f [] = refl
lengths_keep f (value ∷ rest) = lengths_keep (read_length f value) rest

pub lengths_found :
    (f : Fields) (values : List Bytes)
    → found (read_lengths f values).length ≡ (found f.length || not (is_empty values))
unfolding read_lengths read_length
lengths_found f [] = ground arith
lengths_found f (value ∷ rest) = ground (arith, lengths_found (read_length f value) rest)

abbrev pub te_name : Bytes
te_name = codes "transfer-encoding"

abbrev pub cl_name : Bytes
cl_name = codes "content-length"

scan_field-codings :
    (f : Fields) (at : ℕ) (name value : Bytes)
    → found (scan_field f at (name, value)).codings
      ≡ (found f.codings || eq_ignore_ascii_case name te_name)
unfolding scan_field read_te read_host read_expect read_upgrade read_connection read_codings
    note_empty
scan_field-codings f at name value = ground (
  arith,
  length_of_eq name te_name,
  options_keep f (elements value false),
  lengths_keep f (elements value false),
)

scan_field-length :
    (f : Fields) (at : ℕ) (name value : Bytes)
    → found (scan_field f at (name, value)).length
      ≡ (found f.length || eq_ignore_ascii_case name cl_name)
unfolding scan_field read_te read_host read_expect read_upgrade read_connection read_codings
    note_empty
scan_field-length f at name value = ground (
  arith,
  length_of_eq name cl_name,
  options_keep f (elements value false),
  lengths_found f (elements value false),
  elements-ne value false,
)

abbrev names_any : Bytes → List Field → Bool
names_any wanted [] = false
names_any wanted ((name, _) ∷ rest) = eq_ignore_ascii_case name wanted || names_any wanted rest

scan_from-found :
    (f : Fields) (at : ℕ) (fields : List Field)
    → (found (scan_from f at fields).codings ≡ (found f.codings || names_any te_name fields))
      × (found (scan_from f at fields).length ≡ (found f.length || names_any cl_name fields))
unfolding scan_from
scan_from-found f at [] = ground arith
scan_from-found f at ((name, value) ∷ rest) = ground (
  arith,
  scan_field-codings f at name value,
  scan_field-length f at name value,
  scan_from-found (scan_field f at (name, value)) (at + 1) rest,
)

keep_named-any :
    (wanted : Bytes) (fields : List Field)
    → not (is_empty (keep_named wanted fields)) ≡ names_any wanted fields
keep_named-any wanted [] = refl
keep_named-any wanted ((name, value) ∷ rest) = ground (arith, keep_named-any wanted rest)

pub scan-found :
    (h : Headers)
    → (found (scan h).codings ≡ has_field h te_name) × (found (scan h).length ≡ has_field h cl_name)
scan-found h =
    unfold scan has_field get_all in
    (
      rw (keep_named-any te_name (iter h)) (scan_from-found no_fields 0 (iter h)).0,
      rw (keep_named-any cl_name (iter h)) (scan_from-found no_fields 0 (iter h)).1,
    )

-- The one pass over a section notes framing fields exactly when a lookup by name finds a
-- Transfer-Encoding or a Content-Length field, whatever the case of the names.
pub scan-has_framing : (h : Headers) → has_framing (scan h) ≡ has_framing_fields h
unfolding has_framing has_framing_fields
scan-has_framing h = ground (arith, scan-found h)
