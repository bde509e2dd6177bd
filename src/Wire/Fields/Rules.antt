-- ===== src/Wire/Fields/Rules.antt =====
-- crates/h11r/src/wire/fields.rs: the body length that a received or sent section declares.
use h11r.Prelude.{
  ℕ, ◌+◌, ◌≡◌, ap, sym, ◌∙◌, ◌⊎◌, arith, inl, inr, Bool, true, false, Option, none, some, List, [],
  ◌∷◌, ◌++◌, Bytes, Bool-cases, if◌then◌else◌, Result, ok, err,
}
use Prim.Native.String.{String}
use h11r.Headers.{Headers, Field, iter, get_all, keep_named}
use h11r.Wire.Buffer.{fixed, close_delimited}
use h11r.Wire.Errors.{remote}
use h11r.Wire.Number.{parse_number}
use h11r.Wire.Syntax.{eq_ignore_ascii_case}
use h11r.Wire.Lists.{has_field, all_elements}
use h11r.Wire.Elements.{elements}
use h11r.Wire.Elements.Bounds.{elements-ne}
use h11r.Wire.Fields.{
  Version, Fields, no_fields, note_empty, read_te, found, read_host, read_expect, read_upgrade,
  join_length, read_connection, read_length, read_lengths, read_codings, scan_field, scan_from,
  scan, framing,
}
use h11r.Wire.Fields.Presence.{
  scan-found, options_keep, lengths_found, length_of_eq, te_name, cl_name,
}

-- `framing` refuses a section with both a Transfer-Encoding and a Content-Length field with status 400,
-- in every version and for requests and responses, whatever the values are.
pub framing_both :
    (h : Headers) (version : Version) (response : Bool)
    → has_field h te_name ≡ true
    → has_field h cl_name ≡ true
    → framing (scan h) version response
      ≡ err (remote "Transfer-Encoding and Content-Length cannot be combined" (some 400))
unfolding framing
framing_both h version response t c = ground (arith, scan-found h)

abbrev pub AllParse : ℕ → List Bytes → Type 0
AllParse n [] = Unit
AllParse n (value ∷ rest) = (parse_number value 10 ≡ some n) × AllParse n rest

AllParse-append :
    (n : ℕ) (xs ys : List Bytes) → AllParse n xs → AllParse n ys → AllParse n (xs ++ ys)
AllParse-append n [] ys h k = k
AllParse-append n (x ∷ xs) ys h k = (h.0, AllParse-append n xs ys h.1 k)

-- The length noted so far agrees with `n`.
abbrev Agrees : ℕ → Option (Result String ℕ) → Type 0
Agrees n o = (o ≡ none) ⊎ (o ≡ some (ok n))

join-Agrees :
    (n : ℕ) (o : Option (Result String ℕ)) (parsed : Option ℕ)
    → join_length o parsed ≡ ok n
    → Agrees n o × (parsed ≡ some n)
unfolding join_length
join-Agrees n o parsed e = ground arith

lengths_agree :
    (n : ℕ) (f : Fields) (values : List Bytes)
    → (read_lengths f values).length ≡ some (ok n)
    → Agrees n f.length × AllParse n values
unfolding read_lengths read_length
lengths_agree n f [] e = (inr e, tt)
lengths_agree n f (value ∷ rest) e =
    let (later, parses) = lengths_agree n (read_length f value) rest e in
    let (before, here) =
      join-Agrees n f.length (parse_number value 10)
        (elim later [ inl none_noted ↦ cc | inr noted ↦ cc ]) in
    (before, (here, parses))

scan_field-length_of_cl :
    (f : Fields) (at : ℕ) (name value : Bytes)
    → eq_ignore_ascii_case name cl_name ≡ true
    → scan_field f at (name, value) ≡ read_lengths f (elements value false)
unfolding scan_field
scan_field-length_of_cl f at name value e = ground (arith, length_of_eq name cl_name)

scan_field-length_kept :
    (f : Fields) (at : ℕ) (name value : Bytes)
    → eq_ignore_ascii_case name cl_name ≡ false
    → (scan_field f at (name, value)).length ≡ f.length
unfolding scan_field read_te read_host read_expect read_upgrade read_connection read_codings
    note_empty
scan_field-length_kept f at name value e =
    ground (arith, length_of_eq name cl_name, options_keep f (elements value false))

scan_from-Agrees :
    (n : ℕ) (f : Fields) (at : ℕ) (fields : List Field)
    → (scan_from f at fields).length ≡ some (ok n)
    → Agrees n f.length × AllParse n (all_elements (keep_named cl_name fields))
unfolding scan_from
scan_from-Agrees n f at [] e = (inr e, tt)
scan_from-Agrees n f at ((name, value) ∷ rest) e =
    let (later, parses) = scan_from-Agrees n (scan_field f at (name, value)) (at + 1) rest e in
    elim (Bool-cases (eq_ignore_ascii_case name cl_name)) [
      | inl here ↦
          let own : Agrees n f.length × AllParse n (elements value false) =
            own_lengths (rw (scan_field-length_of_cl f at name value here) at later) in
          (own.0, rw here (AllParse-append n (elements value false) _ own.1 parses))
      | inr other ↦ (rw (scan_field-length_kept f at name value other) at later, rw other parses)
    ]
  where
    own_lengths :
        Agrees n (read_lengths f (elements value false)).length
        → Agrees n f.length × AllParse n (elements value false)
    own_lengths (inl none_noted) =
        let impossible : ⊥ =
          ground (arith, lengths_found f (elements value false), elements-ne value false) in
        absurd impossible
    own_lengths (inr noted) = lengths_agree n f (elements value false) noted

framing_of_fixed :
    (f : Fields) (version : Version) (response : Bool) (n : ℕ)
    → found f.length ≡ true
    → framing f version response ≡ ok (fixed n)
    → (f.codings ≡ none) × (f.length ≡ some (ok n))
unfolding framing
framing_of_fixed f version response n h e = ground arith

-- If a section with a Content-Length field is framed by a length, then it has no Transfer-Encoding
-- field, and every element of every Content-Length field is a decimal number of just that value.
pub framing_fixed :
    (h : Headers) (version : Version) (response : Bool) (n : ℕ)
    → has_field h cl_name ≡ true
    → framing (scan h) version response ≡ ok (fixed n)
    → (has_field h te_name ≡ false) × AllParse n (all_elements (get_all h cl_name))
framing_fixed h version response n present e = (without_te, every_value)
  where
    read : ((scan h).codings ≡ none) × ((scan h).length ≡ some (ok n))
    read = framing_of_fixed (scan h) version response n ((scan-found h).1 ∙ present) e

    without_te : has_field h te_name ≡ false
    without_te = sym (scan-found h).0 ∙ ap found read.0

    every_value : AllParse n (all_elements (get_all h cl_name))
    every_value =
        unfold get_all in (scan_from-Agrees n no_fields 0 (iter h) (unfold scan in read.1)).1

-- By `framing`, a message with neither framing field has no content if it is a request, and lasts until
-- the connection closes if it is a response; its framing is never refused.
pub framing_undeclared :
    (h : Headers) (version : Version) (response : Bool)
    → has_field h te_name ≡ false
    → has_field h cl_name ≡ false
    → framing (scan h) version response ≡ ok (if response then close_delimited else fixed 0)
unfolding framing
framing_undeclared h version response t c = ground (arith, scan-found h)
