-- ===== src/Wire/Fields.antt =====
-- crates/h11r/src/wire/fields.rs: `Fields`, the framing and connection fields read in one pass.
pub mod Presence
pub mod Rules
use Prim.Native.String.{String}
use h11r.Prelude.{
  ℕ, zero, suc, ◌+◌, ltb, Bool, true, false, not, ◌&&◌, ◌||◌, Option, none, some, List, [], ◌∷◌,
  Bytes, codes, length, any, is_empty, ◌==◌, if◌then◌else◌, Result, ok, err,
}
use h11r.Headers.{Headers, Field, iter}
use h11r.Wire.Buffer.{Framing, fixed, chunked, close_delimited}
use h11r.Wire.Syntax.{eq_ignore_ascii_case}
use h11r.Wire.Elements.{elements, token_name, trim_ows}
use h11r.Wire.Number.{parse_number}
use h11r.Wire.Codings
use h11r.Wire.Codings.{Codings, no_codings}
use h11r.Wire.Target.{authority_port}
use h11r.Wire.Errors.{LocalProtocolError, local, RemoteProtocolError, remote}

pub data Version : Type 0 where
  http10 http11 : Version

abbrev pub is_http11 : Version → Bool
is_http11 http10 = false
is_http11 http11 = true

pub record Fields : Type 0 where
  pub hosts : ℕ
  pub host_valid : Bool
  pub host_at : ℕ
  pub codings : Option Codings
  pub length : Option (Result String ℕ)
  pub lengths : ℕ
  pub close : Bool
  pub keep_alive : Bool
  pub upgrade : Bool
  pub connection_te : Bool
  pub expect_continue : Bool
  pub upgrade_field : Bool
  pub te_field : Bool
  pub te_chunked : Bool
  pub empty_elements : Bool

abbrev pub no_fields : Fields
no_fields = record {
  hosts = 0;
  host_valid = false;
  host_at = 0;
  codings = none;
  length = none;
  lengths = 0;
  close = false;
  keep_alive = false;
  upgrade = false;
  connection_te = false;
  expect_continue = false;
  upgrade_field = false;
  te_field = false;
  te_chunked = false;
  empty_elements = false;
}

note_empty : Fields → Bytes → Bool → Fields
note_empty f value quoting = record f {
  empty_elements =
      f.empty_elements
      || (not (is_empty (trim_ows value)) && any is_empty (elements value quoting));
}

read_te : Fields → Bytes → Fields
read_te f value =
    note_empty
      (record f {
        te_field = true;
        te_chunked =
            f.te_chunked
            || any (λ e. eq_ignore_ascii_case (token_name e) (codes "chunked"))
                (elements value true);
      })
      value true

abbrev pub found {ℓ} : {A : Type ℓ} → Option A → Bool
found none = false
found (some _) = true

read_host : Fields → ℕ → Bytes → Fields
read_host f at value = record f {
  hosts = f.hosts + 1;
  host_valid = found (authority_port value);
  host_at = at;
}

read_expect : Fields → Bytes → Fields
read_expect f value =
    note_empty
      (record f {
        expect_continue =
            f.expect_continue
            || any (λ e. eq_ignore_ascii_case e (codes "100-continue")) (elements value true);
      })
      value true

read_upgrade : Fields → Bytes → Fields
read_upgrade f value = note_empty (record f { upgrade_field = true }) value false

read_option : Fields → Bytes → Fields
read_option f option = record f {
  close = f.close || eq_ignore_ascii_case option (codes "close");
  keep_alive = f.keep_alive || eq_ignore_ascii_case option (codes "keep-alive");
  upgrade = f.upgrade || eq_ignore_ascii_case option (codes "upgrade");
  connection_te = f.connection_te || eq_ignore_ascii_case option (codes "te");
}

pub read_options : Fields → List Bytes → Fields
read_options f [] = f
read_options f (option ∷ rest) = read_options (read_option f option) rest

read_connection : Fields → Bytes → Fields
read_connection f value = note_empty (read_options f (elements value false)) value false

abbrev or_invalid : Option ℕ → Result String ℕ
or_invalid none = err "invalid Content-Length"
or_invalid (some n) = ok n

abbrev is_same : Option ℕ → ℕ → Bool
is_same none n = false
is_same (some m) n = m == n

-- The `match fields.length` for one element of a `Content-Length` value.
unfoldable pub join_length : Option (Result String ℕ) → Option ℕ → Result String ℕ
join_length none parsed = or_invalid parsed
join_length (some (ok first)) parsed =
    if is_same parsed first then ok first else err "conflicting Content-Length fields"
join_length (some (err e)) parsed = err e

read_length : Fields → Bytes → Fields
read_length f element = record f {
  lengths = f.lengths + 1;
  length = some (join_length f.length (parse_number element 10));
}

pub read_lengths : Fields → List Bytes → Fields
read_lengths f [] = f
read_lengths f (element ∷ rest) = read_lengths (read_length f element) rest

abbrev or_default : Option Codings → Codings
or_default none = no_codings
or_default (some c) = c

read_codings : Fields → Bytes → Fields
read_codings f value = record f { codings = some (Codings.read (or_default f.codings) value) }

-- One arm of the `match name.len()`: the length, then the name.
abbrev pub is_named : Bytes → ℕ → Bytes → Bool
is_named name size expected = length name == size && eq_ignore_ascii_case name expected

scan_field : Fields → ℕ → Field → Fields
scan_field f at (name, value) =
    if is_named name 2 (codes "te")
    then read_te f value
    else if is_named name 4 (codes "host")
    then read_host f at value
    else if is_named name 6 (codes "expect")
    then read_expect f value
    else if is_named name 7 (codes "upgrade")
    then read_upgrade f value
    else if is_named name 10 (codes "connection")
    then read_connection f value
    else if is_named name 14 (codes "content-length")
    then read_lengths f (elements value false)
    else if is_named name 17 (codes "transfer-encoding")
    then read_codings f value
    else f

scan_from : Fields → ℕ → List Field → Fields
scan_from f at [] = f
scan_from f at (field ∷ rest) = scan_from (scan_field f at field) (at + 1) rest

unfoldable pub scan : Headers → Fields
unfolding scan_from scan_field read_te read_host read_expect read_upgrade read_connection
    read_options read_option read_lengths read_length read_codings note_empty
scan h = scan_from no_fields 0 (iter h)

abbrev has_empty_coding : Option Codings → Bool
has_empty_coding none = false
has_empty_coding (some c) = c.empty

unfoldable pub check_send : Fields → Result LocalProtocolError (Unit {0})
check_send f =
    if f.empty_elements || has_empty_coding f.codings
    then err (local "a connection-level list field has an empty element")
    else if ltb 1 f.lengths
    then err (local "Content-Length must be a single decimal value")
    else if f.upgrade_field && not f.upgrade
    then err (local "Upgrade requires Connection: upgrade")
    else if f.te_chunked
    then err (local "TE cannot name the chunked coding")
    else if f.te_field && not f.connection_te
    then err (local "TE requires Connection: TE")
    else ok tt

unfoldable pub has_framing : Fields → Bool
has_framing f = found f.codings || found f.length

unfoldable pub has_transfer_encoding : Fields → Bool
has_transfer_encoding f = found f.codings

one_host : ℕ → Fields → Version → Bool
one_host zero f version = not (is_http11 version)
one_host (suc zero) f version = f.host_valid
one_host (suc (suc n)) f version = false

unfoldable pub valid_host : Fields → Version → Bool
unfolding one_host
valid_host f version = one_host f.hosts f version

unfoldable pub persistent : Fields → Version → Bool
persistent f version = not f.close && (is_http11 version || f.keep_alive)

-- The derived `==` against `Framing::Fixed(0)`.
abbrev pub is_fixed_zero : Framing → Bool
is_fixed_zero (fixed n) = n == 0
is_fixed_zero _ = false

unfoldable pub expects_continue : Fields → Version → Framing → Bool
expects_continue f version how = is_http11 version && not (is_fixed_zero how) && f.expect_continue

of_length : Result String ℕ → Result RemoteProtocolError Framing
of_length (ok n) = ok (fixed n)
of_length (err message) = err (remote message (some 400))

of_codings : Codings → Version → Bool → Result RemoteProtocolError Framing
of_codings c http10 response =
    err (remote "Transfer-Encoding is not valid HTTP/1.0 framing" (some 400))
of_codings c http11 response = Codings.framing c response

framing_of :
    Option Codings → Option (Result String ℕ) → Version → Bool → Result RemoteProtocolError Framing
framing_of (some c) (some n) version response =
    err (remote "Transfer-Encoding and Content-Length cannot be combined" (some 400))
framing_of (some c) none version response = of_codings c version response
framing_of none (some n) version response = of_length n
framing_of none none version response = ok (if response then close_delimited else fixed 0)

unfoldable pub framing : Fields → Version → Bool → Result RemoteProtocolError Framing
unfolding framing_of of_length of_codings
framing f version response = framing_of f.codings f.length version response
