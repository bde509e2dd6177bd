-- ===== src/Connection/OnLines.antt =====
-- crates/h11r/src/connection/send.rs: the fields that are written stay on their lines.
use h11r.Prelude.{
  ◌≡◌, refl, sym, subst, ◌∙◌, arith, inl, inr, Bool, true, false, not, List, [], ◌∷◌, Bytes, codes,
  all, if◌then◌else◌, ◌==◌, Bool-cases, ok,
}
use h11r.Headers.{Headers, Field, push, retain, iter, is_valid}
use h11r.Headers.Entries.{
  IsWellFormed, kept, iter-push, push-IsWellFormed, iter-retain, retain-IsWellFormed,
  is_valid-eq-all,
}
use h11r.Status.{StatusCode}
use h11r.Connection.{Connection}
use h11r.Connection.Send.{strip_codings, choose_framing, declared_framing, persistence_option}
use h11r.Wire.Buffer.{Framing}
use h11r.Wire.Syntax.{eq_ignore_ascii_case}
use h11r.Wire.Fields.{Version, Fields, http11, is_fixed_zero}
use h11r.Wire.Lists.{set_connection_option, validate_headers}
use h11r.Wire.Lists.Options.{set_connection_option-pushes}
use h11r.Wire.Elements.Within.{all-append}
use h11r.Wire.Head.Whole.{no_newline}
use h11r.Wire.Head.Ends.{field_on_line, all-on_line}
use h11r.Connection.Gives.{Gives, Gives-ok, Gives-err, Gives-if, Gives-on_ok}

-- A section whose fields stay on their lines.
pub record OnLines (h : Headers) : Type 0 where
  pub well : IsWellFormed h
  pub on_line : all field_on_line (iter h) ≡ true

all-kept :
    (p : Field → Bool) (keep : Bytes → Bytes → Bool) (fields : List Field)
    → all p fields ≡ true
    → all p (kept keep fields) ≡ true
all-kept p keep [] h = refl
all-kept p keep ((name, value) ∷ rest) h =
    let later = all-kept p keep rest (ground (arith, h)) in
    elim (Bool-cases (keep name value)) [
      | inl stays ↦ rw stays (ground (arith, h, later))
      | inr goes ↦ rw goes later
    ]

values_on_line :
    (fields : List Field)
    → all field_on_line fields ≡ true
    → all (λ f. no_newline f.1) fields ≡ true
values_on_line [] h = refl
values_on_line ((name, value) ∷ rest) h = ground (arith, h, values_on_line rest (ground (arith, h)))

pub push-OnLines :
    (h : Headers) (name value : Bytes)
    → OnLines h
    → field_on_line (name, value) ≡ true
    → OnLines (push h name value)
push-OnLines h name value l k = record {
  well = push-IsWellFormed h name value l.well;
  on_line =
      rw (iter-push h name value l.well)
        (all-append field_on_line (iter h) ((name, value) ∷ []) l.on_line (ground (arith, k)));
}

pub retain-OnLines :
    (h : Headers) (keep : Bytes → Bytes → Bool) → OnLines h → OnLines (retain h keep)
retain-OnLines h keep l = record {
  well = retain-IsWellFormed h keep l.well;
  on_line = rw (iter-retain h keep) (all-kept field_on_line keep (iter h) l.on_line);
}

set_connection_option-OnLines :
    (h : Headers) (option : Bytes)
    → no_newline option ≡ true
    → OnLines h
    → OnLines (set_connection_option h option)
set_connection_option-OnLines h option clean l =
    let (value, (pushes, value_clean)) =
      set_connection_option-pushes (λ b. not (b == b'\n')) h option refl clean
        (values_on_line (iter h) l.on_line) in
    subst OnLines (sym pushes) (
      push-OnLines _ (codes "Connection") value
        (retain-OnLines h (λ name _. not (eq_ignore_ascii_case name (codes "connection"))) l)
        (ground (arith, value_clean)))

pub persistence_option-OnLines :
    (c : Connection) (tunnel is_11 : Bool) (h : Headers)
    → OnLines h
    → OnLines (persistence_option c tunnel is_11 h)
unfolding persistence_option
persistence_option-OnLines c true is_11 h l = l
persistence_option-OnLines c false is_11 h l = by_flags (not c.state.keep_alive) (not is_11)
  where
    by_flags :
        (closes old : Bool)
        → OnLines (
            if closes
            then set_connection_option h (codes "close")
            else if old
            then set_connection_option h (codes "keep-alive")
            else h)
    by_flags true old = set_connection_option-OnLines h (codes "close") refl l
    by_flags false true = set_connection_option-OnLines h (codes "keep-alive") refl l
    by_flags false false = l

pub validated :
    (h : Headers) {u : Unit {0}} → IsWellFormed h → validate_headers h ≡ ok u → OnLines h
unfolding validate_headers
validated h w e = elim (Bool-cases (is_valid h)) [
  | inl valid ↦ record {
    well = w;
    on_line = all-on_line (iter h) (sym (is_valid-eq-all h w) ∙ valid);
  }
  | inr invalid ↦ absurd (ground (arith, e, invalid))
]

pub strip_codings-OnLines :
    (fields : Fields) (bodyless stripped : Bool) (h : Headers)
    → OnLines h
    → Gives OnLines (strip_codings fields bodyless stripped h)
unfolding strip_codings
strip_codings-OnLines fields bodyless stripped h l =
    Gives-if OnLines stripped _ _
      (Gives-on_ok OnLines (declared_framing fields bodyless http11) _ (λ _ _. Gives-ok OnLines _ (
        retain-OnLines h (λ name _. not (eq_ignore_ascii_case name (codes "transfer-encoding")))
          l)))
      (Gives-ok OnLines h l)

abbrev pub FramedOnLines : Headers × Framing → Type 0
FramedOnLines framed = OnLines framed.0

pub choose_framing-OnLines :
    (fields : Fields) (status : StatusCode) (version : Version) (bodyless declared is_11 : Bool)
    (h : Headers)
    → OnLines h
    → Gives FramedOnLines (choose_framing fields status version bodyless declared is_11 h)
unfolding choose_framing
choose_framing-OnLines fields status version bodyless declared is_11 h l =
    let stated = declared_framing fields bodyless version in
    Gives-if FramedOnLines bodyless _ _
      (Gives-if FramedOnLines declared _ _
        (Gives-on_ok FramedOnLines stated _ (λ _ _. Gives-ok FramedOnLines _ l))
        (Gives-ok FramedOnLines _ l))
      (Gives-if FramedOnLines (status.as_u16 == 205) _ _
        (Gives-if FramedOnLines (not declared) _ _
          (Gives-ok FramedOnLines _ (push-OnLines h (codes "Content-Length") (codes "0") l refl))
          (Gives-on_ok FramedOnLines stated _ (λ framing _.
            Gives-if FramedOnLines (not (is_fixed_zero framing)) _ _ (Gives-err FramedOnLines _)
              (Gives-ok FramedOnLines _ l))))
        (Gives-if FramedOnLines (not declared) _ _
          (Gives-if FramedOnLines is_11 _ _
            (Gives-ok FramedOnLines _
              (push-OnLines h (codes "Transfer-Encoding") (codes "chunked") l refl))
            (Gives-ok FramedOnLines _ l))
          (Gives-on_ok FramedOnLines stated _ (λ framing _. Gives-ok FramedOnLines _ l))))
