-- ===== src/Connection/Lengths.antt =====
-- crates/h11r/src/connection/send.rs: a body is as long as its head says.
use h11r.Prelude.{
  ℕ, zero, suc, ◌+◌, ◌-◌, ◌≤◌, ◌≡◌, refl, ap, sym, ◌∙◌, subst, arith, inl, inr, Option, none, some,
  List, [], ◌∷◌, ◌++◌, append-nil, Bytes, length, length-append, leb, Bool-cases, Result, ok, err,
}
use h11r.State.{StateEvent}
use h11r.Headers.{Headers, no_fields}
use h11r.Connection.{Connection, Outcome, and_then, attempt, require, advance_local}
use h11r.Connection.Body.{
  frame_data, send_data_framing, send_data, finish_body, end_of_message, writing,
}
use h11r.Wire.Buffer.{Framing}
use h11r.Wire.Errors.{LocalProtocolError, local}
use h11r.Wire.Lists.{validate_trailers}
use h11r.Wire.Number.{DataPrefix, no_prefix, prefix_bytes}

-- The pieces of a body sent one by one, with the bytes written for them.
abbrev pub send_pieces : Connection → List Bytes → Outcome LocalProtocolError Bytes
send_pieces c [] = (c, ok [])
send_pieces c (piece ∷ rest) =
    and_then (send_data c piece)
      (λ d out. and_then (send_pieces d rest) (λ e more. (e, ok (out ++ more))))

-- A whole body: its pieces and its end.
abbrev pub send_body : Connection → List Bytes → Headers → Outcome LocalProtocolError Bytes
send_body c pieces trailers =
    and_then (send_pieces c pieces)
      (λ d out. and_then (end_of_message d trailers) (λ e bytes. (e, ok (out ++ bytes))))

abbrev pub concat : List Bytes → Bytes
concat [] = []
concat (piece ∷ rest) = piece ++ concat rest

pub and_then-ok :
    {E A B : Type 0} (o : Outcome E A) (next : Connection → A → Outcome E B) (b : B)
    → (and_then o next).1 ≡ ok b
    → (a : A) × ((o.1 ≡ ok a) × ((next o.0 a).1 ≡ ok b) × ((and_then o next).0 ≡ (next o.0 a).0))
and_then-ok (d, ok a) next b h = (a, (refl, h, refl))
and_then-ok (d, err e) next b h = let no : ⊥ = ground (arith, h) in absurd no

attempt-ok :
    {E A B : Type 0} (c : Connection) (r : Result E A) (next : A → Outcome E B) (b : B)
    → (attempt c r next).1 ≡ ok b
    → (a : A) × ((r ≡ ok a)
        × ((attempt c r next).1 ≡ (next a).1)
        × ((attempt c r next).0 ≡ (next a).0))
attempt-ok c (ok a) next b h = (a, (refl, refl, refl))
attempt-ok c (err e) next b h = let no : ⊥ = ground (arith, h) in absurd no

-- What `send_data_framing` does under a writer.
abbrev pub framed_under :
    Connection → Option Framing → ℕ → Outcome LocalProtocolError (DataPrefix × Bytes)
framed_under c writer size = require c writer (local "no message body is being sent") (λ w.
    attempt c (frame_data w size) (λ framed.
      and_then (advance_local c StateEvent.body_data)
        (λ d _. (writing d (some framed.0), ok framed.1))))

-- Under `Content-Length` data is sent as it is, is no longer than what is left, and is taken off it.
fixed_under :
    (c : Connection) (n size : ℕ) (framed : DataPrefix × Bytes)
    → (framed_under c (some (Framing.fixed n)) size).1 ≡ ok framed
    → (size ≤ n)
      × (framed ≡ (no_prefix, []))
      × ((framed_under c (some (Framing.fixed n)) size).0.cycle.writer
          ≡ some (Framing.fixed (n - size)))
unfolding frame_data
fixed_under c n size framed = elim (Bool-cases (leb size n)) [
  | inl fits ↦ rw fits (λ h.
      let (_, (_, e, at)) =
        and_then-ok (advance_local c StateEvent.body_data)
          (λ d _. (writing d (some (Framing.fixed (n - size))), ok (no_prefix, []))) framed h in
      (ground arith, cc, ap (λ (d : Connection). d.cycle.writer) at))
  | inr more ↦ rw more (λ h. let no : ⊥ = ground (arith, h) in absurd no)
]

fixed_data :
    (c : Connection) (n : ℕ) (bytes out : Bytes)
    → c.cycle.writer ≡ some (Framing.fixed n)
    → (send_data c bytes).1 ≡ ok out
    → (length bytes ≤ n)
      × (out ≡ bytes)
      × ((send_data c bytes).0.cycle.writer ≡ some (Framing.fixed (n - length bytes)))
unfolding send_data send_data_framing prefix_bytes no_prefix
fixed_data c n bytes out w h =
    let (framed, (fine, e, at)) =
      and_then-ok (framed_under c c.cycle.writer (length bytes)) joined out h in
    let (fits, bare, left) = under framed fine in
    let e' : bytes ++ [] ≡ out = cc in
    (fits, sym e' ∙ append-nil bytes, ap (λ (d : Connection). d.cycle.writer) at ∙ left)
  where
    joined : Connection → DataPrefix × Bytes → Outcome LocalProtocolError Bytes
    joined d framed = (d, ok (prefix_bytes framed.0 ++ (bytes ++ framed.1)))

    under :
        (framed : DataPrefix × Bytes)
        → (framed_under c c.cycle.writer (length bytes)).1 ≡ ok framed
        → (length bytes ≤ n)
          × (framed ≡ (no_prefix, []))
          × ((framed_under c c.cycle.writer (length bytes)).0.cycle.writer
              ≡ some (Framing.fixed (n - length bytes)))
    under framed =
        subst
          (λ v.
            (framed_under c v (length bytes)).1 ≡ ok framed
            → (length bytes ≤ n)
              × (framed ≡ (no_prefix, []))
              × ((framed_under c v (length bytes)).0.cycle.writer
                  ≡ some (Framing.fixed (n - length bytes))))
          (sym w) (fixed_under c n (length bytes) framed)

abbrev ended_under : Connection → Option Framing → Headers → Outcome LocalProtocolError Bytes
ended_under c writer trailers = require c writer (local "no message body is being sent") (λ w.
    attempt c (finish_body w trailers) (λ bytes.
      and_then (advance_local c StateEvent.end_of_message) (λ d _. (writing d none, ok bytes))))

finish_fixed :
    (n : ℕ) (trailers : Headers) (bytes : Bytes)
    → finish_body (Framing.fixed n) trailers ≡ ok bytes
    → (n ≡ 0) × (bytes ≡ [])
unfolding finish_body
finish_fixed zero trailers bytes h = elim (Bool-cases (no_fields trailers)) [
  | inl none_there ↦ (refl, ground (arith, h, none_there))
  | inr some_there ↦ let no : ⊥ = ground (arith, h, some_there) in absurd no
]
finish_fixed (suc n) trailers bytes h = let no : ⊥ = ground (arith, h) in absurd no

ended_fixed :
    (c : Connection) (n : ℕ) (trailers : Headers) (out : Bytes)
    → (ended_under c (some (Framing.fixed n)) trailers).1 ≡ ok out
    → (n ≡ 0) × (out ≡ [])
ended_fixed c n trailers out h =
    let (bytes, (fine, same, _)) =
      attempt-ok c (finish_body (Framing.fixed n) trailers) ending out h in
    let (_, (_, e, _)) =
      and_then-ok (advance_local c StateEvent.end_of_message) (λ d _. (writing d none, ok bytes))
        out (sym same ∙ h) in
    let (all_sent, bare) = finish_fixed n trailers bytes fine in
    let e' : bytes ≡ out = cc in (all_sent, sym e' ∙ bare)
  where
    ending : Bytes → Outcome LocalProtocolError Bytes
    ending bytes =
        and_then (advance_local c StateEvent.end_of_message) (λ d _. (writing d none, ok bytes))

fixed_end :
    (c : Connection) (n : ℕ) (trailers : Headers) (out : Bytes)
    → c.cycle.writer ≡ some (Framing.fixed n)
    → (end_of_message c trailers).1 ≡ ok out
    → (n ≡ 0) × (out ≡ [])
unfolding end_of_message
fixed_end c n trailers out w h =
    let (_, (_, same, _)) =
      attempt-ok c (validate_trailers trailers) (λ _. ended_under c c.cycle.writer trailers) out
        h in
    subst (λ v. (ended_under c v trailers).1 ≡ ok out → (n ≡ 0) × (out ≡ [])) (sym w)
      (ended_fixed c n trailers out) (sym same ∙ h)

fixed_pieces :
    (c : Connection) (n : ℕ) (pieces : List Bytes) (out : Bytes)
    → c.cycle.writer ≡ some (Framing.fixed n)
    → (send_pieces c pieces).1 ≡ ok out
    → (length out ≤ n)
      × (out ≡ concat pieces)
      × ((send_pieces c pieces).0.cycle.writer ≡ some (Framing.fixed (n - length out)))
fixed_pieces c n [] out w h =
    let e : [] ≡ out = cc in
    let zero_long : length out ≡ 0 = ap length (sym e) in
    (
      omega (arith, zero_long),
      sym e,
      w ∙ ap (λ k. some (Framing.fixed k)) (omega (arith, zero_long)),
    )
fixed_pieces c n (piece ∷ rest) out w h =
    let (sent, (fine, more, at)) = and_then-ok (send_data c piece) later out h in
    let (tail, (fine_tail, joined, at_tail)) =
      and_then-ok (send_pieces (send_data c piece).0 rest) (λ e tail. (e, ok (sent ++ tail))) out
        more in
    let (fits, same, left) = fixed_data c n piece sent w fine in
    let (fits_tail, same_tail, left_tail) =
      fixed_pieces (send_data c piece).0 (n - length piece) rest tail left fine_tail in
    let e : sent ++ tail ≡ out = cc in
    let total : length out ≡ length piece + length tail =
      ap length (sym e) ∙ length-append sent tail ∙ ap (λ b. length b + length tail) same in
    (
      omega (arith, total),
      sym e ∙ (ap (λ b. b ++ tail) same ∙ ap (λ b. piece ++ b) same_tail),
      ap (λ (d : Connection). d.cycle.writer) (at ∙ at_tail)
          ∙ (left_tail ∙ ap (λ k. some (Framing.fixed k)) (omega (arith, total))),
    )
  where
    later : Connection → Bytes → Outcome LocalProtocolError Bytes
    later d sent = and_then (send_pieces d rest) (λ e more. (e, ok (sent ++ more)))

-- A body announced with a `Content-Length`, if its pieces and its end are all accepted, is on the
-- wire as exactly its pieces, and is exactly as long as was announced.
pub content_length_exact :
    (c : Connection) (n : ℕ) (pieces : List Bytes) (trailers : Headers) (out : Bytes)
    → c.cycle.writer ≡ some (Framing.fixed n)
    → (send_body c pieces trailers).1 ≡ ok out
    → (out ≡ concat pieces) × (length out ≡ n)
content_length_exact c n pieces trailers out w h =
    let (sent, (fine, ended, at)) = and_then-ok (send_pieces c pieces) ending out h in
    let (bytes, (fine_end, joined, _)) =
      and_then-ok (end_of_message (send_pieces c pieces).0 trailers)
        (λ e bytes. (e, ok (sent ++ bytes))) out ended in
    let (fits, same, left) = fixed_pieces c n pieces sent w fine in
    let (done, bare) =
      fixed_end (send_pieces c pieces).0 (n - length sent) trailers bytes left fine_end in
    let e : sent ++ bytes ≡ out = cc in
    let whole : out ≡ sent = sym e ∙ (ap (λ b. sent ++ b) bare ∙ append-nil sent) in
    (whole ∙ same, ap length whole ∙ omega arith)
  where
    ending : Connection → Bytes → Outcome LocalProtocolError Bytes
    ending d out = and_then (end_of_message d trailers) (λ e bytes. (e, ok (out ++ bytes)))
