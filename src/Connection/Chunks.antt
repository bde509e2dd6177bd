-- ===== src/Connection/Chunks.antt =====
-- crates/h11r/src/connection/send.rs: data under the chunked coding.
use h11r.Prelude.{
  ℕ, ◌≤◌, ◌≡◌, ap, sym, ◌∙◌, subst, arith, false, some, ◌++◌, Bytes, length, ◌==◌, ok,
}
use h11r.State.{StateEvent}
use h11r.Connection.{Connection, Outcome, advance_local}
use h11r.Connection.Body.{frame_data, send_data_framing, send_data, writing}
use h11r.Connection.Lengths.{and_then-ok, framed_under}
use h11r.Wire.Buffer.{Framing}
use h11r.Wire.Chunked.{parse_chunk_header}
use h11r.Wire.Chunked.Header.{parse_chunk_header-chunk_size}
use h11r.Wire.Errors.{LocalProtocolError}
use h11r.Wire.Head.{crlf}
use h11r.Wire.Number.{DataPrefix, usize_max, chunk_size, hex_digits, digit_count, prefix_bytes}

abbrev size_line : ℕ → Bytes
size_line size = hex_digits (digit_count size) size

chunked_under :
    (c : Connection) (size : ℕ) (framed : DataPrefix × Bytes)
    → 1 ≤ size
    → (framed_under c (some Framing.chunked) size).1 ≡ ok framed
    → (framed ≡ (chunk_size size, crlf))
      × ((framed_under c (some Framing.chunked) size).0.cycle.writer ≡ some Framing.chunked)
unfolding frame_data
chunked_under c size framed some_bytes =
    let full : (size == 0) ≡ false = ground arith in
    rw full (λ h.
      let (_, (_, e, at)) =
        and_then-ok (advance_local c StateEvent.body_data)
          (λ d _. (writing d (some Framing.chunked), ok (chunk_size size, crlf))) framed h in
      (cc, ap (λ (d : Connection). d.cycle.writer) at))

-- Under the chunked coding data that is not empty goes out as one chunk: a line, CRLF, the data as it is
-- and CRLF; the line is one that a receiver reads as the length of the data, and the coding goes on.
pub send_data-chunk :
    (c : Connection) (bytes out : Bytes)
    → c.cycle.writer ≡ some Framing.chunked
    → 1 ≤ length bytes
    → length bytes ≤ usize_max
    → (send_data c bytes).1 ≡ ok out
    → (out ≡ (size_line (length bytes) ++ crlf) ++ (bytes ++ crlf))
      × (parse_chunk_header (size_line (length bytes)) ≡ some (length bytes))
      × ((send_data c bytes).0.cycle.writer ≡ some Framing.chunked)
unfolding send_data send_data_framing
send_data-chunk c bytes out w some_bytes small h =
    let (framed, (fine, e, at)) =
      and_then-ok (framed_under c c.cycle.writer (length bytes)) joined out h in
    let (one_chunk, same) = under framed fine in
    let (line, reads) = parse_chunk_header-chunk_size (length bytes) small in
    let e' : prefix_bytes (chunk_size (length bytes)) ++ (bytes ++ crlf) ≡ out = cc in
    (
      sym e' ∙ ap (λ b. b ++ (bytes ++ crlf)) line,
      reads,
      ap (λ (d : Connection). d.cycle.writer) at ∙ same,
    )
  where
    joined : Connection → DataPrefix × Bytes → Outcome LocalProtocolError Bytes
    joined d framed = (d, ok (prefix_bytes framed.0 ++ (bytes ++ framed.1)))

    under :
        (framed : DataPrefix × Bytes)
        → (framed_under c c.cycle.writer (length bytes)).1 ≡ ok framed
        → (framed ≡ (chunk_size (length bytes), crlf))
          × ((framed_under c c.cycle.writer (length bytes)).0.cycle.writer ≡ some Framing.chunked)
    under framed =
        subst
          (λ v.
            (framed_under c v (length bytes)).1 ≡ ok framed
            → (framed ≡ (chunk_size (length bytes), crlf))
              × ((framed_under c v (length bytes)).0.cycle.writer ≡ some Framing.chunked))
          (sym w) (chunked_under c (length bytes) framed some_bytes)
