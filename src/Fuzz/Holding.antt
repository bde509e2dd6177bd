-- ===== src/Fuzz/Holding.antt =====
-- fuzz/fuzz_targets/h11r_fragmentation.rs: a read within body payload is held and handed over.
use h11r.Prelude.{
  ℕ, ◌+◌, ◌*◌, ◌≤◌, ◌≡◌, arith, inl, inr, Bool, true, false, not, ◌&&◌, ◌||◌, ◌++◌, Bytes, length,
  is_empty, ltb, ◌==◌, Bool-cases, ok, on_ok,
}
use h11r.State.{State, state_eq}
use h11r.Connection.{Connection, peer_state}
use h11r.Connection.Receive.Held.{advance_peer-body}
use h11r.Connection.Receive.Payload.{
  with_reader, payload_remaining, take_payload, advance_payload, peer_data, fits_within,
  hold_body_data, next_event_in_place,
}
use h11r.Connection.Receive.Progress.{reader_weight, weight}
use h11r.Fuzz.{unwrap_call, Drained}
use h11r.Fuzz.Bounded.{Given, Gives, receive-Given}
use h11r.Fuzz.Runs.{hold}
use h11r.Wire.Buffer.{Reader, size, payload, payload_end, trailers, as_slice}

reader_weight-le : (r : Reader) → reader_weight r ≤ 1
reader_weight-le Reader.head = omega arith
reader_weight-le (Reader.fixed n) = omega arith
reader_weight-le (Reader.chunked (size s)) = omega arith
reader_weight-le (Reader.chunked (payload n first)) = omega arith
reader_weight-le (Reader.chunked payload_end) = omega arith
reader_weight-le (Reader.chunked trailers) = omega arith
reader_weight-le Reader.close_delimited = omega arith

in_place-Given :
    (s : Drained) (c : Connection) (chunk : Bytes)
    → state_eq (peer_state c) State.send_body ≡ true
    → 1 ≤ length chunk
    → length chunk ≤ c.held
    → c.eof ≡ false
    → Given (weight c + 2 * length chunk) false (
        on_ok
          (unwrap_call (next_event_in_place c (length chunk)))
          (λ d. ok (record s { connection = d; body = s.body ++ chunk })))
unfolding next_event_in_place peer_data advance_payload
in_place-Given s c chunk sending some_bytes le no_eof =
    let count = length chunk in
    let test : (count == 0 || ltb c.held count) ≡ false = ground arith in
    let light = reader_weight-le (take_payload c.cycle.reader count).0 in
    rw test (
      rw (advance_peer-body (with_reader c (take_payload c.cycle.reader count).0) sending)
        (record { given = (omega (arith, light, some_bytes), no_eof) }))

pub hold-Given : Gives hold
unfolding hold hold_body_data
hold-Given s chunk no_eof some_bytes = elim (Bool-cases fits) [
  | inl held ↦ rw held (taken held)
  | inr refused ↦ rw refused (receive-Given s chunk no_eof some_bytes)
]
  where
    c : Connection
    c = s.connection

    count : ℕ
    count = length chunk

    fits : Bool
    fits =
        not (count == 0)
        && not c.eof
        && is_empty (as_slice c.input)
        && fits_within (c.held + count) (payload_remaining c)

    holding : Connection
    holding = record c { held = c.held + count }

    sending : fits ≡ true → state_eq (peer_state c) State.send_body ≡ true
    sending held = unfold payload_remaining in ground (arith, held)

    taken :
        fits ≡ true
        → Given (weight c + 2 * count) false (
            on_ok
              (unwrap_call (next_event_in_place holding count))
              (λ d. ok (record s { connection = d; body = s.body ++ chunk })))
    taken held = in_place-Given s holding chunk (sending held) some_bytes (omega arith) no_eof
