-- ===== src/Connection/Receive/Payload.antt =====
-- crates/h11r/src/connection/receive.rs: body payload, buffered or held by the caller.
use h11r.Prelude.{
  ℕ, zero, suc, ◌+◌, ◌-◌, min, Bool, false, not, ◌&&◌, ◌||◌, Option, none, some, length, is_empty,
  ltb, leb, ◌==◌, if◌then◌else◌, ok, err, map_err,
}
use Prim.Native.String.{String}
use h11r.State.{State, state_eq, StateEvent}
use h11r.Headers.{Headers}
use h11r.Events.{Event}
use h11r.Connection.{Connection, Outcome, and_then, peer_state, advance_peer}
use h11r.Wire.Buffer.{Reader, payload, payload_end, as_slice}
use h11r.Wire.Errors.{LocalProtocolError, local, RemoteProtocolError, remote}
use h11r.Wire.Number.{usize_max}

-- An outcome of polling: body data is described by its length alone.
pub data Polled : Type 0 where
  event : Event → Polled
  body_data : ℕ → Bool → Bool → Polled
  need_data paused : Polled

abbrev pub with_reader : Connection → Reader → Connection
with_reader c reader = record c { cycle = record c.cycle { reader = reader } }

abbrev pub reader_remaining : Reader → Option ℕ
reader_remaining (Reader.fixed zero) = none
reader_remaining (Reader.fixed (suc n)) = some (suc n)
reader_remaining (Reader.chunked (payload remaining _)) = some remaining
reader_remaining Reader.close_delimited = some usize_max
reader_remaining _ = none

unfoldable pub payload_remaining : Connection → Option ℕ
payload_remaining c =
    if state_eq (peer_state c) State.send_body then reader_remaining c.cycle.reader else none

-- The reader behind the payload taken, the number of its bytes, and the flags of the chunk.
unfoldable pub take_payload : Reader → ℕ → Reader × (ℕ × (Bool × Bool))
take_payload (Reader.fixed remaining) available =
    let count = min remaining available in
    (Reader.fixed (remaining - count), (count, (false, false)))
take_payload (Reader.chunked (payload remaining first)) available =
    let count = min remaining available in
    let last = count == remaining in
    (
      Reader.chunked (if last then payload_end else payload (remaining - count) false),
      (count, (first, last)),
    )
take_payload reader available = (reader, (available, (false, false)))

unfoldable pub advance_payload : Connection → ℕ → Connection × (ℕ × (Bool × Bool))
unfolding take_payload
advance_payload c available =
    let taken = take_payload c.cycle.reader available in (with_reader c taken.0, taken.1)

unfoldable pub peer_data : Connection → ℕ → Bool → Bool → Outcome RemoteProtocolError Polled
peer_data c count chunk_start chunk_end = and_then (advance_peer c StateEvent.body_data) (λ d _. (
  record d { cycle = record d.cycle { waiting_for_continue = false } },
  ok (body_data count chunk_start chunk_end),
))

unfoldable pub finish_peer : Connection → Headers → Outcome RemoteProtocolError Polled
finish_peer c trailers = and_then (advance_peer c StateEvent.end_of_message) (λ d _.
    (with_reader d Reader.head, ok (event (Event.end_of_message (record { trailers = trailers })))))

unfoldable pub peer_closed : Connection → Outcome RemoteProtocolError Polled
peer_closed c =
    and_then (advance_peer c StateEvent.connection_closed)
      (λ d _. (d, ok (event Event.connection_closed)))

unfoldable pub need_data_or_eof : Connection → String → Outcome RemoteProtocolError Polled
need_data_or_eof c message =
    if c.eof then (c, err (remote message (some 400))) else (c, ok need_data)

unfoldable pub read_payload : Connection → String → Outcome RemoteProtocolError Polled
unfolding advance_payload peer_data need_data_or_eof
read_payload c eof_message =
    let available = length (as_slice c.input) in
    if available == 0
    then need_data_or_eof c eof_message
    else let advanced = advance_payload c available in
      peer_data advanced.0 advanced.1.0 advanced.1.1.0 advanced.1.1.1

abbrev pub fits_within : ℕ → Option ℕ → Bool
fits_within count none = false
fits_within count (some remaining) = leb count remaining

-- The sum is below 2 ^ 64: the bytes counted are those of buffers in memory.
unfoldable pub hold_body_data : Connection → ℕ → Connection × Bool
unfolding payload_remaining
hold_body_data c count =
    let fits =
      not (count == 0)
      && not c.eof
      && is_empty (as_slice c.input)
      && fits_within (c.held + count) (payload_remaining c) in
    ((if fits then record c { held = c.held + count } else c), fits)

unfoldable pub next_event_in_place : Connection → ℕ → Outcome LocalProtocolError (Bool × Bool)
unfolding advance_payload peer_data
next_event_in_place c count =
    if count == 0 || ltb c.held count
    then (c, err (local "count does not match held body bytes"))
    else let advanced = advance_payload c count in
      let polled = peer_data advanced.0 count advanced.1.1.0 advanced.1.1.1 in
      and_then
        (polled.0, map_err (λ _. local "held body bytes are invalid in the peer state") polled.1)
        (λ d _. (record d { held = d.held - count }, ok advanced.1.1))
