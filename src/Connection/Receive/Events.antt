-- ===== src/Connection/Receive/Events.antt =====
-- crates/h11r/src/connection/receive.rs: the next event.
use h11r.Prelude.{
  ℕ, zero, suc, ◌+◌, ◌-◌, Bool, true, false, not, ◌&&◌, none, some, length, take, is_empty, ltb,
  leb, ◌==◌, bytes_eq, if◌then◌else◌, ok, err,
}
use Prim.Native.String.{String}
use h11r.State.{State, peer, process_error}
use h11r.Headers
use h11r.Events.{Event, NextEvent}
use h11r.Connection.{Connection, Outcome, attempt, require, is_client, peer_state}
use h11r.Connection.Receive.Payload.{
  Polled, event, body_data, need_data, paused, with_reader, read_payload, peer_data, finish_peer,
  peer_closed, need_data_or_eof,
}
use h11r.Connection.Receive.Accept.{
  with_failure, section_due, section, wait_for_section, past_section, read_head,
}
use h11r.Wire.Buffer.{
  Reader, Chunk, size, payload, payload_end, trailers, as_slice, consume, take_front,
}
use h11r.Wire.Errors.{RemoteProtocolError, remote}
use h11r.Wire.Section.{find_crlf, incomplete_line_len, only_empty_lines}
use h11r.Wire.Chunked.{parse_chunk_header}
use h11r.Wire.Elements.{count_while}
use h11r.Wire.Target.{is_ascii_hexdigit}
use h11r.Wire.Head.{crlf}
use h11r.Wire.Parse.{HeadParser, Failure, failed, panicked, parse_trailers}

abbrev too_long : Connection → String → Outcome Failure Polled
too_long c message =
    (c, err (failed (remote message (if is_client c.role then none else some 400))))

abbrev pub consumed : Connection → ℕ → Connection
consumed c end = record c { input = consume c.input end }

-- A chunk-size line of `end` bytes was read; `again` is `next_event_inner`.
unfoldable pub accept_size :
    (Connection → Outcome Failure Polled) → Connection → ℕ → Outcome Failure Polled
accept_size again c end =
    let line = take (end - 2) (as_slice c.input) in
    let bytes =
      c.cycle.chunk_extension_bytes + (length line - count_while is_ascii_hexdigit line) in
    let counted = record c { cycle = record c.cycle { chunk_extension_bytes = bytes } } in
    if ltb c.limits.max_head_bytes (end - 2)
    then too_long c "chunk line exceeds max_head_bytes"
    else require c (parse_chunk_header line) (failed (remote "invalid chunk size" (some 400)))
        (λ found.
          if ltb c.limits.max_head_bytes bytes
          then too_long counted "chunk extensions exceed max_head_bytes"
          else again (
              if found == 0
              then with_reader (past_section counted end) (Reader.chunked trailers)
              else with_reader (consumed counted end) (Reader.chunked (payload found true))))

unfoldable pub read_size :
    (Connection → Outcome Failure Polled) → Connection → ℕ → Outcome Failure Polled
read_size again c scanned =
    let bytes = as_slice c.input in
    elim (find_crlf bytes scanned) [
      | none ↦
          if ltb c.limits.max_head_bytes (incomplete_line_len bytes)
          then too_long c "chunk line exceeds max_head_bytes"
          else with_failure (
              need_data_or_eof (with_reader c (Reader.chunked (size (length bytes - 1))))
                "unexpected EOF in chunk size")
      | some end ↦ accept_size again c end
    ]

unfoldable pub read_payload_end :
    (Connection → Outcome Failure Polled) → Connection → Outcome Failure Polled
read_payload_end again c =
    let bytes = as_slice c.input in
    if ltb (length bytes) 2
    then with_failure (need_data_or_eof c "unexpected EOF after chunk data")
    else if not (bytes_eq (take 2 bytes) crlf)
    then (c, err (failed (remote "chunk data is not followed by CRLF" (some 400))))
    else again (with_reader (consumed c 2) (Reader.chunked (size 0)))

unfoldable pub read_trailers : HeadParser → Connection → Outcome Failure Polled
unfolding section_due
read_trailers httparse c =
    let (d, is_due) = section_due c false in
    if not is_due
    then with_failure (wait_for_section d false)
    else attempt d
        (parse_trailers httparse (section d) d.limits.max_header_count (is_client d.role))
        (λ parsed. elim parsed [
          | none ↦ with_failure (wait_for_section d false)
          | some (end, found) ↦ with_failure (finish_peer (past_section d end) found)
        ])

unfoldable pub read_chunked :
    HeadParser → (Connection → Outcome Failure Polled) → Connection → Chunk → Outcome Failure Polled
unfolding read_size read_payload_end read_trailers
read_chunked httparse again c (size scanned) = read_size again c scanned
read_chunked httparse again c (payload _ _) =
    with_failure (read_payload c "unexpected EOF in chunk data")
read_chunked httparse again c payload_end = read_payload_end again c
read_chunked httparse again c trailers = read_trailers httparse c

unfoldable pub read_close_delimited : Connection → Outcome RemoteProtocolError Polled
read_close_delimited c =
    let count = length (as_slice c.input) in
    if ltb 0 count
    then peer_data c count false false
    else if c.eof
    then finish_peer c Headers.new
    else (c, ok need_data)

-- `match self.cycle.reader`
unfoldable pub read_body :
    HeadParser
    → (Connection → Outcome Failure Polled)
    → Connection
    → Reader
    → Outcome Failure Polled
unfolding read_chunked read_close_delimited
read_body httparse again c Reader.head = read_head httparse c
read_body httparse again c (Reader.fixed zero) = with_failure (finish_peer c Headers.new)
read_body httparse again c (Reader.fixed (suc _)) =
    with_failure (read_payload c "unexpected EOF in Content-Length body")
read_body httparse again c Reader.close_delimited = with_failure (read_close_delimited c)
read_body httparse again c (Reader.chunked chunk) = read_chunked httparse again c chunk

-- The arm for a peer that has completed its message.
unfoldable pub drained : Connection → Outcome RemoteProtocolError Polled
drained c =
    if not (is_empty (as_slice c.input))
    then (c, ok paused)
    else if c.eof
    then peer_closed c
    else (c, ok need_data)

abbrev pub closes_idle : Connection → Bool
closes_idle c =
    c.eof
    && leb (length (as_slice c.input)) c.limits.max_head_bytes
    && only_empty_lines (as_slice c.input)

-- `match self.peer_state()`, and the reader in the other states.
unfoldable pub poll_state :
    HeadParser → (Connection → Outcome Failure Polled) → Connection → State → Outcome Failure Polled
unfolding read_body drained
poll_state httparse again c State.closed = (c, ok (event Event.connection_closed))
poll_state httparse again c State.idle =
    if closes_idle c
    then with_failure (peer_closed (consumed c (length (as_slice c.input))))
    else read_body httparse again c c.cycle.reader
poll_state httparse again c State.might_switch_protocol = (c, ok paused)
poll_state httparse again c State.switched_protocol = (c, ok paused)
poll_state httparse again c State.done = with_failure (drained c)
poll_state httparse again c State.must_close = with_failure (drained c)
poll_state httparse again c State.error = (c, err (failed (remote "peer state is ERROR" none)))
poll_state httparse again c State.send_response = read_body httparse again c c.cycle.reader
poll_state httparse again c State.send_body = read_body httparse again c c.cycle.reader

-- The recursion on fuel; a size line behind the end of a chunk is the deepest.
unfoldable pub next_event_inner : HeadParser → ℕ → Connection → Outcome Failure Polled
unfolding poll_state
next_event_inner httparse zero c = (c, err (panicked "out of fuel"))
next_event_inner httparse (suc fuel) c =
    poll_state httparse (λ d. next_event_inner httparse fuel d) c (peer_state c)

abbrev pub event_fuel : ℕ
event_fuel = 3

abbrev pub hide_status : Connection → RemoteProtocolError → RemoteProtocolError
hide_status c error =
    if is_client c.role then record error { suggested_status_code = none } else error

unfoldable pub report : Connection → Polled → Connection × NextEvent
report c (event e) = (c, NextEvent.event e)
report c (body_data count chunk_start chunk_end) =
    let (input, bytes) = take_front c.input count in
    (
      record c { input = input },
      NextEvent.event (
          Event.body_data
            (record { bytes = bytes; chunk_start = chunk_start; chunk_end = chunk_end })),
    )
report c need_data = (c, NextEvent.need_data)
report c paused = (c, NextEvent.paused)

-- An error of the peer is recorded in the states; a panic unwinds.
unfoldable pub settle : Outcome Failure Polled → Outcome Failure NextEvent
unfolding report
settle (c, ok polled) = let (d, next) = report c polled in (d, ok next)
settle (c, err (failed error)) =
    (record c { state = process_error c.state (peer c.role) }, err (failed (hide_status c error)))
settle (c, err (panicked message)) = (c, err (panicked message))

unfoldable pub next_event : HeadParser → Connection → Outcome Failure NextEvent
unfolding next_event_inner settle
next_event httparse c = settle (next_event_inner httparse event_fuel c)
