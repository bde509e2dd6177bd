-- ===== src/Connection/Receive/Untouched/Poll.antt =====
-- crates/h11r/src/connection/receive.rs: a poll changes nothing that the caller sets or holds.
use h11r.Prelude.{
  ℕ, zero, suc, ◌-◌, ◌+◌, refl, ◌∙◌, Bool, true, false, not, Bytes, length, take, ◌==◌, ltb,
  is_empty, bytes_eq, ok, err,
}
use h11r.State.{State, peer}
use h11r.State.Invariant.{Step, here, further, Steps-trans}
use h11r.Headers
use h11r.Headers.{Headers}
use h11r.Connection.{Connection, Outcome, is_client, peer_state}
use h11r.Connection.Frame.{attempt-kept, require-kept, if-kept, choice-kept, option-kept}
use h11r.Connection.Receive.Payload.{
  Polled, with_reader, finish_peer, need_data_or_eof, peer_closed, read_payload,
}
use h11r.Connection.Receive.Accept.{
  with_failure, section_due, section, wait_for_section, past_section, disable_if, accept_request,
  accept_response, read_head,
}
use h11r.Connection.Receive.Untouched.{
  Untouched, Untouched-self, then_update, then_step, with_failure-Untouched, finish_peer-Untouched,
  peer_closed-Untouched, peer_data-Untouched, need_data_or_eof-Untouched, read_payload-Untouched,
  section_due-Untouched, wait_for_section-Untouched, disable_if-Untouched, accept_request-Untouched,
  accept_response-Untouched,
}
use h11r.Connection.Receive.Events.{
  accept_size, read_size, read_payload_end, read_trailers, read_chunked, read_close_delimited,
  read_body, drained, closes_idle, consumed, poll_state, next_event_inner, event_fuel, report,
  settle, next_event,
}
use h11r.Wire.Buffer.{Reader, Chunk, size, payload, payload_end, trailers, as_slice}
use h11r.Wire.Section.{find_crlf, incomplete_line_len}
use h11r.Wire.Chunked.{parse_chunk_header}
use h11r.Wire.Elements.{count_while}
use h11r.Wire.Target.{is_ascii_hexdigit}
use h11r.Wire.Head.{crlf}
use h11r.Wire.Parse.{
  HeadParser, Failure, failed, panicked, parse_request_head, parse_response_head, parse_trailers,
}

module _ {c : Connection} where
  waits :
      {d : Connection} (skip : Bool)
      → Untouched c d
      → Untouched c (with_failure (wait_for_section d skip)).0
  waits {d} skip h =
      with_failure-Untouched (wait_for_section d skip) (wait_for_section-Untouched skip h)

  read_head-Untouched :
      {d : Connection} (httparse : HeadParser)
      → Untouched c d
      → Untouched c (read_head httparse d).0
  unfolding read_head
  read_head-Untouched {d} httparse h =
      let k = section_due-Untouched {c = c} {d = d} true h in
      let e = (section_due d true).0 in
      if-kept (Untouched c) (not (section_due d true).1) _ _ (waits true k) (
        if-kept (Untouched c) (not (is_client e.role)) _ _
          (attempt-kept (Untouched c)
            (parse_request_head httparse (section e) e.limits.max_header_count) _ k
            (λ parsed. option-kept (Untouched c) parsed _ _ (waits true k) (λ found.
              with_failure-Untouched (accept_request (past_section e found.0) found.1)
                (accept_request-Untouched found.1 (then_update _ refl k)))))
          (attempt-kept (Untouched c)
            (parse_response_head httparse (section e) e.limits.max_header_count e.lenient) _ k
            (λ parsed. option-kept (Untouched c) parsed _ _ (waits true k) (λ found.
              with_failure-Untouched
                (accept_response (past_section (disable_if found.1.1 e) found.0) found.1.0)
                (accept_response-Untouched found.1.0
                  (then_update _ refl (disable_if-Untouched found.1.1 k)))))))

  read_trailers-Untouched :
      {d : Connection} (httparse : HeadParser)
      → Untouched c d
      → Untouched c (read_trailers httparse d).0
  unfolding read_trailers
  read_trailers-Untouched {d} httparse h =
      let k = section_due-Untouched {c = c} {d = d} false h in
      let e = (section_due d false).0 in
      if-kept (Untouched c) (not (section_due d false).1) _ _ (waits false k) (
        attempt-kept (Untouched c)
          (parse_trailers httparse (section e) e.limits.max_header_count (is_client e.role)) _ k
          (λ parsed. option-kept (Untouched c) parsed _ _ (waits false k) (λ found.
            with_failure-Untouched (finish_peer (past_section e found.0) found.1)
              (finish_peer-Untouched found.1 (then_update _ refl k)))))

-- A poll that leaves all of that as it is.
abbrev Still : (Connection → Outcome Failure Polled) → Type 0
Still again = (d : Connection) → Untouched d (again d).0

module _ (again : Connection → Outcome Failure Polled) (still : Still again) where
  again-Untouched : {c : Connection} (d : Connection) → Untouched c d → Untouched c (again d).0
  again-Untouched d h = record {
    same = (still d).same ∙ h.same;
    reach = Steps-trans h.reach (still d).reach;
  }

  accept_size-Untouched : (d : Connection) (end : ℕ) → Untouched d (accept_size again d end).0
  unfolding accept_size
  accept_size-Untouched d end =
      if-kept (Untouched d) (ltb d.limits.max_head_bytes (end - 2)) _ _ Untouched-self (
        require-kept (Untouched d) (parse_chunk_header line) _ _ Untouched-self (λ found.
          if-kept (Untouched d) (ltb d.limits.max_head_bytes bytes) _ _
            (then_update _ refl Untouched-self)
            (again-Untouched _ (
              choice-kept (Untouched d) (found == 0) _ _ (then_update _ refl Untouched-self)
                (then_update _ refl Untouched-self)))))
    where
      line : Bytes
      line = take (end - 2) (as_slice d.input)

      bytes : ℕ
      bytes = d.cycle.chunk_extension_bytes + (length line - count_while is_ascii_hexdigit line)

  read_size-Untouched : (d : Connection) (scanned : ℕ) → Untouched d (read_size again d scanned).0
  unfolding read_size need_data_or_eof
  read_size-Untouched d scanned =
      option-kept (Untouched d) (find_crlf (as_slice d.input) scanned) _ _
        (if-kept (Untouched d)
          (ltb d.limits.max_head_bytes (incomplete_line_len (as_slice d.input))) _ _ Untouched-self
          (with_failure-Untouched (need_data_or_eof (with_reader d _) _)
            (need_data_or_eof-Untouched _ (then_update _ refl Untouched-self))))
        (λ end. accept_size-Untouched d end)

  read_payload_end-Untouched : (d : Connection) → Untouched d (read_payload_end again d).0
  unfolding read_payload_end
  read_payload_end-Untouched d =
      if-kept (Untouched d) (ltb (length (as_slice d.input)) 2) _ _
        (with_failure-Untouched (need_data_or_eof d _)
          (need_data_or_eof-Untouched _ Untouched-self))
        (if-kept (Untouched d) (not (bytes_eq (take 2 (as_slice d.input)) crlf)) _ _ Untouched-self
          (again-Untouched _ (then_update _ refl Untouched-self)))

  read_chunked-Untouched :
      (httparse : HeadParser) (d : Connection) (chunk : Chunk)
      → Untouched d (read_chunked httparse again d chunk).0
  unfolding read_chunked
  read_chunked-Untouched httparse d (size scanned) = read_size-Untouched d scanned
  read_chunked-Untouched httparse d (payload _ _) =
      with_failure-Untouched (read_payload d _) (read_payload-Untouched _ Untouched-self)
  read_chunked-Untouched httparse d payload_end = read_payload_end-Untouched d
  read_chunked-Untouched httparse d trailers = read_trailers-Untouched httparse Untouched-self

  read_close_delimited-Untouched : (d : Connection) → Untouched d (read_close_delimited d).0
  unfolding read_close_delimited
  read_close_delimited-Untouched d =
      if-kept (Untouched d) (ltb 0 (length (as_slice d.input))) _ _
        (peer_data-Untouched (length (as_slice d.input)) false false Untouched-self)
        (if-kept (Untouched d) d.eof _ _ (finish_peer-Untouched Headers.new Untouched-self)
          Untouched-self)

  read_body-Untouched :
      (httparse : HeadParser) (d : Connection) (r : Reader)
      → Untouched d (read_body httparse again d r).0
  unfolding read_body
  read_body-Untouched httparse d Reader.head = read_head-Untouched httparse Untouched-self
  read_body-Untouched httparse d (Reader.fixed zero) =
      with_failure-Untouched (finish_peer d Headers.new)
        (finish_peer-Untouched Headers.new Untouched-self)
  read_body-Untouched httparse d (Reader.fixed (suc _)) =
      with_failure-Untouched (read_payload d _) (read_payload-Untouched _ Untouched-self)
  read_body-Untouched httparse d Reader.close_delimited =
      with_failure-Untouched (read_close_delimited d) (read_close_delimited-Untouched d)
  read_body-Untouched httparse d (Reader.chunked chunk) = read_chunked-Untouched httparse d chunk

  drained-Untouched : (d : Connection) → Untouched d (with_failure (drained d)).0
  unfolding drained
  drained-Untouched d = with_failure-Untouched (drained d) (
      if-kept (Untouched d) (not (is_empty (as_slice d.input))) _ _ Untouched-self
        (if-kept (Untouched d) d.eof _ _ (peer_closed-Untouched Untouched-self) Untouched-self))

  poll_state-Untouched :
      (httparse : HeadParser) (d : Connection) (s : State)
      → Untouched d (poll_state httparse again d s).0
  unfolding poll_state
  poll_state-Untouched httparse d State.closed = Untouched-self
  poll_state-Untouched httparse d State.idle =
      if-kept (Untouched d) (closes_idle d) _ _
        (with_failure-Untouched (peer_closed (consumed d (length (as_slice d.input))))
          (peer_closed-Untouched (then_update _ refl Untouched-self)))
        (read_body-Untouched httparse d d.cycle.reader)
  poll_state-Untouched httparse d State.might_switch_protocol = Untouched-self
  poll_state-Untouched httparse d State.switched_protocol = Untouched-self
  poll_state-Untouched httparse d State.done = drained-Untouched d
  poll_state-Untouched httparse d State.must_close = drained-Untouched d
  poll_state-Untouched httparse d State.error = Untouched-self
  poll_state-Untouched httparse d State.send_response =
      read_body-Untouched httparse d d.cycle.reader
  poll_state-Untouched httparse d State.send_body = read_body-Untouched httparse d d.cycle.reader

next_event_inner-Untouched :
    (httparse : HeadParser) (fuel : ℕ) (c : Connection)
    → Untouched c (next_event_inner httparse fuel c).0
unfolding next_event_inner
next_event_inner-Untouched httparse zero c = Untouched-self
next_event_inner-Untouched httparse (suc fuel) c =
    poll_state-Untouched (λ d. next_event_inner httparse fuel d)
      (λ d. next_event_inner-Untouched httparse fuel d) httparse c (peer_state c)

settle-Untouched :
    {c : Connection} (o : Outcome Failure Polled) → Untouched c o.0 → Untouched c (settle o).0
unfolding settle report
settle-Untouched (d, ok (Polled.event e)) h = h
settle-Untouched (d, ok (Polled.body_data n s t)) h = then_update _ refl h
settle-Untouched (d, ok Polled.need_data) h = h
settle-Untouched (d, ok Polled.paused) h = h
settle-Untouched (d, err (failed e)) h =
    then_step _ refl (further here (Step.poison (peer d.role))) h
settle-Untouched (d, err (panicked m)) h = h

-- A poll, whatever it returns, leaves the role, the limits, the leniency, the EOF mark and the number of
-- bytes held as they are, and its joint state is one that events, errors and the end of keep-alive
-- lead to.
pub next_event-Untouched :
    (httparse : HeadParser) (c : Connection) → Untouched c (next_event httparse c).0
unfolding next_event
next_event-Untouched httparse c =
    settle-Untouched (next_event_inner httparse event_fuel c)
      (next_event_inner-Untouched httparse event_fuel c)
