-- ===== src/Connection/Receive/Progress/Poll.antt =====
-- crates/h11r/src/connection/receive.rs: what a poll leaves to do, whatever it reads.
use h11r.Prelude.{
  ℕ, zero, suc, ◌+◌, ◌-◌, ◌*◌, ◌≤◌, ◌≡◌, refl, ap, ◌∙◌, arith, Bool, true, false, not, Bytes,
  length, take, ◌==◌, ltb, is_empty, bytes_eq, if◌then◌else◌, ok, err,
}
use h11r.State.{State, state_eq}
use h11r.Headers
use h11r.Events.{Event}
use h11r.Connection.{Connection, Outcome, is_client, peer_state}
use h11r.Connection.Frame.{choice-kept}
use h11r.Connection.Receive.Payload.{
  Polled, event, with_reader, finish_peer, need_data_or_eof, peer_closed, read_payload,
}
use h11r.Connection.Receive.Accept.{
  with_failure, section_due, section, wait_for_section, past_section,
}
use h11r.Connection.Receive.Events.{
  accept_size, read_size, read_payload_end, read_trailers, read_chunked, read_close_delimited,
  read_body, drained, closes_idle, consumed, poll_state, next_event_inner,
}
use h11r.Connection.Receive.Progress.{
  reader_weight, weight, Left, Moves, with_failure-Moves, if-Moves, if-Moves_by, attempt-Moves,
  require-Moves, option-Moves, peer_data-Moves, finish_peer-Moves, peer_closed-Moves,
  need_data_or_eof-Moves, some_left, read_payload-Moves,
}
use h11r.Connection.Receive.Progress.Accepts.{wait_for_section-Moves}
use h11r.Connection.Receive.Progress.Heads.{length-consume, section_due-weight, read_head-Moves}
use h11r.Wire.Buffer.{Reader, Chunk, size, payload, payload_end, trailers, as_slice}
use h11r.Wire.Section.{find_crlf, incomplete_line_len}
use h11r.Wire.Section.Crlf.{find_crlf-some}
use h11r.Wire.Chunked.{parse_chunk_header}
use h11r.Wire.Elements.{count_while}
use h11r.Wire.Head.{crlf}
use h11r.Wire.Target.{is_ascii_hexdigit}
use h11r.Wire.Parse.{HeadParser, Failure, parse_trailers}
use h11r.Wire.Parse.Ends.{EndsWithin}

more-Moves : {E : Type 0} {n m : ℕ} (o : Outcome E Polled) → m ≤ n → Moves m o → Moves n o
more-Moves {n = n} {m = m} (d, ok (event e)) le k = record { moves = by_event e k.moves }
  where
    by_event : (e : Event) → Left e (weight d) m → Left e (weight d) n
    by_event (Event.request _) h = omega (arith, h, le)
    by_event (Event.informational_response _) h = omega (arith, h, le)
    by_event (Event.response _) h = omega (arith, h, le)
    by_event (Event.body_data _) h = omega (arith, h, le)
    by_event (Event.end_of_message _) h = omega (arith, h, le)
    by_event Event.connection_closed h = omega (arith, h, le)
more-Moves (d, ok (Polled.body_data count s t)) le k = record { moves = omega (arith, k.moves, le) }
more-Moves (d, ok Polled.need_data) le k = record { moves = omega (arith, k.moves, le) }
more-Moves (d, ok Polled.paused) le k = record { moves = omega (arith, k.moves, le) }
more-Moves (d, err e) le k = record { moves = tt }

in_body-weight :
    (d : Connection)
    → state_eq (peer_state d) State.send_body ≡ true
    → 2 * length (as_slice d.input) + 1 ≤ weight d
in_body-weight d h = rw h (omega arith)

finish_here-Moves :
    (d : Connection) (found : Headers.Headers)
    → Moves (weight d) (with_failure (finish_peer d found))
finish_here-Moves d found =
    with_failure-Moves (finish_peer d found) (finish_peer-Moves d found (in_body-weight d))

waits-Moves :
    {n : ℕ} (d : Connection) (skip : Bool)
    → weight d ≤ n
    → Moves n (with_failure (wait_for_section d skip))
waits-Moves d skip le =
    with_failure-Moves (wait_for_section d skip) (wait_for_section-Moves d skip le)

read_trailers-Moves :
    (httparse : HeadParser) (d : Connection) → Moves (weight d) (read_trailers httparse d)
unfolding read_trailers
read_trailers-Moves httparse d =
    let e = (section_due d false).0 in
    let (same, _) = section_due-weight d false in
    if-Moves (not (section_due d false).1) _ _ (waits-Moves e false (omega (arith, same))) (
      attempt-Moves e
        (parse_trailers httparse (section e) e.limits.max_header_count (is_client e.role)) _
        (λ parsed is_parsed.
          option-Moves parsed _ _ (waits-Moves e false (omega (arith, same))) (λ found is_found.
            with_failure-Moves (finish_peer (past_section e found.0) found.1) (
              finish_peer-Moves (past_section e found.0) found.1 (λ in_body.
                let room = in_body-weight e in_body in
                omega (arith, room, same, length-consume e.input found.0))))))

-- A poll that leaves less than it found.
abbrev Uses : (Connection → Outcome Failure Polled) → Type 0
Uses again = (d : Connection) → Moves (weight d) (again d)

module _ (again : Connection → Outcome Failure Polled) (uses : Uses again) where
  again-Moves : {n : ℕ} (d : Connection) → weight d ≤ n → Moves n (again d)
  again-Moves d le = more-Moves (again d) le (uses d)

  accept_size-Moves :
      (d : Connection) (end : ℕ)
      → (1 ≤ length (as_slice d.input)) × (2 ≤ end)
      → Moves (weight d) (accept_size again d end)
  unfolding accept_size
  accept_size-Moves d end (some_bytes, whole) =
      if-Moves (ltb d.limits.max_head_bytes (end - 2)) _ _ (record { moves = tt })
        (require-Moves d (parse_chunk_header line) _ _ (λ found _.
          if-Moves (ltb d.limits.max_head_bytes bytes) _ _ (record { moves = tt })
            (again-Moves
              (if found == 0
                then with_reader (past_section counted end) (Reader.chunked trailers)
                else with_reader (consumed counted end) (Reader.chunked (payload found true)))
              (choice-kept (λ e. weight e ≤ weight d) (found == 0) _ _
                (omega (arith, some_bytes, whole, length-consume d.input end))
                (omega (arith, some_bytes, whole, length-consume d.input end))))))
    where
      line : Bytes
      line = take (end - 2) (as_slice d.input)

      bytes : ℕ
      bytes = d.cycle.chunk_extension_bytes + (length line - count_while is_ascii_hexdigit line)

      counted : Connection
      counted = record d { cycle = record d.cycle { chunk_extension_bytes = bytes } }

  read_size-Moves : (d : Connection) (scanned : ℕ) → Moves (weight d) (read_size again d scanned)
  unfolding read_size
  read_size-Moves d scanned =
      option-Moves (find_crlf (as_slice d.input) scanned) _ _
        (if-Moves (ltb d.limits.max_head_bytes (incomplete_line_len (as_slice d.input))) _ _
          (record { moves = tt })
          (with_failure-Moves (need_data_or_eof (with_reader d _) _)
            (need_data_or_eof-Moves (with_reader d _) _ (omega arith))))
        (λ end is_found.
          accept_size-Moves d end (find_crlf-some (as_slice d.input) scanned end is_found))

  read_payload_end-Moves : (d : Connection) → Moves (weight d) (read_payload_end again d)
  unfolding read_payload_end
  read_payload_end-Moves d =
      if-Moves (ltb (length (as_slice d.input)) 2) _ _
        (with_failure-Moves (need_data_or_eof d _) (need_data_or_eof-Moves d _ (omega arith)))
        (if-Moves (not (bytes_eq (take 2 (as_slice d.input)) crlf)) _ _ (record { moves = tt })
          (again-Moves (with_reader (consumed d 2) (Reader.chunked (size 0)))
            (omega (arith, length-consume d.input 2))))

  payload_Moves :
      (d : Connection) (m : _)
      → some_left d.cycle.reader ≡ true
      → Moves (weight d) (with_failure (read_payload d m))
  payload_Moves d m h = with_failure-Moves (read_payload d m) (read_payload-Moves d m h)

  read_chunked-Moves :
      (httparse : HeadParser) (d : Connection) (chunk : Chunk)
      → d.cycle.reader ≡ Reader.chunked chunk
      → Moves (weight d) (read_chunked httparse again d chunk)
  unfolding read_chunked
  read_chunked-Moves httparse d (size scanned) h = read_size-Moves d scanned
  read_chunked-Moves httparse d (payload _ _) h = payload_Moves d _ (ap some_left h)
  read_chunked-Moves httparse d payload_end h = read_payload_end-Moves d
  read_chunked-Moves httparse d trailers h = read_trailers-Moves httparse d

  read_close_delimited-Moves :
      (d : Connection) → Moves (weight d) (with_failure (read_close_delimited d))
  unfolding read_close_delimited
  read_close_delimited-Moves d = with_failure-Moves (read_close_delimited d) (
      if-Moves_by (ltb 0 (length (as_slice d.input))) _ _
        (λ some_bytes.
          peer_data-Moves d (length (as_slice d.input)) false false (ground (arith, some_bytes)))
        (λ _.
          if-Moves d.eof _ _ (finish_peer-Moves d Headers.new (in_body-weight d))
            (record { moves = omega arith })))

  read_body-Moves :
      (httparse : HeadParser) (d : Connection) (r : Reader)
      → EndsWithin httparse
      → d.cycle.reader ≡ r
      → Moves (weight d) (read_body httparse again d r)
  unfolding read_body
  read_body-Moves httparse d Reader.head w h = read_head-Moves httparse d w (ap reader_weight h)
  read_body-Moves httparse d (Reader.fixed zero) w h = finish_here-Moves d Headers.new
  read_body-Moves httparse d (Reader.fixed (suc n)) w h =
      payload_Moves d _ (ap some_left h ∙ ground arith)
  read_body-Moves httparse d Reader.close_delimited w h = read_close_delimited-Moves d
  read_body-Moves httparse d (Reader.chunked chunk) w h = read_chunked-Moves httparse d chunk h

  drained-Moves : (d : Connection) → Moves (weight d) (with_failure (drained d))
  unfolding drained
  drained-Moves d = with_failure-Moves (drained d) (
      if-Moves (not (is_empty (as_slice d.input))) _ _ (record { moves = omega arith })
        (if-Moves d.eof _ _ (peer_closed-Moves d (omega arith)) (record { moves = omega arith })))

  poll_state-Moves :
      (httparse : HeadParser) (d : Connection) (s : State)
      → EndsWithin httparse
      → Moves (weight d) (poll_state httparse again d s)
  unfolding poll_state
  poll_state-Moves httparse d State.closed w = record { moves = omega arith }
  poll_state-Moves httparse d State.idle w =
      if-Moves (closes_idle d) _ _
        (with_failure-Moves (peer_closed (consumed d (length (as_slice d.input)))) (
          peer_closed-Moves (consumed d (length (as_slice d.input)))
            (omega (arith, length-consume d.input (length (as_slice d.input))))))
        (read_body-Moves httparse d d.cycle.reader w refl)
  poll_state-Moves httparse d State.might_switch_protocol w = record { moves = omega arith }
  poll_state-Moves httparse d State.switched_protocol w = record { moves = omega arith }
  poll_state-Moves httparse d State.done w = drained-Moves d
  poll_state-Moves httparse d State.must_close w = drained-Moves d
  poll_state-Moves httparse d State.error w = record { moves = tt }
  poll_state-Moves httparse d State.send_response w =
      read_body-Moves httparse d d.cycle.reader w refl
  poll_state-Moves httparse d State.send_body w = read_body-Moves httparse d d.cycle.reader w refl

pub next_event_inner-Moves :
    (httparse : HeadParser) (fuel : ℕ) (c : Connection)
    → EndsWithin httparse
    → Moves (weight c) (next_event_inner httparse fuel c)
unfolding next_event_inner
next_event_inner-Moves httparse zero c w = record { moves = tt }
next_event_inner-Moves httparse (suc fuel) c w =
    poll_state-Moves (λ d. next_event_inner httparse fuel d)
      (λ d. next_event_inner-Moves httparse fuel d w) httparse c (peer_state c) w
