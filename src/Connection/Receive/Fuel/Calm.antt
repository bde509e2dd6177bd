-- ===== src/Connection/Receive/Fuel/Calm.antt =====
-- crates/h11r/src/connection/receive.rs: a poll does not panic.
use h11r.Prelude.{
  ℕ, zero, suc, ◌+◌, ◌-◌, ◌≤◌, ◌<◌, refl, arith, Bool, true, false, not, Option, none, some, Bytes,
  length, take, ltb, ◌==◌, bytes_eq, if◌then◌else◌, Result, ok, err,
}
use h11r.State.{State}
use h11r.Headers
use h11r.Connection.{Connection, Outcome, attempt, require, is_client, peer_state}
use h11r.Connection.Receive.Payload.{
  Polled, with_reader, finish_peer, need_data_or_eof, peer_closed, read_payload,
}
use h11r.Connection.Receive.Accept.{
  with_failure, section_due, section, wait_for_section, past_section, disable_if, accept_request,
  accept_response, read_head,
}
use h11r.Connection.Receive.Events.{
  accept_size, read_size, read_payload_end, read_trailers, read_chunked, read_close_delimited,
  read_body, drained, closes_idle, consumed, poll_state, next_event_inner, event_fuel, report,
  settle, next_event,
}
use h11r.Connection.Receive.Fuel.{rank, rank-le}
use h11r.Wire.Buffer.{Reader, size, payload, payload_end, trailers, as_slice}
use h11r.Wire.Chunked.{parse_chunk_header}
use h11r.Wire.Elements.{count_while}
use h11r.Wire.Errors.{RemoteProtocolError}
use h11r.Wire.Head.{crlf}
use h11r.Wire.Section.{find_crlf, incomplete_line_len}
use h11r.Wire.Target.{is_ascii_hexdigit}
use h11r.Wire.Parse.{
  HeadParser, Failure, failed, panicked, parse_request_head, parse_response_head, parse_trailers,
}
use h11r.Wire.Parse.Calm.{
  ValidMethods, Calm, parse_request_head-Calm, parse_response_head-Calm, parse_trailers-Calm,
}

with_failure-Calm : {A : Type 0} (o : Outcome RemoteProtocolError A) → Calm (with_failure o).1
with_failure-Calm (c, ok a) = record { calm = refl }
with_failure-Calm (c, err e) = record { calm = refl }

if-Calm :
    {A : Type 0} (b : Bool) (o p : Outcome Failure A)
    → Calm o.1
    → Calm p.1
    → Calm (if b then o else p).1
if-Calm true o p h k = h
if-Calm false o p h k = k

attempt-Calm :
    {A B : Type 0} (c : Connection) (r : Result Failure A) (next : A → Outcome Failure B)
    → Calm r
    → ((a : A) → Calm (next a).1)
    → Calm (attempt c r next).1
attempt-Calm c (ok a) next h k = k a
attempt-Calm c (err (failed e)) next h k = record { calm = refl }
attempt-Calm c (err (panicked message)) next h k = record { calm = h.calm }

require-Calm :
    {A B : Type 0} (c : Connection) (o : Option A) (e : RemoteProtocolError)
    (next : A → Outcome Failure B)
    → ((a : A) → Calm (next a).1)
    → Calm (require c o (failed e) next).1
require-Calm c (some a) e next k = k a
require-Calm c none e next k = record { calm = refl }

option-Calm :
    {A B : Type 0} (r : Option A) (x : Outcome Failure B) (f : A → Outcome Failure B)
    → Calm x.1
    → ((a : A) → Calm (f a).1)
    → Calm (elim r as (λ _. Outcome Failure B) [ none ↦ x | some a ↦ f a ]).1
option-Calm none x f h k = h
option-Calm (some a) x f h k = k a

module _ (httparse : HeadParser) where
  read_head-Calm : (d : Connection) → ValidMethods httparse → Calm (read_head httparse d).1
  unfolding read_head
  read_head-Calm d valid =
      let e = (section_due d true).0 in
      let waits = with_failure-Calm (wait_for_section e true) in
      if-Calm (not (section_due d true).1) _ _ waits (
        if-Calm (not (is_client e.role)) _ _
          (attempt-Calm e (parse_request_head httparse (section e) e.limits.max_header_count) _
            (parse_request_head-Calm httparse (section e) e.limits.max_header_count valid)
            (λ parsed.
              option-Calm parsed _ _ waits
                (λ found. with_failure-Calm (accept_request (past_section e found.0) found.1))))
          (attempt-Calm e
            (parse_response_head httparse (section e) e.limits.max_header_count e.lenient) _
            (parse_response_head-Calm httparse (section e) e.limits.max_header_count e.lenient)
            (λ parsed. option-Calm parsed _ _ waits (λ found.
              with_failure-Calm
                (accept_response (past_section (disable_if found.1.1 e) found.0) found.1.0)))))

  read_trailers-Calm : (d : Connection) → Calm (read_trailers httparse d).1
  unfolding read_trailers
  read_trailers-Calm d =
      let e = (section_due d false).0 in
      let waits = with_failure-Calm (wait_for_section e false) in
      if-Calm (not (section_due d false).1) _ _ waits (
        attempt-Calm e
          (parse_trailers httparse (section e) e.limits.max_header_count (is_client e.role)) _
          (parse_trailers-Calm httparse (section e) e.limits.max_header_count (is_client e.role))
          (λ parsed.
            option-Calm parsed _ _ waits
              (λ found. with_failure-Calm (finish_peer (past_section e found.0) found.1))))

-- A poll that does not panic on the readers of a rank below `n`.
abbrev CalmBelow : ℕ → (Connection → Outcome Failure Polled) → Type 0
CalmBelow n again = (d : Connection) → rank d.cycle.reader < n → Calm (again d).1

again-Calm :
    (again : Connection → Outcome Failure Polled) (b : Bool) (c d : Connection)
    → Calm (again c).1
    → Calm (again d).1
    → Calm (again (if b then c else d)).1
again-Calm again true c d h k = h
again-Calm again false c d h k = k

module _ (again : Connection → Outcome Failure Polled) (n : ℕ) (below : CalmBelow n again) where
  accept_size-Calm : (d : Connection) (end : ℕ) → 1 ≤ n → Calm (accept_size again d end).1
  unfolding accept_size rank
  accept_size-Calm d end le =
      if-Calm (ltb d.limits.max_head_bytes (end - 2)) _ _ (record { calm = refl })
        (require-Calm d (parse_chunk_header line) _ _ (λ found.
          if-Calm (ltb d.limits.max_head_bytes bytes) _ _ (record { calm = refl })
            (again-Calm again (found == 0)
              (with_reader (past_section counted end) (Reader.chunked trailers))
              (with_reader (consumed counted end) (Reader.chunked (payload found true)))
              (below (with_reader (past_section counted end) (Reader.chunked trailers)) le)
              (below (with_reader (consumed counted end) (Reader.chunked (payload found true)))
                le))))
    where
      line : Bytes
      line = take (end - 2) (as_slice d.input)

      bytes : ℕ
      bytes = d.cycle.chunk_extension_bytes + (length line - count_while is_ascii_hexdigit line)

      counted : Connection
      counted = record d { cycle = record d.cycle { chunk_extension_bytes = bytes } }

  read_size-Calm : (d : Connection) (scanned : ℕ) → 1 ≤ n → Calm (read_size again d scanned).1
  unfolding read_size
  read_size-Calm d scanned le =
      option-Calm (find_crlf (as_slice d.input) scanned) _ _
        (if-Calm (ltb d.limits.max_head_bytes (incomplete_line_len (as_slice d.input))) _ _
          (record { calm = refl }) (with_failure-Calm (need_data_or_eof (with_reader d _) _)))
        (λ end. accept_size-Calm d end le)

  read_body-Calm :
      (httparse : HeadParser) (d : Connection) (r : Reader)
      → ValidMethods httparse
      → rank r ≤ n
      → Calm (read_body httparse again d r).1
  unfolding read_body read_chunked read_payload_end rank
  read_body-Calm httparse d Reader.head valid le = read_head-Calm httparse d valid
  read_body-Calm httparse d (Reader.fixed zero) valid le =
      with_failure-Calm (finish_peer d Headers.new)
  read_body-Calm httparse d (Reader.fixed (suc _)) valid le = with_failure-Calm (read_payload d _)
  read_body-Calm httparse d Reader.close_delimited valid le =
      with_failure-Calm (read_close_delimited d)
  read_body-Calm httparse d (Reader.chunked (payload _ _)) valid le =
      with_failure-Calm (read_payload d _)
  read_body-Calm httparse d (Reader.chunked trailers) valid le = read_trailers-Calm httparse d
  read_body-Calm httparse d (Reader.chunked (size scanned)) valid le = read_size-Calm d scanned le
  read_body-Calm httparse d (Reader.chunked payload_end) valid le =
      if-Calm (ltb (length (as_slice d.input)) 2) _ _ (with_failure-Calm (need_data_or_eof d _)) (
        if-Calm (not (bytes_eq (take 2 (as_slice d.input)) crlf)) _ _ (record { calm = refl })
          (below (with_reader (consumed d 2) (Reader.chunked (size 0))) (omega (arith, le))))

  poll_state-Calm :
      (httparse : HeadParser) (d : Connection) (s : State)
      → ValidMethods httparse
      → rank d.cycle.reader ≤ n
      → Calm (poll_state httparse again d s).1
  unfolding poll_state
  poll_state-Calm httparse d State.closed valid le = record { calm = refl }
  poll_state-Calm httparse d State.idle valid le =
      if-Calm (closes_idle d) _ _
        (with_failure-Calm (peer_closed (consumed d (length (as_slice d.input)))))
        (read_body-Calm httparse d d.cycle.reader valid le)
  poll_state-Calm httparse d State.might_switch_protocol valid le = record { calm = refl }
  poll_state-Calm httparse d State.switched_protocol valid le = record { calm = refl }
  poll_state-Calm httparse d State.done valid le = with_failure-Calm (drained d)
  poll_state-Calm httparse d State.must_close valid le = with_failure-Calm (drained d)
  poll_state-Calm httparse d State.error valid le = record { calm = refl }
  poll_state-Calm httparse d State.send_response valid le =
      read_body-Calm httparse d d.cycle.reader valid le
  poll_state-Calm httparse d State.send_body valid le =
      read_body-Calm httparse d d.cycle.reader valid le

next_event_inner-Calm :
    (httparse : HeadParser) (fuel : ℕ)
    → ValidMethods httparse
    → CalmBelow fuel (λ c. next_event_inner httparse fuel c)
unfolding next_event_inner
next_event_inner-Calm httparse zero valid c lt = absurd (omega arith)
next_event_inner-Calm httparse (suc fuel) valid c lt =
    poll_state-Calm (λ d. next_event_inner httparse fuel d) fuel
      (next_event_inner-Calm httparse fuel valid) httparse c (peer_state c) valid (omega arith)

settle-Calm : (o : Outcome Failure Polled) → Calm o.1 → Calm (settle o).1
unfolding settle report
settle-Calm (c, ok (Polled.event e)) h = record { calm = refl }
settle-Calm (c, ok (Polled.body_data count s t)) h = record { calm = refl }
settle-Calm (c, ok Polled.need_data) h = record { calm = refl }
settle-Calm (c, ok Polled.paused) h = record { calm = refl }
settle-Calm (c, err (failed e)) h = record { calm = refl }
settle-Calm (c, err (panicked message)) h = record { calm = h.calm }

-- If `httparse` takes only tokens for methods, then a poll does not panic, whatever the connection: it neither
-- meets the `expect` on the method nor runs out of its three calls.
pub next_event-Calm :
    (httparse : HeadParser) (c : Connection)
    → ValidMethods httparse
    → Calm (next_event httparse c).1
unfolding next_event
next_event-Calm httparse c valid =
    settle-Calm (next_event_inner httparse event_fuel c)
      (next_event_inner-Calm httparse event_fuel valid c (omega (arith, rank-le c.cycle.reader)))
