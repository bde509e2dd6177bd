-- ===== src/Connection/Receive/Accept.antt =====
-- crates/h11r/src/connection/receive.rs: heads are parsed and accepted.
use h11r.Prelude.{
  ℕ, min, Bool, true, false, not, ◌&&◌, ◌||◌, Option, none, some, List, [], Bytes, length, take,
  ltb, leb, if◌then◌else◌, Result, ok, err, is_ok, map_err,
}
use h11r.State.{State, state_eq, disable_keep_alive}
use h11r.Status.{is_informational}
use h11r.Events.{Request, Response, Event}
use h11r.Connection.{
  Connection, Outcome, and_then, attempt, require, is_client, local_state, advance_peer,
  request_event, content_forbidden, record_request, record_informational, record_response,
  informational_event, final_response_event, response_has_no_body,
}
use h11r.Connection.Send.{is_close_delimited}
use h11r.Connection.Receive.Payload.{Polled, event, with_reader, need_data_or_eof}
use h11r.Wire.Buffer.{Framing, reader, as_slice, consume}
use h11r.Wire.Errors.{RemoteProtocolError, remote}
use h11r.Wire.Section.{fresh, due, start_line_unfinished}
use h11r.Wire.Target.{valid_request_target}
use h11r.Wire.Fields
use h11r.Wire.Fields.{Version, is_http11, Fields, scan, valid_host, persistent}
use h11r.Wire.Lists.{upgrade_protocols}
use h11r.Wire.Parse.{HeadParser, Failure, failed, parse_request_head, parse_response_head}

abbrev pub with_failure : {A : Type 0} → Outcome RemoteProtocolError A → Outcome Failure A
with_failure (c, r) = (c, map_err failed r)

-- The field section is due, and the cycle's progress is kept.
unfoldable pub section_due : Connection → Bool → Connection × Bool
section_due c skip_leading_empty =
    let bytes = as_slice c.input in
    let (progress, is_due) = due c.cycle.progress bytes skip_leading_empty in
    if c.eof || ltb c.limits.max_head_bytes (length bytes)
    then (c, true)
    else (record c { cycle = record c.cycle { progress = progress } }, is_due)

abbrev pub section : Connection → Bytes
section c = let bytes = as_slice c.input in take (min (length bytes) c.limits.max_head_bytes) bytes

unfoldable pub wait_for_section : Connection → Bool → Outcome RemoteProtocolError Polled
unfolding need_data_or_eof
wait_for_section c skip_leading_empty =
    if leb (length (as_slice c.input)) c.limits.max_head_bytes
    then need_data_or_eof c
        (if skip_leading_empty then "unexpected EOF in HTTP head" else "unexpected EOF in trailers")
    else if not skip_leading_empty
    then (c, err (remote "HTTP trailers exceed max_head_bytes" (some 400)))
    else let status = if start_line_unfinished (section c) then 414 else 431 in
      (
        c,
        err (
            remote "HTTP head exceeds max_head_bytes"
              (if is_client c.role then none else some status)),
      )

abbrev pub or_none : Option (List Bytes) → List Bytes
or_none none = []
or_none (some protocols) = protocols

abbrev pub offered_upgrades : Request → Fields → List Bytes
offered_upgrades request fields =
    if is_http11 request.http_version && fields.upgrade
    then or_none (upgrade_protocols request.headers)
    else []

unfoldable pub accept_request : Connection → Request → Outcome RemoteProtocolError Polled
accept_request c request =
    let version = request.http_version in
    let fields = scan request.headers in
    if not (valid_request_target request.method.as_bytes request.target)
    then (c, err (remote "invalid request target" (some 400)))
    else if not (valid_host fields version)
    then (c, err (remote "request has a missing, duplicate, or invalid Host field" (some 400)))
    else attempt c (Fields.framing fields version false) (λ framing.
      if content_forbidden request.method framing
      then (c, err (remote "CONNECT and TRACE requests cannot carry content" (some 400)))
      else let upgrades = offered_upgrades request fields in
        and_then (advance_peer c (request_event request.method upgrades)) (λ d _.
          let recorded = record_request d request.method version fields framing upgrades in
          (
            with_reader (record recorded { peer_version = some version }) (reader framing),
            ok (event (Event.request request)),
          )))

abbrev pub disable_if : Bool → Connection → Connection
disable_if b c = if b then record c { state = disable_keep_alive c.state } else c

-- A 1xx response.
unfoldable pub accept_informational :
    Connection → Response → Result RemoteProtocolError Framing → Outcome RemoteProtocolError Polled
accept_informational c response framing =
    require c (informational_event c response.status response.http_version response.headers)
      (remote "invalid 101 Upgrade response" none)
      (λ e. and_then (advance_peer c e) (λ d _.
        let recorded = record_informational (disable_if (not (is_ok framing)) d) response.status in
        (
          record recorded { peer_version = some response.http_version },
          ok (event (Event.informational_response response)),
        )))

-- The framing of a final response, behind what it records of the connection.
unfoldable pub settle_framing :
    Connection → Response → Result RemoteProtocolError Framing → Outcome RemoteProtocolError Polled
settle_framing c response framing =
    let bodyless = response_has_no_body c response.status in
    and_then
      (if bodyless
        then (disable_if (not (is_ok framing)) c, ok (Framing.fixed 0))
        else (c, framing))
      (λ d chosen. (
        with_reader (disable_if (is_close_delimited chosen) d) (reader chosen),
        ok (event (Event.response response)),
      ))

unfoldable pub accept_final :
    Connection
    → Response
    → Fields
    → Result RemoteProtocolError Framing
    → Outcome RemoteProtocolError Polled
unfolding settle_framing
accept_final c response fields framing =
    and_then (advance_peer c (final_response_event c response.status)) (λ d _.
      let recorded =
        record_response (disable_if (not (persistent fields response.http_version)) d) in
      settle_framing (record recorded { peer_version = some response.http_version }) response
        framing)

unfoldable pub accept_response : Connection → Response → Outcome RemoteProtocolError Polled
unfolding accept_informational accept_final
accept_response c response =
    let fields = scan response.headers in
    let framing = Fields.framing fields response.http_version true in
    if state_eq (local_state c) State.idle
    then (c, err (remote "response received without an outstanding request" none))
    else if is_informational response.status
    then accept_informational c response framing
    else accept_final c response fields framing

abbrev pub past_section : Connection → ℕ → Connection
past_section c end = record c {
  input = consume c.input end;
  cycle = record c.cycle { progress = fresh };
}

unfoldable pub read_head : HeadParser → Connection → Outcome Failure Polled
unfolding section_due wait_for_section accept_request accept_response
read_head httparse c =
    let (d, is_due) = section_due c true in
    if not is_due
    then with_failure (wait_for_section d true)
    else if not (is_client d.role)
    then attempt d (parse_request_head httparse (section d) d.limits.max_header_count) (λ parsed.
      elim parsed [
        | none ↦ with_failure (wait_for_section d true)
        | some (end, request) ↦ with_failure (accept_request (past_section d end) request)
      ])
    else attempt d (parse_response_head httparse (section d) d.limits.max_header_count d.lenient)
        (λ parsed. elim parsed [
          | none ↦ with_failure (wait_for_section d true)
          | some (end, (response, dropped)) ↦
              with_failure (accept_response (past_section (disable_if dropped d) end) response)
        ])
