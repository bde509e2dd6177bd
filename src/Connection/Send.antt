-- ===== src/Connection/Send.antt =====
-- crates/h11r/src/connection/send.rs: local events are written.
-- `validate_request` is that of crates/h11r/src/wire/target.rs.
use h11r.Prelude.{
  ◌+◌, Bool, true, false, not, ◌&&◌, ◌||◌, Option, none, some, List, [], Bytes, codes, length,
  is_empty, ltb, ◌==◌, if◌then◌else◌, Result, ok, err, on_ok, map_err,
}
use h11r.State.{State, state_eq, StateEvent, disable_keep_alive}
use h11r.Headers.{Headers, push, retain}
use h11r.Status.{StatusCode, is_informational}
use h11r.Events.{Request, Response}
use h11r.Connection.{
  Connection, Outcome, and_then, attempt, is_client, peer_state, advance_local, opens_tunnel,
  response_has_no_body, final_response_event, informational_event, record_request,
  record_informational, record_response, request_event, content_forbidden,
}
use h11r.Wire.Buffer.{Framing, Reader, as_slice}
use h11r.Wire.Syntax.{eq_ignore_ascii_case}
use h11r.Wire.Errors.{LocalProtocolError, local, RemoteProtocolError}
use h11r.Wire.Fields
use h11r.Wire.Fields.{
  Version, http10, http11, is_http11, Fields, scan, check_send, valid_host, has_framing,
  has_transfer_encoding, is_fixed_zero,
}
use h11r.Wire.Lists.{
  has_framing_fields, set_connection_option, upgrade_protocols, validate_headers, validate_reason,
}
use h11r.Wire.Head.{serialize_request, serialize_response}
use h11r.Wire.Target.{valid_request_target}

abbrev pub is_http10_peer : Option Version → Bool
is_http10_peer (some http10) = true
is_http10_peer _ = false

abbrev pub is_http11_peer : Option Version → Bool
is_http11_peer (some http11) = true
is_http11_peer _ = false

unfoldable pub validate_request : Request → Fields → Result LocalProtocolError (Unit {0})
validate_request request fields =
    if not (valid_request_target request.method.as_bytes request.target)
    then err (local "invalid request target for the request method")
    else on_ok (validate_headers request.headers) (λ _. on_ok (check_send fields) (λ _.
      if not (valid_host fields http11)
      then err (local "request has a missing, duplicate, or invalid Host field")
      else ok tt))

abbrev pub as_local : {A : Type 0} → Result RemoteProtocolError A → Result LocalProtocolError A
as_local r = map_err (λ e. local e.message) r

abbrev pub option_or {ℓ κ} : {A : Type ℓ} {E : Type κ} → Option A → E → Result E A
option_or none e = err e
option_or (some a) e = ok a

-- `send_request` up to the state: the framing and the protocols the request offers.
unfoldable pub check_request : Request → Fields → Result LocalProtocolError (Framing × List Bytes)
check_request request fields = on_ok (validate_request request fields) (λ _.
    on_ok (as_local (Fields.framing fields request.http_version false)) (λ framing.
      if content_forbidden request.method framing
      then err (local "CONNECT and TRACE requests cannot carry content")
      else if is_fixed_zero framing && fields.expect_continue
      then err (local "100-continue requires request content")
      else on_ok (option_or (upgrade_protocols request.headers) (local "invalid Upgrade field"))
          (λ upgrades.
            if fields.upgrade && is_empty upgrades
            then err (local "Connection: upgrade requires an Upgrade field")
            else ok (framing, (if is_http11 request.http_version then upgrades else [])))))

unfoldable pub send_request : Connection → Request → Outcome LocalProtocolError Bytes
send_request c request =
    if not (is_client c.role)
    then (c, err (local "only a client connection can send a request"))
    else if not (is_empty (as_slice c.input))
    then (c, err (local "the peer sent bytes before any request"))
    else let fields = scan request.headers in
      attempt c (check_request request fields) (λ checked.
        and_then (advance_local c (request_event request.method checked.1)) (λ d _.
          let recorded =
            record_request d request.method request.http_version fields checked.0 checked.1 in
          (
            record recorded { cycle = record recorded.cycle { writer = some checked.0 } },
            ok (serialize_request request fields.host_at),
          )))

unfoldable pub check_informational : Connection → Response → Result LocalProtocolError StateEvent
check_informational c response = on_ok (validate_headers response.headers) (λ _.
    on_ok (validate_reason response.reason) (λ _. on_ok (check_send (scan response.headers)) (λ _.
      if has_framing_fields response.headers
      then err (local "informational responses cannot carry framing fields")
      else option_or (informational_event c response.status response.http_version response.headers)
          (local "invalid 101 Upgrade response"))))

unfoldable pub send_informational_response :
    Connection → Response → Outcome LocalProtocolError Bytes
send_informational_response c response =
    if is_client c.role || not (is_informational response.status)
    then (c, err (local "an informational response requires a server role and 1xx status"))
    else if is_http10_peer c.peer_version
    then (c, err (local "a 1xx response cannot be sent to an HTTP/1.0 client"))
    else attempt c (check_informational c response) (λ event.
      and_then (advance_local c event) (λ d _. (
        record_informational d response.status,
        ok (
            serialize_response response.http_version response.status response.reason
              response.headers),
      )))

abbrev pub names_no_protocol : Option (List Bytes) → Bool
names_no_protocol none = true
names_no_protocol (some protocols) = is_empty protocols

unfoldable pub declared_framing : Fields → Bool → Version → Result LocalProtocolError Framing
declared_framing fields bodyless version = as_local (Fields.framing fields version bodyless)

-- The headers once a chunked response to an HTTP/1.0 peer has lost its coding.
unfoldable pub strip_codings : Fields → Bool → Bool → Headers → Result LocalProtocolError Headers
strip_codings fields bodyless stripped headers =
    if stripped
    then on_ok (declared_framing fields bodyless http11) (λ _.
      ok (retain headers (λ name _. not (eq_ignore_ascii_case name (codes "transfer-encoding")))))
    else ok headers

-- `let framing = if bodyless ..`: the framing, and the headers that state it.
unfoldable pub choose_framing :
    Fields
    → StatusCode
    → Version
    → Bool
    → Bool
    → Bool
    → Headers
    → Result LocalProtocolError (Headers × Framing)
choose_framing fields status version bodyless declared is_11 headers =
    let stated = declared_framing fields bodyless version in
    if bodyless
    then (if declared
        then on_ok stated (λ _. ok (headers, Framing.fixed 0))
        else ok (headers, Framing.fixed 0))
    else if status.as_u16 == 205
    then (if not declared
        then ok (push headers (codes "Content-Length") (codes "0"), Framing.fixed 0)
        else on_ok stated (λ framing.
          if not (is_fixed_zero framing)
          then err (local "a 205 response cannot carry content")
          else ok (headers, Framing.fixed 0)))
    else if not declared
    then (if is_11
        then ok (push headers (codes "Transfer-Encoding") (codes "chunked"), Framing.chunked)
        else ok (headers, Framing.close_delimited))
    else on_ok stated (λ framing. ok (headers, framing))

-- `send_response` up to the state.
unfoldable pub check_response :
    Connection → Response → Result LocalProtocolError (Headers × Framing)
unfolding strip_codings
check_response c response =
    let status = response.status in
    let fields = scan response.headers in
    let is_11 = is_http11_peer c.peer_version && is_http11 response.http_version in
    let bodyless = response_has_no_body c status in
    let stripped = not is_11 && has_transfer_encoding fields in
    on_ok (validate_headers response.headers) (λ _. on_ok (validate_reason response.reason) (λ _.
      on_ok (check_send fields) (λ _.
        if status.as_u16 == 426 && names_no_protocol (upgrade_protocols response.headers)
        then err (local "a 426 response requires an Upgrade field")
        else if (status.as_u16 == 204 || opens_tunnel c status) && has_framing fields
        then err (local "this response status cannot carry framing fields")
        else on_ok (strip_codings fields bodyless stripped response.headers) (λ headers.
          choose_framing fields status response.http_version bodyless
            (has_framing fields && not stripped) is_11 headers))))

-- Whether request content may still be on its way.
abbrev pub unread : Connection → Bool
unread c = elim c.cycle.reader [
  | Reader.fixed remaining ↦ ltb (c.held + length (as_slice c.input)) remaining
  | _ ↦ true
]

abbrev pub is_close_delimited : Framing → Bool
is_close_delimited Framing.close_delimited = true
is_close_delimited _ = false

-- Every reason to close, recorded before the head is written.
unfoldable pub close_reasons : Connection → Fields → Framing → Connection
close_reasons c fields framing =
    if is_close_delimited framing
      || (state_eq (peer_state c) State.send_body && unread c)
      || fields.close
    then record c { state = disable_keep_alive c.state }
    else c

unfoldable pub persistence_option : Connection → Bool → Bool → Headers → Headers
persistence_option c tunnel is_11 headers =
    if tunnel
    then headers
    else if not c.state.keep_alive
    then set_connection_option headers (codes "close")
    else if not is_11
    then set_connection_option headers (codes "keep-alive")
    else headers

unfoldable pub send_response : Connection → Response → Outcome LocalProtocolError Bytes
send_response c response =
    if is_client c.role || is_informational response.status
    then (c, err (local "a final response requires a server role and non-1xx status"))
    else attempt c (check_response c response) (λ checked.
      and_then (advance_local c (final_response_event c response.status)) (λ d _.
        let tunnel = opens_tunnel c response.status in
        let is_11 = is_http11_peer c.peer_version && is_http11 response.http_version in
        let recorded = record_response (close_reasons d (scan response.headers) checked.1) in
        let headers = persistence_option recorded tunnel is_11 checked.0 in
        (
          record recorded {
            cycle = record recorded.cycle { writer = if tunnel then none else some checked.1 };
          },
          ok (serialize_response response.http_version response.status response.reason headers),
        )))
