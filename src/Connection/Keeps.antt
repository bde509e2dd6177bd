-- ===== src/Connection/Keeps.antt =====
-- crates/h11r/src/connection/send.rs: the sending side leaves what is received alone.
use h11r.Prelude.{
  ℕ, ◌≡◌, refl, ap, ◌∙◌, subst, inl, inr, not, ◌&&◌, ◌||◌, List, Bytes, ◌==◌, Bool-cases, is_empty,
}
use h11r.State
use h11r.State.{
  Role, client, server, peer, State, state_eq, StateEvent, ConnectionState, process_event,
  disable_keep_alive,
}
use h11r.State.Invariant.{Step, Steps, here, further, Steps-trans}
use h11r.State.Peer.{process_event-goes_on, disable_keep_alive-goes_on}
use h11r.Headers
use h11r.Headers.{Headers}
use h11r.Method.{Method}
use h11r.Status.{StatusCode, is_informational}
use h11r.Events.{Request, Response}
use h11r.Connection.{
  Cycle, Connection, is_client, local_state, peer_state, advance_local, record_request,
  record_informational, record_response, request_event, final_response_event, close,
}
use h11r.Connection.Frame.{and_then-kept, attempt-kept, require-kept, if-kept, choice-kept}
use h11r.Connection.Send.{
  check_request, check_informational, check_response, is_http10_peer, send_request,
  send_informational_response, send_response, close_reasons, is_close_delimited, unread,
}
use h11r.Connection.Body.{
  frame_data, finish_body, send_data_framing, end_of_message, frame_body, complete_body,
}
use h11r.Wire.Buffer.{Framing, as_slice}
use h11r.Wire.Fields.{Version, Fields, persistent, scan}
use h11r.Wire.Lists.{validate_trailers}

-- Whether the peer is in the middle of a body, by the role that the connection had in `c`.
abbrev pub PeerSends : Role → ConnectionState → Type 0
PeerSends role s = State.state s (peer role) ≡ State.send_body

-- From `c` to `d` the states and the cycle alone changed, the reader did not, a peer in the middle of a
-- body is there still, and the joint state is one that calls on it lead to.
pub record Keeps (c d : Connection) : Type 0 where
  pub kept : record c { state = d.state; cycle = d.cycle } ≡ d
  pub reader : d.cycle.reader ≡ c.cycle.reader
  pub body : PeerSends c.role c.state → PeerSends c.role d.state
  pub reach : Steps c.state d.state

pub Keeps-self : {c : Connection} → Keeps c c
Keeps-self = record { kept = refl; reader = refl; body = λ s. s; reach = here }

pub Keeps-role : {c d : Connection} → Keeps c d → c.role ≡ d.role
Keeps-role h = ap (λ (x : Connection). x.role) h.kept

-- New states and a new cycle that keep the reader and the peer's body.
pub Keeps-with :
    {c d : Connection} (s : ConnectionState) (k : Cycle)
    → k.reader ≡ d.cycle.reader
    → (PeerSends c.role d.state → PeerSends c.role s)
    → Steps d.state s
    → Keeps c d
    → Keeps c (record d { state = s; cycle = k })
Keeps-with s k same goes_on leads h = record {
  kept = ap (λ (x : Connection). with_both x) h.kept;
  reader = same ∙ h.reader;
  body = λ sends. goes_on (h.body sends);
  reach = Steps-trans h.reach leads;
}
  where
    with_both : Connection → Connection
    with_both x = record x { state = s; cycle = k }

pub Keeps-cycle :
    {c d : Connection} (k : Cycle)
    → k.reader ≡ d.cycle.reader
    → Keeps c d
    → Keeps c (record d { cycle = k })
Keeps-cycle {d = d} k same h = Keeps-with d.state k same (λ s. s) here h

Keeps-disable :
    {c d : Connection} → Keeps c d → Keeps c (record d { state = disable_keep_alive d.state })
Keeps-disable {c} {d} h =
    Keeps-with (disable_keep_alive d.state) d.cycle refl
      (disable_keep_alive-goes_on d.state (peer c.role)) (further here Step.disable) h

Keeps-advance :
    {c d : Connection} (event : StateEvent) → Keeps c d → Keeps c (advance_local d event).0
unfolding advance_local
Keeps-advance {c} {d} event h =
    Keeps-with (process_event d.state d.role event).0 d.cycle refl
      (subst (λ r. PeerSends c.role d.state → PeerSends c.role (process_event d.state r event).0)
        (Keeps-role h) (process_event-goes_on d.state c.role event))
      (further here (Step.event d.role event)) h

record_request-Keeps :
    {c d : Connection} (method : Method) (version : Version) (fields : Fields) (framing : Framing)
    (upgrades : List Bytes)
    → Keeps c d
    → Keeps c (record_request d method version fields framing upgrades)
unfolding record_request
record_request-Keeps {c} {d} method version fields framing upgrades h =
    elim (Bool-cases (persistent fields version)) [
      | inl stays ↦ rw stays (Keeps-cycle _ refl h)
      | inr closes ↦ rw closes (Keeps-cycle _ refl (Keeps-disable h))
    ]

pub send_request-Keeps : (c : Connection) (request : Request) → Keeps c (send_request c request).0
unfolding send_request record_request
send_request-Keeps c request = if-kept (Keeps c) (not (is_client c.role)) _ _ Keeps-self (
    if-kept (Keeps c) (not (is_empty (as_slice c.input))) _ _ Keeps-self (
      attempt-kept (Keeps c) (check_request request (scan request.headers)) _ Keeps-self (λ checked.
        and_then-kept (Keeps c) (advance_local c (request_event request.method checked.1)) _
          (Keeps-advance (request_event request.method checked.1) Keeps-self)
          (λ d _ h. Keeps-cycle _ refl (
            record_request-Keeps request.method request.http_version (scan request.headers)
              checked.0 checked.1 h)))))

record_informational-Keeps :
    {c d : Connection} (status : StatusCode) → Keeps c d → Keeps c (record_informational d status)
unfolding record_informational
record_informational-Keeps {c} status h =
    choice-kept (Keeps c) (status.as_u16 == 100) _ _ (Keeps-cycle _ refl h) h

pub send_informational_response-Keeps :
    (c : Connection) (response : Response) → Keeps c (send_informational_response c response).0
unfolding send_informational_response
send_informational_response-Keeps c response =
    if-kept (Keeps c) (is_client c.role || not (is_informational response.status)) _ _ Keeps-self (
      if-kept (Keeps c) (is_http10_peer c.peer_version) _ _ Keeps-self (
        attempt-kept (Keeps c) (check_informational c response) _ Keeps-self (λ event.
          and_then-kept (Keeps c) (advance_local c event) _ (Keeps-advance event Keeps-self)
            (λ d _ h. record_informational-Keeps response.status h))))

close_reasons-Keeps :
    {c d : Connection} (fields : Fields) (framing : Framing)
    → Keeps c d
    → Keeps c (close_reasons d fields framing)
unfolding close_reasons
close_reasons-Keeps {c} {d} fields framing h =
    choice-kept (Keeps c)
      (is_close_delimited framing
        || (state_eq (peer_state d) State.send_body && unread d)
        || fields.close)
      _ _ (Keeps-disable h) h

record_response-Keeps : {c d : Connection} → Keeps c d → Keeps c (record_response d)
unfolding record_response
record_response-Keeps h = Keeps-cycle _ refl h

pub send_response-Keeps :
    (c : Connection) (response : Response) → Keeps c (send_response c response).0
unfolding send_response
send_response-Keeps c response =
    if-kept (Keeps c) (is_client c.role || is_informational response.status) _ _ Keeps-self (
      attempt-kept (Keeps c) (check_response c response) _ Keeps-self (λ checked.
        and_then-kept (Keeps c) (advance_local c (final_response_event c response.status)) _
          (Keeps-advance (final_response_event c response.status) Keeps-self)
          (λ d _ h.
            Keeps-cycle _ refl
              (record_response-Keeps (close_reasons-Keeps (scan response.headers) checked.1 h)))))

pub send_data_framing-Keeps :
    {c : Connection} (d : Connection) (size : ℕ) → Keeps c d → Keeps c (send_data_framing d size).0
unfolding send_data_framing
send_data_framing-Keeps {c} d size h = require-kept (Keeps c) d.cycle.writer _ _ h (λ writer.
    attempt-kept (Keeps c) (frame_data writer size) _ h (λ framed.
      and_then-kept (Keeps c) (advance_local d StateEvent.body_data) _
        (Keeps-advance StateEvent.body_data h) (λ e _ k. Keeps-cycle _ refl k)))

pub end_of_message-Keeps :
    {c : Connection} (d : Connection) (trailers : Headers)
    → Keeps c d
    → Keeps c (end_of_message d trailers).0
unfolding end_of_message
end_of_message-Keeps {c} d trailers h =
    attempt-kept (Keeps c) (validate_trailers trailers) _ h (λ _.
      require-kept (Keeps c) d.cycle.writer _ _ h (λ writer.
        attempt-kept (Keeps c) (finish_body writer trailers) _ h (λ bytes.
          and_then-kept (Keeps c) (advance_local d StateEvent.end_of_message) _
            (Keeps-advance StateEvent.end_of_message h) (λ e _ k. Keeps-cycle _ refl k))))

pub close-Keeps : (c : Connection) → Keeps c (close c).0
unfolding close
close-Keeps c =
    and_then-kept (Keeps c) (advance_local c StateEvent.connection_closed) _
      (Keeps-advance StateEvent.connection_closed Keeps-self) (λ d _ h. Keeps-cycle _ refl h)

pub complete_body-Keeps :
    {c : Connection} (d : Connection) (size : ℕ) (before : Bytes)
    → Keeps c d
    → Keeps c (complete_body d size before).0
unfolding complete_body frame_body
complete_body-Keeps {c} d size before h =
    if-kept (Keeps c) (state_eq (local_state d) State.switched_protocol) _ _
      (if-kept (Keeps c) (size == 0) _ _ h h)
      (and_then-kept (Keeps c) (frame_body d size before) _
        (if-kept (Keeps c) (size == 0) _ _ h (
          and_then-kept (Keeps c) (send_data_framing d size) _ (send_data_framing-Keeps d size h)
            (λ e _ k. k)))
        (λ e parts k.
          and_then-kept (Keeps c) (end_of_message e Headers.new) _
            (end_of_message-Keeps e Headers.new k) (λ f _ l. l)))
