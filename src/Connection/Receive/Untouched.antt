-- ===== src/Connection/Receive/Untouched.antt =====
-- crates/h11r/src/connection/receive.rs: what polling leaves as it is.
pub mod Poll
use h11r.Prelude.{
  ℕ, List, zero, suc, ◌-◌, ◌+◌, ◌≡◌, refl, ap, sym, subst, ◌∙◌, inl, inr, Bool, true, false, not,
  ◌&&◌, Option, none, some, Bytes, length, take, ◌==◌, ltb, leb, is_empty, bytes_eq, if◌then◌else◌,
  Option-cases, Result, ok, err, is_ok,
}
use Prim.Native.String.{String}
use h11r.State
use h11r.State.{Role, peer, State, StateEvent, state_eq, ConnectionState, disable_keep_alive}
use h11r.State.Invariant.{Step, Steps, here, further, Steps-trans}
use h11r.Headers
use h11r.Headers.{Headers}
use h11r.Status.{StatusCode, is_informational}
use h11r.Events.{Limits, Request, Response, NextEvent}
use h11r.Connection.{
  Connection, Outcome, and_then, attempt, require, is_client, local_state, peer_state, advance_peer,
  request_event, content_forbidden, record_request, record_informational, record_response,
  informational_event, final_response_event, response_has_no_body,
}
use h11r.Connection.Frame.{and_then-kept, attempt-kept, require-kept, if-kept, choice-kept}
use h11r.Connection.Send.{is_close_delimited}
use h11r.Connection.Receive.Payload.{
  Polled, with_reader, take_payload, advance_payload, peer_data, finish_peer, peer_closed,
  need_data_or_eof, read_payload,
}
use h11r.Connection.Receive.Accept.{
  with_failure, section_due, section, wait_for_section, past_section, offered_upgrades, disable_if,
  accept_request, accept_informational, settle_framing, accept_final, accept_response, read_head,
}
use h11r.Wire.Buffer.{Framing, Reader, Chunk, size, payload, payload_end, trailers, as_slice}
use h11r.Wire.Errors.{RemoteProtocolError}
use h11r.Wire.Fields
use h11r.Wire.Fields.{Fields, scan, valid_host, persistent}
use h11r.Wire.Parse.{HeadParser, Failure, parse_request_head, parse_response_head, parse_trailers}
use h11r.Wire.Target.{valid_request_target}

-- What the caller sets, and the bytes it holds.
abbrev pub outside : Connection → (Role × Limits) × (Bool × (Bool × ℕ))
outside c = ((c.role, c.limits), (c.lenient, (c.eof, c.held)))

-- From `c` to `d` all of that stayed, and the joint state is one that calls on it lead to.
pub record Untouched (c d : Connection) : Type 0 where
  pub same : outside d ≡ outside c
  pub reach : Steps c.state d.state

pub Untouched-self : {c : Connection} → Untouched c c
Untouched-self = record { same = refl; reach = here }

abbrev pub with_state : Connection → ((Role × Limits) × (Bool × (Bool × ℕ))) × ConnectionState
with_state c = (outside c, c.state)

-- A step that updates other fields.
pub then_update :
    {c d : Connection} (e : Connection)
    → with_state e ≡ with_state d
    → Untouched c d
    → Untouched c e
then_update {c} {d} e k h = record {
  same = ap (λ p. p.0) k ∙ h.same;
  reach = subst (λ p. Steps c.state p.1) (sym k) h.reach;
}

-- A step that updates the joint state too.
pub then_step :
    {c d : Connection} (e : Connection)
    → outside e ≡ outside d
    → Steps d.state e.state
    → Untouched c d
    → Untouched c e
then_step e k leads h = record { same = k ∙ h.same; reach = Steps-trans h.reach leads }

-- Keep-alive may be turned off.
reach_choice : (b : Bool) (s : ConnectionState) → Steps s (if b then s else disable_keep_alive s)
reach_choice true s = here
reach_choice false s = further here Step.disable

pub with_failure-Untouched :
    {A : Type 0} {c : Connection} (o : Outcome RemoteProtocolError A)
    → Untouched c o.0
    → Untouched c (with_failure o).0
with_failure-Untouched (d, r) h = h

module _ {c : Connection} where
  advance_peer-Untouched :
      {d : Connection} (e : StateEvent) → Untouched c d → Untouched c (advance_peer d e).0
  unfolding advance_peer
  advance_peer-Untouched {d} e h = then_step _ refl (further here (Step.event (peer d.role) e)) h

  pub peer_data-Untouched :
      {d : Connection} (n : ℕ) (s t : Bool) → Untouched c d → Untouched c (peer_data d n s t).0
  unfolding peer_data
  peer_data-Untouched {d} n s t h =
      and_then-kept (Untouched c) (advance_peer d StateEvent.body_data) _
        (advance_peer-Untouched StateEvent.body_data h) (λ e _ k. then_update _ refl k)

  pub finish_peer-Untouched :
      {d : Connection} (found : Headers) → Untouched c d → Untouched c (finish_peer d found).0
  unfolding finish_peer
  finish_peer-Untouched {d} found h =
      and_then-kept (Untouched c) (advance_peer d StateEvent.end_of_message) _
        (advance_peer-Untouched StateEvent.end_of_message h) (λ e _ k. then_update _ refl k)

  pub peer_closed-Untouched : {d : Connection} → Untouched c d → Untouched c (peer_closed d).0
  unfolding peer_closed
  peer_closed-Untouched {d} h =
      and_then-kept (Untouched c) (advance_peer d StateEvent.connection_closed) _
        (advance_peer-Untouched StateEvent.connection_closed h) (λ e _ k. k)

  pub need_data_or_eof-Untouched :
      {d : Connection} (m : String) → Untouched c d → Untouched c (need_data_or_eof d m).0
  unfolding need_data_or_eof
  need_data_or_eof-Untouched {d} m h = if-kept (Untouched c) d.eof _ _ h h

  pub read_payload-Untouched :
      {d : Connection} (m : String) → Untouched c d → Untouched c (read_payload d m).0
  unfolding read_payload advance_payload
  read_payload-Untouched {d} m h =
      if-kept (Untouched c) (length (as_slice d.input) == 0) _ _ (need_data_or_eof-Untouched m h) (
        peer_data-Untouched _ _ _
          (then_update (advance_payload d (length (as_slice d.input))).0 refl h))

  pub section_due-Untouched :
      {d : Connection} (skip : Bool) → Untouched c d → Untouched c (section_due d skip).0
  unfolding section_due
  section_due-Untouched {d} skip h = if-kept (Untouched c) _ _ _ h (then_update _ refl h)

  pub wait_for_section-Untouched :
      {d : Connection} (skip : Bool) → Untouched c d → Untouched c (wait_for_section d skip).0
  unfolding wait_for_section
  wait_for_section-Untouched {d} skip h =
      if-kept (Untouched c) _ _ _ (need_data_or_eof-Untouched _ h)
        (if-kept (Untouched c) (not skip) _ _ h h)

  pub disable_if-Untouched :
      {d : Connection} (b : Bool) → Untouched c d → Untouched c (disable_if b d)
  disable_if-Untouched b h =
      choice-kept (Untouched c) b _ _ (then_step _ refl (further here Step.disable) h) h

  record_request-Untouched :
      {d : Connection} (request : Request) (fields : Fields) (framing : Framing)
      (upgrades : List Bytes)
      → Untouched c d
      → Untouched c (record_request d request.method request.http_version fields framing upgrades)
  unfolding record_request
  record_request-Untouched {d} request fields framing upgrades h =
      then_step _ refl (reach_choice (persistent fields request.http_version) d.state) h

  record_informational-Untouched :
      {d : Connection} (status : StatusCode)
      → Untouched c d
      → Untouched c (record_informational d status)
  unfolding record_informational
  record_informational-Untouched status h =
      choice-kept (Untouched c) (status.as_u16 == 100) _ _ (then_update _ refl h) h

  pub accept_request-Untouched :
      {d : Connection} (request : Request)
      → Untouched c d
      → Untouched c (accept_request d request).0
  unfolding accept_request
  accept_request-Untouched {d} request h =
      let fields = scan request.headers in
      if-kept (Untouched c) (not (valid_request_target request.method.as_bytes request.target)) _ _
        h
        (if-kept (Untouched c) (not (valid_host fields request.http_version)) _ _ h (
          attempt-kept (Untouched c) (Fields.framing fields request.http_version false) _ h
            (λ framing. if-kept (Untouched c) (content_forbidden request.method framing) _ _ h (
              let event = request_event request.method (offered_upgrades request fields) in
              and_then-kept (Untouched c) (advance_peer d event) _ (advance_peer-Untouched event h)
                (λ e _ k. then_update _ refl (
                  record_request-Untouched request fields framing (offered_upgrades request fields)
                    k))))))

  accept_informational-Untouched :
      {d : Connection} (response : Response) (framing : Result RemoteProtocolError Framing)
      → Untouched c d
      → Untouched c (accept_informational d response framing).0
  unfolding accept_informational
  accept_informational-Untouched {d} response framing h =
      require-kept (Untouched c)
        (informational_event d response.status response.http_version response.headers) _ _ h
        (λ event.
          and_then-kept (Untouched c) (advance_peer d event) _ (advance_peer-Untouched event h)
            (λ e _ k. then_update _ refl (
              record_informational-Untouched response.status
                (disable_if-Untouched (not (is_ok framing)) k))))

  settle_framing-Untouched :
      {d : Connection} (response : Response) (framing : Result RemoteProtocolError Framing)
      → Untouched c d
      → Untouched c (settle_framing d response framing).0
  unfolding settle_framing
  settle_framing-Untouched {d} response framing h =
      and_then-kept (Untouched c)
        (if response_has_no_body d response.status
          then (disable_if (not (is_ok framing)) d, ok (Framing.fixed 0))
          else (d, framing))
        _
        (if-kept (Untouched c) (response_has_no_body d response.status) _ _
          (disable_if-Untouched (not (is_ok framing)) h) h)
        (λ e chosen k. then_update _ refl (disable_if-Untouched (is_close_delimited chosen) k))

  accept_final-Untouched :
      {d : Connection} (response : Response) (fields : Fields)
      (framing : Result RemoteProtocolError Framing)
      → Untouched c d
      → Untouched c (accept_final d response fields framing).0
  unfolding accept_final record_response
  accept_final-Untouched {d} response fields framing h =
      let event = final_response_event d response.status in
      and_then-kept (Untouched c) (advance_peer d event) _ (advance_peer-Untouched event h)
        (λ e _ k. settle_framing-Untouched response framing (
          then_update _ refl
            (disable_if-Untouched (not (persistent fields response.http_version)) k)))

  pub accept_response-Untouched :
      {d : Connection} (response : Response)
      → Untouched c d
      → Untouched c (accept_response d response).0
  unfolding accept_response
  accept_response-Untouched {d} response h =
      let fields = scan response.headers in
      let framing = Fields.framing fields response.http_version true in
      if-kept (Untouched c) (state_eq (local_state d) State.idle) _ _ h (
        if-kept (Untouched c) (is_informational response.status) _ _
          (accept_informational-Untouched response framing h)
          (accept_final-Untouched response fields framing h))
