-- ===== src/Connection/Receive/Progress/Accepts.antt =====
-- crates/h11r/src/connection/receive.rs: the events of a head, where there is room for them.
use h11r.Prelude.{
  ℕ, ◌+◌, ◌*◌, ◌≤◌, ◌<◌, ◌≡◌, refl, arith, Bool, true, false, not, ◌==◌, length, if◌then◌else◌,
  Result, ok, err, is_ok, leb,
}
use h11r.State
use h11r.State.{Role, peer, State, state_eq, StateEvent, ConnectionState}
use h11r.Status.{StatusCode, is_informational}
use h11r.Events.{Event, Request, Response}
use h11r.Connection.{
  Connection, and_then, local_state, peer_state, request_event, content_forbidden, record_request,
  record_informational, record_response, informational_event, final_response_event,
  response_has_no_body,
}
use h11r.Connection.Frame.{choice-kept}
use h11r.Connection.Send.{is_close_delimited}
use h11r.Connection.Receive.Payload.{event, with_reader}
use h11r.Connection.Receive.Accept.{
  wait_for_section, offered_upgrades, disable_if, accept_request, accept_informational,
  settle_framing, accept_final, accept_response,
}
use h11r.Connection.Receive.Progress.{
  reader_weight, state_weight, weight, Left, Moves, advance_peer-Moves, if-Moves, attempt-Moves,
  require-Moves, need_data_or_eof-Moves,
}
use h11r.Wire.Buffer.{Framing, reader, as_slice}
use h11r.Wire.Errors.{RemoteProtocolError}
use h11r.Wire.Fields
use h11r.Wire.Fields.{Fields, scan, valid_host, persistent}
use h11r.Wire.Target.{valid_request_target}

state_weight-le : (s : State) → state_weight s ≤ 1
state_weight-le s = ground arith

reader-light : (framing : Framing) → reader_weight (reader framing) ≡ 0
unfolding reader
reader-light (Framing.fixed n) = refl
reader-light Framing.chunked = refl
reader-light Framing.close_delimited = refl

-- An event, in any state of the peer.
event-Moves :
    {E : Type 0} {n : ℕ} (d : Connection) (e : Event)
    → 2 * length (as_slice d.input) + 1 < n
    → reader_weight d.cycle.reader ≡ 0
    → Moves {E = E} n (d, ok (event e))
event-Moves {n = n} d e le light = record { moves = by_event e }
  where
    less : weight d < n
    less = omega (arith, le, light, state_weight-le (peer_state d))

    by_event : (e : Event) → Left e (weight d) n
    by_event (Event.request _) = less
    by_event (Event.informational_response _) = less
    by_event (Event.response _) = less
    by_event (Event.body_data _) = less
    by_event (Event.end_of_message _) = less
    by_event Event.connection_closed = omega (arith, less)

module _ {n : ℕ} (d : Connection) (le : 2 * length (as_slice d.input) + 1 < n) where
  pub accept_request-Moves : (request : Request) → Moves n (accept_request d request)
  unfolding accept_request record_request
  accept_request-Moves request =
      let fields = scan request.headers in
      if-Moves (not (valid_request_target request.method.as_bytes request.target)) _ _
        (record { moves = tt })
        (if-Moves (not (valid_host fields request.http_version)) _ _ (record { moves = tt })
          (attempt-Moves d (Fields.framing fields request.http_version false) _ (λ framing _.
            if-Moves (content_forbidden request.method framing) _ _ (record { moves = tt })
              (advance_peer-Moves d (request_event request.method (offered_upgrades request fields))
                _ (λ _. event-Moves _ (Event.request request) le (reader-light framing))))))

pub wait_for_section-Moves :
    {n : ℕ} (d : Connection) (skip : Bool) → weight d ≤ n → Moves n (wait_for_section d skip)
unfolding wait_for_section
wait_for_section-Moves d skip le =
    if-Moves (leb (length (as_slice d.input)) d.limits.max_head_bytes) _ _
      (need_data_or_eof-Moves d _ le)
      (if-Moves (not skip) _ _ (record { moves = tt }) (record { moves = tt }))

-- There is room for an event in any state.
pub record Light (n : ℕ) (d : Connection) : Type 0 where
  pub le : 2 * length (as_slice d.input) + 1 < n
  pub light : reader_weight d.cycle.reader ≡ 0

pub Light-event :
    {n : ℕ} {E : Type 0} (d : Connection) (e : Event)
    → Light n d
    → Moves {E = E} n (d, ok (event e))
Light-event d e l = event-Moves d e l.le l.light

pub disable_if-Light : {n : ℕ} (b : Bool) (d : Connection) → Light n d → Light n (disable_if b d)
disable_if-Light {n} b d l = choice-kept (Light n) b _ _ (record { le = l.le; light = l.light }) l

record_informational-Light :
    {n : ℕ} (d : Connection) (status : StatusCode)
    → Light n d
    → Light n (record_informational d status)
unfolding record_informational
record_informational-Light {n} d status l =
    choice-kept (Light n) (status.as_u16 == 100) _ _ (record { le = l.le; light = l.light }) l

accept_informational-Moves :
    {n : ℕ} (d : Connection) (response : Response) (framing : Result RemoteProtocolError Framing)
    → Light n d
    → Moves n (accept_informational d response framing)
unfolding accept_informational
accept_informational-Moves {n} d response framing l =
    require-Moves d (informational_event d response.status response.http_version response.headers) _
      _
      (λ e _. advance_peer-Moves d e _ (λ _.
        let recorded =
          record_informational-Light
            (disable_if (not (is_ok framing))
              (record d { state = (State.process_event d.state (peer d.role) e).0 }))
            response.status
            (disable_if-Light {n = n} (not (is_ok framing))
              (record d { state = (State.process_event d.state (peer d.role) e).0 })
              (record { le = l.le; light = l.light })) in
        Light-event _ (Event.informational_response response)
          (record { le = recorded.le; light = recorded.light })))

settle_framing-Moves :
    {n : ℕ} (d : Connection) (response : Response) (framing : Result RemoteProtocolError Framing)
    → Light n d
    → Moves n (settle_framing d response framing)
unfolding settle_framing
settle_framing-Moves {n} d response framing l =
    by_body (response_has_no_body d response.status) framing
  where
    chosen_Moves :
        (e : Connection) (chosen : Framing)
        → Light n e
        → Moves {E = RemoteProtocolError} n (
          with_reader (disable_if (is_close_delimited chosen) e) (reader chosen),
          ok (event (Event.response response)),
        )
    chosen_Moves e chosen k = Light-event _ (Event.response response) (record {
      le = (disable_if-Light {n = n} (is_close_delimited chosen) e k).le;
      light = reader-light chosen;
    })

    by_body :
        (bodyless : Bool) (f : Result RemoteProtocolError Framing)
        → Moves n (
            and_then
              (if bodyless then (disable_if (not (is_ok f)) d, ok (Framing.fixed 0)) else (d, f))
              (λ e chosen. (
                with_reader (disable_if (is_close_delimited chosen) e) (reader chosen),
                ok (event (Event.response response)),
              )))
    by_body true f =
        chosen_Moves (disable_if (not (is_ok f)) d) (Framing.fixed 0)
          (disable_if-Light {n = n} (not (is_ok f)) d l)
    by_body false (ok chosen) = chosen_Moves d chosen l
    by_body false (err e) = record { moves = tt }

accept_final-Moves :
    {n : ℕ} (d : Connection) (response : Response) (fields : Fields)
    (framing : Result RemoteProtocolError Framing)
    → Light n d
    → Moves n (accept_final d response fields framing)
unfolding accept_final record_response
accept_final-Moves {n} d response fields framing l =
    advance_peer-Moves d (final_response_event d response.status) _ (λ _.
      let kept =
        disable_if-Light {n = n} (not (persistent fields response.http_version))
          (record d {
            state =
                (State.process_event d.state (peer d.role)
                  (final_response_event d response.status)).0;
          })
          (record { le = l.le; light = l.light }) in
      settle_framing-Moves _ response framing (record { le = kept.le; light = kept.light }))

pub accept_response-Moves :
    {n : ℕ} (d : Connection) (response : Response)
    → Light n d
    → Moves n (accept_response d response)
unfolding accept_response
accept_response-Moves d response l =
    let fields = scan response.headers in
    let framing = Fields.framing fields response.http_version true in
    if-Moves (state_eq (local_state d) State.idle) _ _ (record { moves = tt })
      (if-Moves (is_informational response.status) _ _
        (accept_informational-Moves d response framing l)
        (accept_final-Moves d response fields framing l))
