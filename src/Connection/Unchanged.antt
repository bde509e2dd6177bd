-- ===== src/Connection/Unchanged.antt =====
-- crates/h11r/src/connection: an operation that fails leaves the connection as it was.
use h11r.Prelude.{
  ℕ, ◌≡◌, refl, ap, arith, Bool, true, false, not, ◌||◌, Option, none, some, is_empty, Result, ok,
  err, is_ok, if◌then◌else◌,
}
use h11r.State.{StateEvent, ConnectionState, InvalidTransition, process_event}
use h11r.State.Contract.{rejected_unchanged}
use h11r.Headers.{Headers}
use h11r.Status.{is_informational}
use h11r.Events.{Request, Response}
use h11r.Connection.{
  Connection, Outcome, and_then, attempt, require, is_client, advance_local, request_event,
  final_response_event, with_error, close,
}
use h11r.Connection.Send.{
  check_request, check_informational, check_response, is_http10_peer, send_request,
  send_informational_response, send_response,
}
use h11r.Connection.Body.{frame_data, finish_body, send_data_framing, end_of_message}
use h11r.Wire.Buffer.{as_slice}
use h11r.Wire.Errors.{LocalProtocolError, local}
use h11r.Wire.Fields.{scan}
use h11r.Wire.Lists.{validate_trailers}

-- If the outcome is an error, then the connection is `c`.
pub record Unchanged {E A : Type 0} (c : Connection) (o : Outcome E A) : Type 0 where
  pub kept : is_ok o.1 ≡ false → o.0 ≡ c

module _ {E A : Type 0} {c : Connection} where
  pub failed-Unchanged : (e : E) → Unchanged {A = A} c (c, err e)
  failed-Unchanged e = record { kept = λ _. refl }

  pub ok-Unchanged : (o : Outcome E A) → is_ok o.1 ≡ true → Unchanged c o
  ok-Unchanged o h = record { kept = λ failed. absurd (ground (arith, h, failed)) }

  pub if-Unchanged :
      (b : Bool) (o p : Outcome E A)
      → Unchanged c o
      → Unchanged c p
      → Unchanged c (if b then o else p)
  if-Unchanged true o p h k = h
  if-Unchanged false o p h k = k

module _ {E A B : Type 0} {c : Connection} where
  pub attempt-Unchanged :
      (r : Result E A) (next : A → Outcome E B)
      → ((a : A) → Unchanged c (next a))
      → Unchanged c (attempt c r next)
  attempt-Unchanged (ok a) next k = k a
  attempt-Unchanged (err e) next k = record { kept = λ _. refl }

  require-Unchanged :
      (r : Option A) (e : E) (next : A → Outcome E B)
      → ((a : A) → Unchanged c (next a))
      → Unchanged c (require c r e next)
  require-Unchanged (some a) e next k = k a
  require-Unchanged none e next k = record { kept = λ _. refl }

-- An event that is refused, before what cannot fail.
advance-Unchanged :
    {A : Type 0} (c : Connection) (event : StateEvent)
    (next : Connection → Unit {0} → Outcome LocalProtocolError A)
    → ((d : Connection) (u : Unit {0}) → is_ok (next d u).1 ≡ true)
    → Unchanged c (and_then (advance_local c event) next)
unfolding advance_local
advance-Unchanged {A} c event next always = by_result (process_event c.state c.role event).1 refl
  where
    state : ConnectionState
    state = (process_event c.state c.role event).0

    by_result :
        (r : Result InvalidTransition (Unit {0}))
        → (process_event c.state c.role event).1 ≡ r
        → Unchanged c (
            and_then
              (
                record c { state = (process_event c.state c.role event).0 },
                with_error (local "event is invalid in the local state") r,
              )
              next)
    by_result (ok u) e = ok-Unchanged _ (always (record c { state = state }) u)
    by_result (err x) e = record {
      kept = λ _. ap (λ s. record c { state = s }) (rejected_unchanged c.state c.role event e);
    }

pub send_request-Unchanged :
    (c : Connection) (request : Request) → Unchanged c (send_request c request)
unfolding send_request
send_request-Unchanged c request = if-Unchanged (not (is_client c.role)) _ _ (failed-Unchanged _) (
    if-Unchanged (not (is_empty (as_slice c.input))) _ _ (failed-Unchanged _) (
      attempt-Unchanged (check_request request (scan request.headers)) _
        (λ checked. advance-Unchanged c (request_event request.method checked.1) _ (λ d u. refl))))

pub send_informational_response-Unchanged :
    (c : Connection) (response : Response) → Unchanged c (send_informational_response c response)
unfolding send_informational_response
send_informational_response-Unchanged c response =
    if-Unchanged (is_client c.role || not (is_informational response.status)) _ _
      (failed-Unchanged _)
      (if-Unchanged (is_http10_peer c.peer_version) _ _ (failed-Unchanged _) (
        attempt-Unchanged (check_informational c response) _
          (λ event. advance-Unchanged c event _ (λ d u. refl))))

pub send_response-Unchanged :
    (c : Connection) (response : Response) → Unchanged c (send_response c response)
unfolding send_response
send_response-Unchanged c response =
    if-Unchanged (is_client c.role || is_informational response.status) _ _ (failed-Unchanged _) (
      attempt-Unchanged (check_response c response) _
        (λ checked. advance-Unchanged c (final_response_event c response.status) _ (λ d u. refl)))

pub send_data_framing-Unchanged :
    (c : Connection) (size : ℕ) → Unchanged c (send_data_framing c size)
unfolding send_data_framing
send_data_framing-Unchanged c size = require-Unchanged c.cycle.writer _ _ (λ writer.
    attempt-Unchanged (frame_data writer size) _
      (λ framed. advance-Unchanged c StateEvent.body_data _ (λ d u. refl)))

pub end_of_message-Unchanged :
    (c : Connection) (trailers : Headers) → Unchanged c (end_of_message c trailers)
unfolding end_of_message
end_of_message-Unchanged c trailers = attempt-Unchanged (validate_trailers trailers) _ (λ _.
    require-Unchanged c.cycle.writer _ _ (λ writer.
      attempt-Unchanged (finish_body writer trailers) _
        (λ bytes. advance-Unchanged c StateEvent.end_of_message _ (λ d u. refl))))

pub close-Unchanged : (c : Connection) → Unchanged c (close c)
unfolding close
close-Unchanged c = advance-Unchanged c StateEvent.connection_closed _ (λ d u. refl)
