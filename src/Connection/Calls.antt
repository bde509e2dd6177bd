-- ===== src/Connection/Calls.antt =====
-- crates/h11r/src/connection: what holds of a connection after any calls, in any order.
use h11r.Prelude.{ℕ, ◌≡◌, refl, inl, Bytes}
use h11r.State.{Role}
use h11r.State.Invariant.{Reach, IsValid, Reach-IsValid}
use h11r.Headers.{Headers}
use h11r.Events.{Limits, Request, Response}
use h11r.Connection.{new, lenient, Connection, start_next_cycle, close}
use h11r.Connection.Keeps.{
  send_request-Keeps, send_informational_response-Keeps, send_response-Keeps,
  send_data_framing-Keeps, end_of_message-Keeps, close-Keeps, Keeps-self,
}
use h11r.Connection.Complete.{
  send_request_with_body_framing-Keeps, send_response_with_body_framing-Keeps,
}
use h11r.Connection.Send.{send_request, send_informational_response, send_response}
use h11r.Connection.Body.{
  send_data_framing, end_of_message, send_request_with_body_framing,
  send_response_with_body_framing,
}
use h11r.Connection.Receive.{receive_data}
use h11r.Connection.Receive.Payload.{hold_body_data, next_event_in_place}
use h11r.Connection.Receive.Held.{HeldFits}
use h11r.Connection.Receive.Events.{next_event}
use h11r.Wire.Parse.{HeadParser}
use h11r.Connection.Sound.{
  Sound, Keeps-Sound, receive_data-Sound, hold_body_data-Sound, next_event-Sound,
  next_event_in_place-Sound, start_next_cycle-Sound,
}

-- The calls on a connection, with any arguments, accepted or not; the bytes held are handed over before the
-- next event is polled.
pub data Call (httparse : HeadParser) (c : Connection) : Connection → Type 0 where
  receives : (bytes : Bytes) → Call httparse c (receive_data c bytes).0
  holds : (count : ℕ) → Call httparse c (hold_body_data c count).0
  hands_over : (count : ℕ) → Call httparse c (next_event_in_place c count).0
  polls : c.held ≡ 0 → Call httparse c (next_event httparse c).0
  sends_request : (request : Request) → Call httparse c (send_request c request).0
  sends_informational :
      (response : Response) → Call httparse c (send_informational_response c response).0
  sends_response : (response : Response) → Call httparse c (send_response c response).0
  sends_data : (size : ℕ) → Call httparse c (send_data_framing c size).0
  ends_message : (trailers : Headers) → Call httparse c (end_of_message c trailers).0
  sends_whole_request :
      (request : Request) (size : ℕ)
      → Call httparse c (send_request_with_body_framing c request size).0
  sends_whole_response :
      (response : Response) (size : ℕ)
      → Call httparse c (send_response_with_body_framing c response size).0
  starts_cycle : Call httparse c (start_next_cycle c).0
  closes : Call httparse c (close c).0

pub data Reached (httparse : HeadParser) : Connection → Type 0 where
  begins : (role : Role) (limits : Limits) → Reached httparse (new role limits)
  begins_lenient : (role : Role) (limits : Limits) → Reached httparse (lenient (new role limits))
  goes_on : {c d : Connection} → Reached httparse c → Call httparse c d → Reached httparse d

module _ {httparse : HeadParser} where
  pub Call-Sound : {c d : Connection} → Call httparse c d → Sound c → Sound d
  Call-Sound {c} (receives bytes) h = receive_data-Sound c bytes h
  Call-Sound {c} (holds count) h = hold_body_data-Sound c count h
  Call-Sound {c} (hands_over count) h = next_event_in_place-Sound c count h
  Call-Sound {c} (polls none_held) h = next_event-Sound httparse c none_held h
  Call-Sound {c} (sends_request request) h = Keeps-Sound (send_request-Keeps c request) h
  Call-Sound {c} (sends_informational response) h =
      Keeps-Sound (send_informational_response-Keeps c response) h
  Call-Sound {c} (sends_response response) h = Keeps-Sound (send_response-Keeps c response) h
  Call-Sound {c} (sends_data size) h = Keeps-Sound (send_data_framing-Keeps c size Keeps-self) h
  Call-Sound {c} (ends_message trailers) h =
      Keeps-Sound (end_of_message-Keeps c trailers Keeps-self) h
  Call-Sound {c} (sends_whole_request request size) h =
      Keeps-Sound (send_request_with_body_framing-Keeps c request size) h
  Call-Sound {c} (sends_whole_response response size) h =
      Keeps-Sound (send_response_with_body_framing-Keeps c response size) h
  Call-Sound {c} starts_cycle h = start_next_cycle-Sound c h
  Call-Sound {c} closes h = Keeps-Sound (close-Keeps c) h

  Reached-Sound : {c : Connection} → Reached httparse c → Sound c
  unfolding new lenient
  Reached-Sound (begins role limits) = record { reach = Reach.start; held_fits = inl refl }
  Reached-Sound (begins_lenient role limits) = record { reach = Reach.start; held_fits = inl refl }
  Reached-Sound (goes_on r call) = Call-Sound call (Reached-Sound r)

-- After any calls on a new connection, in any order, accepted or not, where held bytes are handed over
-- before a poll, the joint state is valid and the bytes held are payload that the decoder has still to
-- pass.
pub Reached-IsValid :
    {httparse : HeadParser} {c : Connection} → Reached httparse c → IsValid c.state × HeldFits c
Reached-IsValid r = let h = Reached-Sound r in (Reach-IsValid h.reach, h.held_fits)
