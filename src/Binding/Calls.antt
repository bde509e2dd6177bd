-- ===== src/Binding/Calls.antt =====
-- crates/h11r-python/src/api/connection.rs: what holds of a `Connection` object after any calls.
use h11r.Prelude.{ℕ, ◌≡◌, Bool, Option, ok}
use h11r.Wire.Parse.{HeadParser}
use h11r.Binding.Python.{Python}
use h11r.Binding.Events.{PyRole}
use h11r.Binding.Connection.{
  PyConnection, new, next_event, receive_data, send_request, send_informational_response,
  send_response, send_data, send_data_parts, end_of_message, start_next_cycle, close,
}
use h11r.Binding.Queue.{Ready}
use h11r.Binding.Ready.{receive_data-Ready, next_event-Ready, new-Ready}
use h11r.Binding.Sending.{
  send_request-Ready, send_informational-Ready, send_response-Ready, send_data-Ready,
  send_data_parts-Ready, end_of_message-Ready, start_next_cycle-Ready, close-Ready,
}

-- The calls on a `Connection` object, with any arguments, that raise or return.
pub data PyCall (py : Python) (httparse : HeadParser) (c : PyConnection)
    : PyConnection → Type 0 where
  receives : (value : py.Object) → PyCall py httparse c (receive_data py c value).0
  polls : PyCall py httparse c (next_event httparse c).0
  sends_request :
      (method target headers : py.Object) (body http_version : Option py.Object)
      → PyCall py httparse c (send_request py c method target headers body http_version).0
  sends_informational :
      (code : py.Object) (headers reason http_version : Option py.Object)
      → PyCall py httparse c (send_informational_response py c code headers reason http_version).0
  sends_response :
      (code : py.Object) (headers body reason http_version : Option py.Object)
      → PyCall py httparse c (send_response py c code headers body reason http_version).0
  sends_data : (value : py.Object) → PyCall py httparse c (send_data py c value).0
  sends_parts : (value : py.Object) → PyCall py httparse c (send_data_parts py c value).0
  ends_message :
      (trailers : Option py.Object) → PyCall py httparse c (end_of_message py c trailers).0
  starts_cycle : PyCall py httparse c (start_next_cycle c).0
  closes : PyCall py httparse c (close c).0

pub data PyReached (py : Python) (httparse : HeadParser) : PyConnection → Type 0 where
  begins :
      (role : PyRole) (max_head_bytes max_header_count : ℕ) (lenient : Bool) {c : PyConnection}
      → new role max_head_bytes max_header_count lenient ≡ ok c
      → PyReached py httparse c
  goes_on :
      {c d : PyConnection}
      → PyReached py httparse c
      → PyCall py httparse c d
      → PyReached py httparse d

module _ {py : Python} {httparse : HeadParser} where
  PyCall-Ready : {c d : PyConnection} → PyCall py httparse c d → Ready c → Ready d
  PyCall-Ready {c} (receives value) h = receive_data-Ready py c value h
  PyCall-Ready {c} polls h = next_event-Ready httparse c h
  PyCall-Ready {c} (sends_request method target headers body http_version) h =
      send_request-Ready py c method target headers body http_version h
  PyCall-Ready {c} (sends_informational code headers reason http_version) h =
      send_informational-Ready py c code headers reason http_version h
  PyCall-Ready {c} (sends_response code headers body reason http_version) h =
      send_response-Ready py c code headers body reason http_version h
  PyCall-Ready {c} (sends_data value) h = send_data-Ready py c value h
  PyCall-Ready {c} (sends_parts value) h = send_data_parts-Ready py c value h
  PyCall-Ready {c} (ends_message trailers) h = end_of_message-Ready py c trailers h
  PyCall-Ready {c} starts_cycle h = start_next_cycle-Ready c h
  PyCall-Ready {c} closes h = close-Ready c h

-- After any calls on a new `Connection` object, in any order, with any arguments, those that raise among
-- them, the objects queued are as long as the core counts, none of them is empty, and they are payload
-- that the decoder has still to pass.
pub PyReached-Ready :
    {py : Python} {httparse : HeadParser} {c : PyConnection} → PyReached py httparse c → Ready c
PyReached-Ready (begins role head headers lenient e) = new-Ready role head headers lenient e
PyReached-Ready (goes_on r call) = PyCall-Ready call (PyReached-Ready r)
