-- ===== src/Binding/Unchanged.antt =====
-- crates/h11r-python/src/api/connection.rs: a send that raises leaves the `Connection` object as it was.
use h11r.Prelude.{
  ℕ, ◌≡◌, refl, ap, arith, false, Option, none, some, ◌++◌, Bytes, length, ok, err, is_ok, on_ok,
}
use h11r.Events.{Request, Response}
use h11r.Connection.{Connection, Outcome, and_then}
use h11r.Connection.Send as Send
use h11r.Connection.Body as Body
use h11r.Connection.Body.{send_request_with_body_framing, send_response_with_body_framing}
use h11r.Connection.Complete.{request_framing-unchanged, response_framing-unchanged}
use h11r.Connection.Unchanged.{
  Unchanged, attempt-Unchanged, send_request-Unchanged, send_informational_response-Unchanged,
  send_response-Unchanged, send_data_framing-Unchanged, end_of_message-Unchanged,
}
use h11r.Wire.Errors.{LocalProtocolError}
use h11r.Wire.Number.{DataPrefix}
use h11r.Binding.Python.{PyErr, PyResult, Python}
use h11r.Binding.Buffers.{with_buffer, raising, framed}
use h11r.Binding.Fields.{extract_headers}
use h11r.Binding.Events.{status_code, read_request, read_response}
use h11r.Binding.Connection.{
  PyConnection, PyOutcome, on_core, reading, frame_parts, write_request, send_request,
  send_informational_response, write_response, send_response, send_data, end_of_message,
}

-- If the call raises, then the object is `c`.
record Same {A : Type 0} (c : PyConnection) (o : PyOutcome A) : Type 0 where
  same : is_ok o.1 ≡ false → o.0 ≡ c

reading-Same :
    {A B : Type 0} {c : PyConnection} (r : PyResult A) (next : A → PyOutcome B)
    → ((a : A) → Same c (next a))
    → Same c (reading c r next)
reading-Same (ok a) next k = k a
reading-Same (err e) next k = record { same = λ _. refl }

on_core-Same :
    {A : Type 0} {c : PyConnection} (o : Outcome PyErr A)
    → Unchanged c.core o
    → Same c (on_core c o)
on_core-Same {c = c} o h = record {
  same = λ failed. ap (λ d. record c { core = d }) (h.kept failed);
}

raising-Unchanged :
    {A : Type 0} {c : Connection} (o : Outcome LocalProtocolError A)
    → Unchanged c o
    → Unchanged c (raising o)
raising-Unchanged (d, ok a) h = record { kept = λ failed. absurd (ground arith) }
raising-Unchanged (d, err e) h = record { kept = λ _. h.kept refl }

-- An error goes through steps that cannot fail.
mapped-Unchanged :
    {E A B : Type 0} {c : Connection} (o : Outcome E A) (f : A → B)
    → Unchanged c o
    → Unchanged c (and_then o (λ d a. (d, ok (f a))))
mapped-Unchanged (d, ok a) f h = record { kept = λ failed. absurd (ground arith) }
mapped-Unchanged (d, err e) f h = record { kept = λ _. h.kept refl }

framed-Unchanged :
    (py : Python) (c : Connection) (value : py.Object)
    (framing : Connection → ℕ → Outcome LocalProtocolError (Bytes × Bytes))
    → ((size : ℕ) → Unchanged c (framing c size))
    → Unchanged c (framed py c value framing)
unfolding framed
framed-Unchanged py c value framing k =
    attempt-Unchanged (with_buffer py value (λ bytes. bytes)) _ (λ bytes.
      mapped-Unchanged (raising (framing c (length bytes))) (λ parts. (parts.0 ++ bytes) ++ parts.1)
        (raising-Unchanged (framing c (length bytes)) (k (length bytes))))

frame_parts-Unchanged :
    {c : Connection} (o : Outcome LocalProtocolError (DataPrefix × Bytes))
    → Unchanged c o
    → Unchanged c (frame_parts o)
frame_parts-Unchanged (d, ok parts) h = record { kept = λ failed. absurd (ground arith) }
frame_parts-Unchanged (d, err e) h = record { kept = λ _. h.kept refl }

module _ (py : Python) (c : PyConnection) where
  write_request-Same :
      (request : Request) (body : Option py.Object) → Same c (write_request py c request body)
  unfolding write_request
  write_request-Same request none =
      on_core-Same (raising (Send.send_request c.core request)) (
        raising-Unchanged (Send.send_request c.core request)
          (send_request-Unchanged c.core request))
  write_request-Same request (some value) =
      on_core-Same
        (framed py c.core value (λ core size. send_request_with_body_framing core request size))
        (framed-Unchanged py c.core value _
          (λ size. record { kept = request_framing-unchanged c.core request size }))

  write_response-Same :
      (response : Response) (body : Option py.Object) → Same c (write_response py c response body)
  unfolding write_response
  write_response-Same response none = on_core-Same (raising (Send.send_response c.core response)) (
      raising-Unchanged (Send.send_response c.core response)
        (send_response-Unchanged c.core response))
  write_response-Same response (some value) =
      on_core-Same
        (framed py c.core value (λ core size. send_response_with_body_framing core response size))
        (framed-Unchanged py c.core value _
          (λ size. record { kept = response_framing-unchanged c.core response size }))

-- The calls that write, with their arguments.
pub data PySend (py : Python) : Type 0 where
  request : (method target headers : py.Object) (body http_version : Option py.Object) → PySend py
  informational : (code : py.Object) (headers reason http_version : Option py.Object) → PySend py
  response : (code : py.Object) (headers body reason http_version : Option py.Object) → PySend py
  body_data : py.Object → PySend py
  end : Option py.Object → PySend py

unfoldable pub perform : (py : Python) → PyConnection → PySend py → PyOutcome Bytes
unfolding send_request send_informational_response send_response send_data end_of_message
perform py c (request method target headers body http_version) =
    send_request py c method target headers body http_version
perform py c (informational code headers reason http_version) =
    send_informational_response py c code headers reason http_version
perform py c (response code headers body reason http_version) =
    send_response py c code headers body reason http_version
perform py c (body_data value) = send_data py c value
perform py c (end trailers) = end_of_message py c trailers

perform-Same : (py : Python) (c : PyConnection) (call : PySend py) → Same c (perform py c call)
unfolding perform
perform-Same py c (request method target headers body http_version) =
    reading-Same (read_request py method target (some headers) http_version) _
      (λ request. write_request-Same py c request body)
perform-Same py c (informational code headers reason http_version) =
    reading-Same (on_ok (status_code py code) (λ s. read_response py s headers reason http_version))
      _
      (λ response. on_core-Same (raising (Send.send_informational_response c.core response)) (
        raising-Unchanged (Send.send_informational_response c.core response)
          (send_informational_response-Unchanged c.core response)))
perform-Same py c (response code headers body reason http_version) =
    reading-Same (on_ok (status_code py code) (λ s. read_response py s headers reason http_version))
      _ (λ response. write_response-Same py c response body)
perform-Same py c (body_data value) =
    on_core-Same
      (framed py c.core value (λ core size. frame_parts (Body.send_data_framing core size)))
      (framed-Unchanged py c.core value _ (λ size.
        frame_parts-Unchanged (Body.send_data_framing c.core size)
          (send_data_framing-Unchanged c.core size)))
perform-Same py c (end trailers) = reading-Same (extract_headers py trailers) _ (λ fields.
    on_core-Same (raising (Body.end_of_message c.core fields)) (
      raising-Unchanged (Body.end_of_message c.core fields)
        (end_of_message-Unchanged c.core fields)))

-- A request, an informational or a final response, with or without a body, a piece of body or an end of a
-- message that raises, for its arguments, its head, its framing or the state, leaves the object as it was.
pub sends_unchanged :
    (py : Python) (c : PyConnection) (call : PySend py)
    → is_ok (perform py c call).1 ≡ false
    → (perform py c call).0 ≡ c
sends_unchanged py c call = (perform-Same py c call).same
