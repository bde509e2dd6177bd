-- ===== src/Binding/Sending.antt =====
-- crates/h11r-python/src/api/connection.rs: the queue behind what a `Connection` object sends.
use h11r.Prelude.{Option, none, some, Bytes, ok, err, on_ok}
use h11r.Events.{Request, Response}
use h11r.Connection as Core
use h11r.Connection.{Connection, Outcome, is_client, peer_state}
use h11r.Connection.Keeps.{
  Keeps, Keeps-self, send_request-Keeps, send_informational_response-Keeps, send_response-Keeps,
  send_data_framing-Keeps, end_of_message-Keeps, close-Keeps,
}
use h11r.Connection.Complete.{
  send_request_with_body_framing-Keeps, send_response_with_body_framing-Keeps,
}
use h11r.Connection.Sound.{start_next_cycle-Sound}
use h11r.Connection.Send as Send
use h11r.Connection.Body as Body
use h11r.Wire.Errors.{LocalProtocolError}
use h11r.Wire.Number.{DataPrefix}
use h11r.Binding.Python.{Python}
use h11r.Binding.Buffers.{body_nbytes, raising, framed}
use h11r.Binding.Fields.{extract_headers}
use h11r.Binding.Events.{status_code, read_request, read_response}
use h11r.Binding.Connection.{
  PyConnection, write_request, send_request, send_informational_response, write_response,
  send_response, frame_parts, send_data, send_data_parts, end_of_message, start_next_cycle, close,
}
use h11r.Binding.Queue.{Ready}
use h11r.Binding.Ready.{
  Ready-core, Ready-Keeps, reading-Ready, on_core-Ready, raising-Keeps, framed-Keeps,
  start_next_cycle-held,
}

module _ (py : Python) where
  pub send_request-Ready :
      (c : PyConnection) (method target headers : py.Object) (body http_version : Option py.Object)
      → Ready c
      → Ready (send_request py c method target headers body http_version).0
  unfolding send_request write_request
  send_request-Ready c method target headers body http_version h =
      reading-Ready (read_request py method target (some headers) http_version) _ h
        (λ request. written request body)
    where
      written : (request : Request) (o : Option py.Object) → Ready (write_request py c request o).0
      written request none =
          on_core-Ready (raising (Send.send_request c.core request))
            (raising-Keeps (Send.send_request c.core request) (send_request-Keeps c.core request)) h
      written request (some value) =
          on_core-Ready
            (framed py c.core value
              (λ core size. Body.send_request_with_body_framing core request size))
            (framed-Keeps py c.core value _
              (λ size. send_request_with_body_framing-Keeps c.core request size))
            h

  pub send_informational-Ready :
      (c : PyConnection) (code : py.Object) (headers reason http_version : Option py.Object)
      → Ready c
      → Ready (send_informational_response py c code headers reason http_version).0
  unfolding send_informational_response
  send_informational-Ready c code headers reason http_version h =
      reading-Ready
        (on_ok (status_code py code) (λ s. read_response py s headers reason http_version)) _ h
        (λ response.
          on_core-Ready (raising (Send.send_informational_response c.core response))
            (raising-Keeps (Send.send_informational_response c.core response)
              (send_informational_response-Keeps c.core response))
            h)

  pub send_response-Ready :
      (c : PyConnection) (code : py.Object) (headers body reason http_version : Option py.Object)
      → Ready c
      → Ready (send_response py c code headers body reason http_version).0
  unfolding send_response write_response
  send_response-Ready c code headers body reason http_version h =
      reading-Ready
        (on_ok (status_code py code) (λ s. read_response py s headers reason http_version)) _ h
        (λ response. written response body)
    where
      written :
          (response : Response) (o : Option py.Object) → Ready (write_response py c response o).0
      written response none =
          on_core-Ready (raising (Send.send_response c.core response))
            (raising-Keeps (Send.send_response c.core response)
              (send_response-Keeps c.core response))
            h
      written response (some value) =
          on_core-Ready
            (framed py c.core value
              (λ core size. Body.send_response_with_body_framing core response size))
            (framed-Keeps py c.core value _
              (λ size. send_response_with_body_framing-Keeps c.core response size))
            h

  frame_parts-Keeps :
      {c : Connection} (o : Outcome LocalProtocolError (DataPrefix × Bytes))
      → Keeps c o.0
      → Keeps c (frame_parts o).0
  frame_parts-Keeps (d, ok parts) k = k
  frame_parts-Keeps (d, err e) k = k

  pub send_data-Ready :
      (c : PyConnection) (value : py.Object) → Ready c → Ready (send_data py c value).0
  unfolding send_data
  send_data-Ready c value h =
      on_core-Ready
        (framed py c.core value (λ core size. frame_parts (Body.send_data_framing core size)))
        (framed-Keeps py c.core value _ (λ size.
          frame_parts-Keeps (Body.send_data_framing c.core size)
            (send_data_framing-Keeps c.core size Keeps-self)))
        h

  pub send_data_parts-Ready :
      (c : PyConnection) (value : py.Object) → Ready c → Ready (send_data_parts py c value).0
  unfolding send_data_parts
  send_data_parts-Ready c value h = reading-Ready (body_nbytes py value) _ h (λ size.
      Ready-Keeps
        (raising-Keeps (Body.send_data_framing c.core size)
          (send_data_framing-Keeps c.core size Keeps-self))
        h)

  pub end_of_message-Ready :
      (c : PyConnection) (trailers : Option py.Object)
      → Ready c
      → Ready (end_of_message py c trailers).0
  unfolding end_of_message
  end_of_message-Ready c trailers h = reading-Ready (extract_headers py trailers) _ h (λ fields.
      on_core-Ready (raising (Body.end_of_message c.core fields))
        (raising-Keeps (Body.end_of_message c.core fields)
          (end_of_message-Keeps c.core fields Keeps-self))
        h)

pub start_next_cycle-Ready : (c : PyConnection) → Ready c → Ready (start_next_cycle c).0
unfolding start_next_cycle
start_next_cycle-Ready c h =
    Ready-core (Core.start_next_cycle c.core).0 (start_next_cycle-Sound c.core h.sound)
      (start_next_cycle-held c.core) h

pub close-Ready : (c : PyConnection) → Ready c → Ready (close c).0
unfolding close
close-Ready c h =
    on_core-Ready (raising (Core.close c.core))
      (raising-Keeps (Core.close c.core) (close-Keeps c.core)) h
