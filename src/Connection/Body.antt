-- ===== src/Connection/Body.antt =====
-- crates/h11r/src/connection/send.rs: body data, the end of a message, and whole messages.
use h11r.Prelude.{
  ℕ, zero, suc, ◌-◌, Bool, false, not, ◌&&◌, ◌||◌, Option, none, some, [], ◌++◌, Bytes, codes,
  length, leb, ◌==◌, if◌then◌else◌, Result, ok, err,
}
use h11r.State.{State, state_eq, StateEvent}
use h11r.Headers
use h11r.Headers.{Headers, push, iter, no_fields}
use h11r.Method.{Method, method_eq, named}
use h11r.Events.{Request, Response, DataParts}
use h11r.Connection.{
  Connection, Outcome, and_then, attempt, require, local_state, advance_local, response_has_no_body,
}
use h11r.Connection.Send.{send_request, send_response}
use h11r.Wire.Buffer.{Framing}
use h11r.Wire.Errors.{LocalProtocolError, local}
use h11r.Wire.Lists.{has_framing_fields, validate_trailers}
use h11r.Wire.Number.{DataPrefix, no_prefix, chunk_size, prefix_bytes, to_decimal}
use h11r.Wire.Head.{crlf, write_headers}

-- The match of `send_data_framing`: the framing that is left, and what goes around the data.
unfoldable pub frame_data : Framing → ℕ → Result LocalProtocolError (Framing × (DataPrefix × Bytes))
frame_data (Framing.fixed remaining) size =
    if leb size remaining
    then ok (Framing.fixed (remaining - size), (no_prefix, []))
    else err (local "body exceeds Content-Length")
frame_data Framing.close_delimited size = ok (Framing.close_delimited, (no_prefix, []))
frame_data Framing.chunked size =
    if size == 0
    then ok (Framing.chunked, (no_prefix, []))
    else ok (Framing.chunked, (chunk_size size, crlf))

abbrev pub writing : Connection → Option Framing → Connection
writing c writer = record c {
  cycle = record c.cycle { writer = writer; waiting_for_continue = false };
}

unfoldable pub send_data_framing : Connection → ℕ → Outcome LocalProtocolError (DataPrefix × Bytes)
unfolding frame_data
send_data_framing c size =
    require c c.cycle.writer (local "no message body is being sent") (λ writer.
      attempt c (frame_data writer size) (λ framed.
        and_then (advance_local c StateEvent.body_data)
          (λ d _. (writing d (some framed.0), ok framed.1))))

unfoldable pub send_data : Connection → Bytes → Outcome LocalProtocolError Bytes
unfolding send_data_framing
send_data c bytes =
    and_then (send_data_framing c (length bytes))
      (λ d framed. (d, ok (prefix_bytes framed.0 ++ (bytes ++ framed.1))))

-- The body object stays as it is; its bytes are those of `as_ref`.
unfoldable pub send_data_parts :
    {T : Type 0} → (T → Bytes) → Connection → T → Outcome LocalProtocolError (DataParts T)
unfolding send_data_framing
send_data_parts as_ref c body =
    and_then (send_data_framing c (length (as_ref body)))
      (λ d framed. (d, ok (record { prefix = framed.0; body = body; suffix = framed.1 })))

-- The match of `end_of_message`: the bytes that end the message.
unfoldable pub finish_body : Framing → Headers → Result LocalProtocolError Bytes
finish_body Framing.chunked trailers =
    ok (write_headers (codes "0" ++ crlf) (iter trailers) ++ crlf)
finish_body Framing.close_delimited trailers =
    if no_fields trailers then ok [] else err (local "only chunked messages can carry trailers")
finish_body (Framing.fixed zero) trailers =
    if no_fields trailers then ok [] else err (local "only chunked messages can carry trailers")
finish_body (Framing.fixed (suc n)) trailers = err (local "body is shorter than Content-Length")

unfoldable pub end_of_message : Connection → Headers → Outcome LocalProtocolError Bytes
unfolding finish_body
end_of_message c trailers = attempt c (validate_trailers trailers) (λ _.
    require c c.cycle.writer (local "no message body is being sent") (λ writer.
      attempt c (finish_body writer trailers) (λ bytes.
        and_then (advance_local c StateEvent.end_of_message) (λ d _. (writing d none, ok bytes)))))

-- `if length != 0`: the framing of the data goes behind the head and before the end.
unfoldable pub frame_body : Connection → ℕ → Bytes → Outcome LocalProtocolError (Bytes × Bytes)
unfolding send_data_framing
frame_body c size before =
    if size == 0
    then (c, ok (before, []))
    else and_then (send_data_framing c size)
        (λ d framed. (d, ok (before ++ prefix_bytes framed.0, framed.1)))

-- What follows the head in `send_complete`.
unfoldable pub complete_body : Connection → ℕ → Bytes → Outcome LocalProtocolError (Bytes × Bytes)
unfolding frame_body end_of_message
complete_body c size before =
    if state_eq (local_state c) State.switched_protocol
    then (if size == 0
        then (c, ok (before, []))
        else (c, err (local "a successful CONNECT response cannot carry content")))
    else and_then (frame_body c size before) (λ d parts.
      and_then (end_of_message d Headers.new) (λ e bytes. (e, ok (parts.0, parts.1 ++ bytes))))

-- An error puts the saved state and cycle back.
abbrev pub restored :
    {A : Type 0} → Connection → Outcome LocalProtocolError A → Outcome LocalProtocolError A
restored saved (c, ok a) = (c, ok a)
restored saved (c, err e) = (record c { state = saved.state; cycle = saved.cycle }, err e)

unfoldable pub send_complete :
    (Connection → Outcome LocalProtocolError Bytes)
    → Connection
    → ℕ
    → Outcome LocalProtocolError (Bytes × Bytes)
unfolding complete_body
send_complete write_head c size =
    restored c (and_then (write_head c) (λ d before. complete_body d size before))

abbrev pub expects_content : Method → Bool
expects_content method =
    method_eq (named (codes "POST")) method
    || method_eq (named (codes "PUT")) method
    || method_eq (named (codes "PATCH")) method

abbrev pub with_length : Headers → Bool → ℕ → Headers
with_length headers added size =
    if added then push headers (codes "Content-Length") (to_decimal size) else headers

unfoldable pub send_request_with_body_framing :
    Connection → Request → ℕ → Outcome LocalProtocolError (Bytes × Bytes)
unfolding send_complete
send_request_with_body_framing c request size =
    let added =
      (expects_content request.method || not (size == 0))
      && not (has_framing_fields request.headers) in
    send_complete
      (λ d. send_request d (record request { headers = with_length request.headers added size })) c
      size

unfoldable pub send_response_with_body_framing :
    Connection → Response → ℕ → Outcome LocalProtocolError (Bytes × Bytes)
unfolding send_complete
send_response_with_body_framing c response size =
    let added =
      not (has_framing_fields response.headers) && not (response_has_no_body c response.status) in
    send_complete
      (λ d. send_response d (record response { headers = with_length response.headers added size }))
      c size

unfoldable pub join_framing : Bytes × Bytes → Bytes → Bytes
join_framing (out, after) body = (out ++ body) ++ after

unfoldable pub send_request_with_body :
    Connection → Request → Bytes → Outcome LocalProtocolError Bytes
unfolding send_request_with_body_framing join_framing
send_request_with_body c request body =
    and_then (send_request_with_body_framing c request (length body))
      (λ d framing. (d, ok (join_framing framing body)))

unfoldable pub send_response_with_body :
    Connection → Response → Bytes → Outcome LocalProtocolError Bytes
unfolding send_response_with_body_framing join_framing
send_response_with_body c response body =
    and_then (send_response_with_body_framing c response (length body))
      (λ d framing. (d, ok (join_framing framing body)))
