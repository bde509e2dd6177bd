-- ===== src/Connection/Complete.antt =====
-- crates/h11r/src/connection/send.rs: a message that cannot be sent whole leaves the connection as it was.
use h11r.Prelude.{
  ℕ, ◌≡◌, refl, ap, sym, subst, arith, false, not, ◌&&◌, ◌||◌, Bytes, ◌==◌, length, ok, err, is_ok,
}
use h11r.Events.{Request, Response}
use h11r.Connection.{Connection, Outcome, and_then, response_has_no_body}
use h11r.Connection.Send.{send_request, send_response}
use h11r.Connection.Keeps.{
  Keeps, Keeps-self, send_request-Keeps, send_response-Keeps, complete_body-Keeps,
}
use h11r.Connection.Frame.{and_then-kept}
use h11r.Connection.Body.{
  expects_content, with_length, join_framing, complete_body, restored, send_complete,
  send_request_with_body_framing, send_response_with_body_framing, send_request_with_body,
  send_response_with_body,
}
use h11r.Wire.Errors.{LocalProtocolError}
use h11r.Wire.Lists.{has_framing_fields}

restored-unchanged :
    {A : Type 0} (c : Connection) (o : Outcome LocalProtocolError A)
    → Keeps c o.0
    → is_ok (restored c o).1 ≡ false
    → (restored c o).0 ≡ c
restored-unchanged c (d, ok a) h failed = absurd (ground arith)
restored-unchanged c (d, err e) h failed = sym (ap put_back h.kept)
  where
    put_back : Connection → Connection
    put_back x = record x { state = c.state; cycle = c.cycle }

restored-Keeps :
    {A : Type 0} (c : Connection) (o : Outcome LocalProtocolError A)
    → Keeps c o.0
    → Keeps c (restored c o).0
restored-Keeps c (d, ok a) h = h
restored-Keeps {A} c (d, err e) h =
    subst (λ x. Keeps c x) (sym (restored-unchanged {A = A} c (d, err e) h refl)) Keeps-self

head_and_body-Keeps :
    (write_head : Connection → Outcome LocalProtocolError Bytes) (c : Connection) (size : ℕ)
    → Keeps c (write_head c).0
    → Keeps c (and_then (write_head c) (λ d before. complete_body d size before)).0
head_and_body-Keeps write_head c size h =
    and_then-kept (Keeps c) (write_head c) _ h (λ d before k. complete_body-Keeps d size before k)

send_complete-Keeps :
    (write_head : Connection → Outcome LocalProtocolError Bytes) (c : Connection) (size : ℕ)
    → Keeps c (write_head c).0
    → Keeps c (send_complete write_head c size).0
unfolding send_complete
send_complete-Keeps write_head c size h =
    restored-Keeps c (and_then (write_head c) (λ d before. complete_body d size before))
      (head_and_body-Keeps write_head c size h)

pub send_request_with_body_framing-Keeps :
    (c : Connection) (request : Request) (size : ℕ)
    → Keeps c (send_request_with_body_framing c request size).0
unfolding send_request_with_body_framing
send_request_with_body_framing-Keeps c request size =
    send_complete-Keeps (λ d. send_request d stated) c size (send_request-Keeps c stated)
  where
    stated : Request
    stated = record request {
      headers =
          with_length request.headers
            ((expects_content request.method || not (size == 0))
              && not (has_framing_fields request.headers))
            size;
    }

pub send_response_with_body_framing-Keeps :
    (c : Connection) (response : Response) (size : ℕ)
    → Keeps c (send_response_with_body_framing c response size).0
unfolding send_response_with_body_framing
send_response_with_body_framing-Keeps c response size =
    send_complete-Keeps (λ d. send_response d stated) c size (send_response-Keeps c stated)
  where
    stated : Response
    stated = record response {
      headers =
          with_length response.headers
            (not (has_framing_fields response.headers)
              && not (response_has_no_body c response.status))
            size;
    }

-- If one step of a whole message fails, its head, its body or its end, then the connection is that of
-- before, for a head that changes no more than the states and the cycle.
send_complete_unchanged :
    (write_head : Connection → Outcome LocalProtocolError Bytes) (c : Connection) (size : ℕ)
    → Keeps c (write_head c).0
    → is_ok (send_complete write_head c size).1 ≡ false
    → (send_complete write_head c size).0 ≡ c
unfolding send_complete
send_complete_unchanged write_head c size h failed =
    restored-unchanged c (and_then (write_head c) (λ d before. complete_body d size before))
      (head_and_body-Keeps write_head c size h) failed

abbrev joined :
    {A B : Type 0} → Outcome LocalProtocolError A → (A → B) → Outcome LocalProtocolError B
joined o join = and_then o (λ d a. (d, ok (join a)))

joined-unchanged :
    {A B : Type 0} (c : Connection) (o : Outcome LocalProtocolError A) (join : A → B)
    → (is_ok o.1 ≡ false → o.0 ≡ c)
    → is_ok (joined o join).1 ≡ false
    → (joined o join).0 ≡ c
joined-unchanged c (d, ok a) join h failed = absurd (ground arith)
joined-unchanged c (d, err e) join h failed = h refl

pub request_framing-unchanged :
    (c : Connection) (request : Request) (size : ℕ)
    → is_ok (send_request_with_body_framing c request size).1 ≡ false
    → (send_request_with_body_framing c request size).0 ≡ c
unfolding send_request_with_body_framing
request_framing-unchanged c request size failed =
    send_complete_unchanged (λ d. send_request d stated) c size (send_request-Keeps c stated) failed
  where
    stated : Request
    stated = record request {
      headers =
          with_length request.headers
            ((expects_content request.method || not (size == 0))
              && not (has_framing_fields request.headers))
            size;
    }

-- A request with its body that fails, for its head, its body or its end, leaves the connection unchanged.
pub send_request_with_body_unchanged :
    (c : Connection) (request : Request) (body : Bytes)
    → is_ok (send_request_with_body c request body).1 ≡ false
    → (send_request_with_body c request body).0 ≡ c
unfolding send_request_with_body
send_request_with_body_unchanged c request body failed =
    joined-unchanged c (send_request_with_body_framing c request (length body))
      (λ parts. join_framing parts body) (request_framing-unchanged c request (length body)) failed

pub response_framing-unchanged :
    (c : Connection) (response : Response) (size : ℕ)
    → is_ok (send_response_with_body_framing c response size).1 ≡ false
    → (send_response_with_body_framing c response size).0 ≡ c
unfolding send_response_with_body_framing
response_framing-unchanged c response size failed =
    send_complete_unchanged (λ d. send_response d stated) c size (send_response-Keeps c stated)
      failed
  where
    stated : Response
    stated = record response {
      headers =
          with_length response.headers
            (not (has_framing_fields response.headers)
              && not (response_has_no_body c response.status))
            size;
    }

-- A response with its body that fails, for its head, its body or its end, leaves the connection unchanged.
pub send_response_with_body_unchanged :
    (c : Connection) (response : Response) (body : Bytes)
    → is_ok (send_response_with_body c response body).1 ≡ false
    → (send_response_with_body c response body).0 ≡ c
unfolding send_response_with_body
send_response_with_body_unchanged c response body failed =
    joined-unchanged c (send_response_with_body_framing c response (length body))
      (λ parts. join_framing parts body) (response_framing-unchanged c response (length body))
      failed
