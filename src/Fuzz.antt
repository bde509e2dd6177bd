-- ===== src/Fuzz.antt =====
-- fuzz/fuzz_targets/common/mod.rs: what the fuzz targets share.
-- A failed assertion, an `unwrap` of an error and a panic of the library are values.
pub mod Runs
pub mod Polls
pub mod Start
pub mod Bounded
pub mod Holding
pub mod Returns
use Prim.Native.Nat.{bit_and}
use Prim.Native.String.{String}
use h11r.Prelude.{
  ℕ, zero, suc, Bool, true, false, Option, none, some, List, [], ◌∷◌, ◌++◌, Bytes, codes, ◌==◌,
  if◌then◌else◌, Result, ok, err, on_ok,
}
use h11r.State.{Role, client, server, State}
use h11r.Headers
use h11r.Headers.{Headers, Field}
use h11r.Method.{from_bytes}
use h11r.Events.{Event, NextEvent, Request, Limits, new_limits, EndOfMessage}
use h11r.Connection.{
  Connection, new as new_connection, lenient as make_lenient, Outcome as Called, is_client,
  local_state, peer_state, trailing_data,
}
use h11r.Connection.Send.{send_request}
use h11r.Connection.Body.{end_of_message}
use h11r.Connection.Receive.Events.{next_event}
use h11r.Wire.Fields.{http11}
use h11r.Wire.Head.{crlf}
use h11r.Wire.Parse.{HeadParser, Failure, failed, panicked}

pub data Panic : Type 0 where
  unbounded_progress unreachable unwrapped : Panic
  unwound : String → Panic

abbrev pub max_events : ℕ
max_events = 32

abbrev pub unwrap : {E A : Type 0} → Result E A → Result Panic A
unwrap (ok a) = ok a
unwrap (err e) = err Panic.unwrapped

-- A call on the connection, with `unwrap` behind it.
abbrev pub unwrap_call : {E A : Type 0} → Called E A → Result Panic Connection
unwrap_call (c, ok a) = ok c
unwrap_call (c, err e) = err Panic.unwrapped

abbrev lines : List String → Bytes
lines [] = []
lines (line ∷ rest) = codes line ++ (crlf ++ lines rest)

unfoldable pub client_wire : ℕ → Bytes
client_wire choice =
    if choice == 1
    then lines ("HTTP/1.1 200 OK" ∷ "Content-Length: 4" ∷ "" ∷ [])
    else if choice == 2
    then lines ("HTTP/1.1 200 Connection Established" ∷ "" ∷ [])
    else if choice == 3
    then lines (
        "HTTP/1.1 101 Switching Protocols" ∷ "Connection: upgrade" ∷ "Upgrade: next-protocol" ∷ ""
        ∷ [])
    else lines ("HTTP/1.1 200 OK" ∷ "Content-Length: 4" ∷ "" ∷ []) ++ codes "body"

unfoldable pub server_wire : ℕ → Bytes
server_wire choice =
    if choice == 1
    then lines ("POST / HTTP/1.1" ∷ "Host: example.test" ∷ "Content-Length: 4" ∷ "" ∷ [])
      ++ codes "body"
    else if choice == 2
    then lines (
        "POST / HTTP/1.1" ∷ "Host: example.test" ∷ "Transfer-Encoding: chunked" ∷ "" ∷ "4" ∷ "body"
        ∷ "0" ∷ "" ∷ [])
    else if choice == 3
    then lines (
        "POST / HTTP/1.1" ∷ "Host: example.test" ∷ "Transfer-Encoding: chunked"
        ∷ "Content-Length: 4" ∷ "" ∷ [])
      ++ codes "body"
    else lines ("GET / HTTP/1.1" ∷ "Host: example.test" ∷ "" ∷ [])

unfoldable pub seed_wire : Role → ℕ → Bytes
unfolding client_wire server_wire
seed_wire role control =
    let choice = bit_and control 3 in
    if is_client role then client_wire choice else server_wire choice

-- `Headers::from`
unfoldable pub headers : List Field → Headers
headers fields = Headers.extend Headers.new fields

abbrev named_host : String → Field
named_host host = (codes "Host", codes host)

-- The method and the fields of the request that a client has sent.
abbrev chosen_request : ℕ → Bytes × List Field
chosen_request choice =
    if choice == 1
    then (codes "HEAD", named_host "example.test" ∷ [])
    else if choice == 2
    then (codes "CONNECT", named_host "example.test:443" ∷ [])
    else if choice == 3
    then (
      codes "GET",
      named_host "example.test"
          ∷ (codes "Connection", codes "upgrade")
          ∷ (codes "Upgrade", codes "next-protocol")
          ∷ [],
    )
    else (codes "GET", named_host "example.test" ∷ [])

unfoldable pub client_request : ℕ → Result Panic Request
unfolding headers
client_request choice =
    let (method, fields) = chosen_request choice in
    on_ok (unwrap (from_bytes method)) (λ token. ok (record {
      method = token;
      target = if choice == 2 then codes "example.test:443" else codes "/";
      headers = headers fields;
      http_version = http11;
    }))

-- The connection by the bits of the control byte.
unfoldable pub connection_by : Role → ℕ → Bool → Bool → Result Panic Connection
unfolding client_request
connection_by role choice small is_lenient =
    on_ok
      (if small
        then unwrap (new_limits 512 8)
        else ok (record { max_head_bytes = 65536; max_header_count = 100 }))
      (λ limits.
        let fresh = new_connection role limits in
        let c = if is_lenient then make_lenient fresh else fresh in
        if is_client role
        then on_ok (client_request choice) (λ request.
          on_ok (unwrap_call (send_request c request)) (λ sent.
            if choice == 3 then unwrap_call (end_of_message sent Headers.new) else ok sent))
        else ok c)

abbrev pub not_zero : ℕ → Bool
not_zero n = if n == 0 then false else true

unfoldable pub connection : Role → ℕ → Result Panic Connection
unfolding connection_by
connection role control =
    connection_by role (bit_and control 3) (not_zero (bit_and control 128))
      (not_zero (bit_and control 32))

pub data Terminal : Type 0 where
  complete : Terminal
  error : Option ℕ → Terminal

pub record Outcome : Type 0 where
  pub terminal : Terminal
  pub events : List Event
  pub body : Bytes
  pub states : State × State
  pub trailing : Bytes

unfoldable pub detach : Event → Result Panic Event
detach (Event.request head) = ok (Event.request head)
detach (Event.informational_response head) = ok (Event.informational_response head)
detach (Event.response head) = ok (Event.response head)
detach (Event.end_of_message end) = ok (Event.end_of_message end)
detach Event.connection_closed = ok Event.connection_closed
detach (Event.body_data _) = err Panic.unreachable

-- The connection and the two vectors that a poll writes.
pub record Drained : Type 0 where
  pub connection : Connection
  pub events : List Event
  pub body : Bytes

abbrev pub is_closed : Event → Bool
is_closed Event.connection_closed = true
is_closed _ = false

-- `match connection.next_event()`; `again` is the rest of the loop.
unfoldable pub poll_once :
    (Drained → Result Panic (Drained × Terminal))
    → Drained
    → Called Failure NextEvent
    → Result Panic (Drained × Terminal)
unfolding detach
poll_once again s (c, ok (NextEvent.event (Event.body_data part))) =
    again (record s { connection = c; body = s.body ++ part.bytes })
poll_once again s (c, ok (NextEvent.event e)) = on_ok (detach e) (λ kept.
    let next = record s { connection = c; events = s.events ++ kept ∷ [] } in
    if is_closed e then ok (next, Terminal.complete) else again next)
poll_once again s (c, ok NextEvent.need_data) = ok (record s { connection = c }, Terminal.complete)
poll_once again s (c, ok NextEvent.paused) = ok (record s { connection = c }, Terminal.complete)
poll_once again s (c, err (failed e)) =
    ok (record s { connection = c }, Terminal.error e.suggested_status_code)
poll_once again s (c, err (panicked message)) = err (Panic.unwound message)

unfoldable pub poll : HeadParser → ℕ → Drained → Result Panic (Drained × Terminal)
unfolding poll_once
poll httparse zero s = err Panic.unbounded_progress
poll httparse (suc budget) s =
    poll_once (λ t. poll httparse budget t) s (next_event httparse s.connection)

unfoldable pub finish : Drained → Terminal → Outcome
finish s terminal = record {
  terminal = terminal;
  events = s.events;
  body = s.body;
  states = (local_state s.connection, peer_state s.connection);
  trailing = (trailing_data s.connection).0;
}
