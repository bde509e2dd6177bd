-- ===== src/Tests/Exchange.antt =====
-- crates/h11r/src/connection at concrete connections, with a parser of heads that finds nothing.
use h11r.Prelude.{
  ◌+◌, ◌-◌, ◌≡◌, refl, arith, inr, true, false, none, some, [], ◌∷◌, ◌++◌, Bytes, codes, length, ok,
  err, is_ok,
}
use h11r.State
use h11r.State.{client, server, State, no_proposals}
use h11r.Headers
use h11r.Headers.{Headers, push}
use h11r.Method.{named}
use h11r.Events.{Limits, Request, Response}
use h11r.Connection.{
  new as new_connection, Connection, default_cycle, is_client, peer_state, advance_local,
  start_next_cycle,
}
use h11r.Connection.Body.{send_data, end_of_message}
use h11r.Connection.Lengths.{concat, content_length_exact}
use h11r.Connection.Chunks.{send_data-chunk}
use h11r.Connection.Lifecycle.{is_reusable, start_next_cycle_iff}
use h11r.Connection.Receive.Payload.{hold_body_data, next_event_in_place}
use h11r.Connection.Receive.Events.{next_event, next_event_inner, event_fuel}
use h11r.Connection.Receive.Poison.{next_event-poisons}
use h11r.Connection.Later.{Later}
use h11r.Connection.Receive.Payload.{paused}
use h11r.Connection.Receive.Events.{hide_status}
use h11r.Connection.Receive.Fuel.{Poll, unrolled, next_event_inner_fuel}
use h11r.Connection.Receive.Held.{HeldFits, next_event_in_place-HeldFits}
use h11r.Wire.Buffer.{Framing, Reader}
use h11r.Wire.Errors.{RemoteProtocolError, remote}
use h11r.Wire.Fields.{http11}
use h11r.Wire.Lists.{validate_trailers}
use h11r.Wire.Number.{hex_digits, digit_count, chunk_size, prefix_bytes, no_prefix}
use h11r.Wire.Chunked.{parse_chunk_header}
use h11r.Wire.Head.{crlf}
use h11r.Wire.Parse.{HeadParser, failed}

abbrev limits : Limits
limits = record { max_head_bytes = 100; max_header_count = 10 }

abbrev idle_client : Connection
idle_client = new_connection client limits

abbrev idle_server : Connection
idle_server = new_connection server limits

abbrev finds_nothing : HeadParser
finds_nothing = record {
  parse_request = λ head max. ok none;
  parse_response = λ lenient head max. ok none;
  parse_headers = λ section max. ok none;
}

-- A client that has sent the head of a request with five bytes of content.
abbrev posting : Connection
posting = record idle_client {
  state = record {
    client = State.send_body;
    server = State.send_response;
    keep_alive = true;
    proposals = no_proposals;
  };
  cycle = record default_cycle { writer = some (Framing.fixed 5) };
}

-- A server that has read the head of a request with five bytes of content, three of them held.
abbrev reading : Connection
reading = record idle_server {
  state = record {
    client = State.send_body;
    server = State.send_response;
    keep_alive = true;
    proposals = no_proposals;
  };
  held = 3;
  cycle = record default_cycle { reader = Reader.fixed 5 };
}

abbrev failing : Connection
failing = record idle_client {
  state = record {
    client = State.send_body;
    server = State.error;
    keep_alive = false;
    proposals = no_proposals;
  };
}

abbrev get : Request
get = record {
  method = named (codes "GET");
  target = codes "/";
  headers = Headers.new;
  http_version = http11;
}

abbrev fine : Response
fine = record {
  status = record { as_u16 = 200 };
  reason = codes "OK";
  headers = Headers.new;
  http_version = http11;
}

-- Heads that announce five bytes, with no body to follow.
abbrev announced : Headers
announced = push Headers.new (codes "Content-Length") (codes "5")

abbrev short_request : Request
short_request = record get { headers = push announced (codes "Host") (codes "a") }

abbrev short_response : Response
short_response = record fine { headers = announced }

abbrev answering : Connection
answering = record idle_server {
  state = record {
    client = State.done;
    server = State.send_response;
    keep_alive = true;
    proposals = no_proposals;
  };
  peer_version = some http11;
}

content_length_exact_example :
    (codes "hello" ≡ concat (codes "he" ∷ codes "llo" ∷ [])) × (length (codes "hello") ≡ 5)
unfolding send_data advance_local State.process_event new_connection end_of_message
    validate_trailers Headers.is_valid Headers.new Headers.no_fields prefix_bytes no_prefix
content_length_exact_example =
    content_length_exact posting 5 (codes "he" ∷ codes "llo" ∷ []) Headers.new (codes "hello") refl
      refl

start_next_cycle_iff_example :
    (is_ok (start_next_cycle posting).1 ≡ is_reusable posting)
    × (is_reusable posting ≡ true
        → (start_next_cycle posting).0
          ≡ record posting { state = State.new; cycle = default_cycle })
start_next_cycle_iff_example = start_next_cycle_iff posting

abbrev refused : RemoteProtocolError
refused = remote "peer state is ERROR" none

next_event-poisons_example :
    (peer_state (next_event finds_nothing failing).0 ≡ State.error)
    × ((next_event finds_nothing failing).0.state.keep_alive ≡ false)
    × (is_client (next_event finds_nothing failing).0.role ≡ true
        → refused.suggested_status_code ≡ none)
    × ((d : Connection)
        → Later finds_nothing (next_event finds_nothing failing).0 d
        → (peer_state d ≡ State.error)
          × (d.state.keep_alive ≡ false)
          × ((next_event finds_nothing d).1 ≡ err (failed (hide_status d refused))))
unfolding next_event State.state State.peer new_connection
next_event-poisons_example = next_event-poisons finds_nothing failing refused refl

abbrev pauses : Poll
pauses c = (c, ok paused)

next_event_inner_fuel_example :
    (next_event_inner finds_nothing event_fuel reading
      ≡ unrolled finds_nothing event_fuel pauses reading)
    × (next_event_inner finds_nothing (event_fuel + 1) reading
        ≡ next_event_inner finds_nothing event_fuel reading)
next_event_inner_fuel_example = next_event_inner_fuel finds_nothing reading 1 pauses

next_event_in_place-HeldFits_example :
    (is_ok (next_event_in_place reading 2).1 ≡ true)
    × ((next_event_in_place reading 2).0.held ≡ reading.held - 2)
    × HeldFits (next_event_in_place reading 2).0
unfolding hold_body_data new_connection State.state State.peer
next_event_in_place-HeldFits_example =
    next_event_in_place-HeldFits reading 2 (inr refl) (omega arith) (omega arith)

-- A client that has sent the head of a request under the chunked coding.
abbrev streaming : Connection
streaming = record posting { cycle = record default_cycle { writer = some Framing.chunked } }

abbrev chunk : Bytes
chunk = (hex_digits (digit_count 5) 5 ++ crlf) ++ (codes "hello" ++ crlf)

send_data-chunk_example :
    (chunk ≡ (hex_digits (digit_count 5) 5 ++ crlf) ++ (codes "hello" ++ crlf))
    × (parse_chunk_header (hex_digits (digit_count 5) 5) ≡ some 5)
    × ((send_data streaming (codes "hello")).0.cycle.writer ≡ some Framing.chunked)
unfolding send_data advance_local State.process_event new_connection prefix_bytes hex_digits
    chunk_size digit_count
send_data-chunk_example =
    send_data-chunk streaming (codes "hello") chunk refl (omega arith) (omega arith) refl
