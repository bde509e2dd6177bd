-- ===== src/Tests/Binding.antt =====
-- crates/h11r-python/src/api at concrete objects of the small runtime.
use h11r.Prelude.{
  ◌≡◌, refl, arith, inl, inr, Bool, true, false, none, some, List, [], ◌∷◌, codes, ok, err, on_ok,
}
use h11r.State
use h11r.State.{client, server, State, StateEvent, no_proposals, ConnectionState}
use h11r.State.Invariant.{Step, Reach, start, next}
use h11r.Headers
use h11r.Headers.{Headers, Field, push, iter}
use h11r.Method.{named, from_bytes}
use h11r.Events.{Limits, Request}
use h11r.Connection.{new as new_connection, Connection, default_cycle}
use h11r.Wire.Buffer.{Reader}
use h11r.Wire.Fields.{http11}
use h11r.Wire.Parse.{HeadParser}
use h11r.Binding.Python.{PyErr}
use h11r.Binding.Buffers.{with_buffer, body_nbytes}
use h11r.Binding.Fields.{py_headers, extract_headers, push_iterated}
use h11r.Binding.Events.{PyRole, PyRequest, data_to_py, new_request, request_from_core, request_eq}
use h11r.Binding.Connection.{
  PyConnection, new as new_py_connection, next_event, receive_data, close, send_data,
  send_data_parts,
}
use h11r.Binding.Extract.{pairs_of, extract_headers-py_headers, extract_headers-iterated}
use h11r.Binding.Rebuild.{new_request-from_core}
use h11r.Binding.Parts.{written, send_data_parts-send_data}
use h11r.Binding.Queue.{Ready, next_event-held}
use h11r.Binding.Raises.{in_error, next_event-raises}
use h11r.Connection.Receive.Events as Polling
use h11r.Connection.{peer_state}
use h11r.Wire.Errors.{RemoteProtocolError}
use h11r.Wire.Parse.{Failure}
use h11r.Wire.Parse.Calm.{ValidMethods}
use h11r.Binding.Events.{remote_error}
use h11r.Binding.Fields.{new_py}
use h11r.Binding.Calls.{begins, goes_on, receives, polls, closes, PyReached-Ready}
use h11r.Binding.Unchanged.{PySend, perform, sends_unchanged}
use h11r.Tests.Runtime.{Object, runtime, runtime-IsLawful}

abbrev finds_nothing : HeadParser
finds_nothing = record {
  parse_request = λ head max. ok none;
  parse_response = λ lenient head max. ok none;
  parse_headers = λ section max. ok none;
}

abbrev limits : Limits
limits = record { max_head_bytes = 100; max_header_count = 10 }

-- A client that reads a response of five bytes, which it was given as one object.
abbrev answering : ConnectionState
answering = record {
  client = State.send_body;
  server = State.send_body;
  keep_alive = true;
  proposals = no_proposals;
}

answering-Reach : Reach answering
unfolding State.new State.process_event
answering-Reach =
    next (next start (Step.event client (StateEvent.request no_proposals)))
      (Step.event server StateEvent.response)

abbrev holding : PyConnection
holding = record {
  core = record (new_connection client limits) {
    state = answering;
    held = 5;
    cycle = record default_cycle { reader = Reader.fixed 5 };
  };
  queue = codes "hello" ∷ [];
}

holding-Ready : Ready holding
unfolding h11r.Connection.Receive.Payload.hold_body_data new_connection State.state State.peer
holding-Ready = record {
  sound = record { reach = answering-Reach; held_fits = inr refl };
  counted = refl;
  some_bytes = (omega arith, tt);
}

next_event-held_example :
    ((flags : Bool × Bool) × ((next_event finds_nothing holding).1
        ≡ ok (data_to_py (codes "hello") flags.0 flags.1)))
    × ((next_event finds_nothing holding).0.queue ≡ [])
    × Ready (next_event finds_nothing holding).0
next_event-held_example =
    next_event-held finds_nothing holding (codes "hello") [] holding-Ready refl

-- The peer's error was recorded before.
abbrev failed : PyConnection
failed = record {
  core = record (new_connection client limits) { state = (State.process_error State.new server) };
  queue = [];
}

failed-Ready : Ready failed
unfolding new_connection
failed-Ready = record {
  sound = record { reach = next start (Step.poison server); held_fits = inl refl };
  counted = refl;
  some_bytes = tt;
}

finds_nothing-ValidMethods : ValidMethods finds_nothing
finds_nothing-ValidMethods = record { valid_method = λ bytes count head found. absurd (cc) }

abbrev told : PyErr
told = PyErr.remote_protocol_error "peer state is ERROR" none

next_event-raises_example :
    (failed.queue ≡ [])
    × ((error : RemoteProtocolError) × ((Polling.next_event finds_nothing failed.core).1
          ≡ err (Failure.failed error))
        × (told ≡ remote_error error))
    × (peer_state (next_event finds_nothing failed).0.core ≡ State.error)
    × ((next_event finds_nothing failed).0.core.state.keep_alive ≡ false)
    × ((next_event finds_nothing failed).0.queue ≡ [])
    × ((next_event finds_nothing (next_event finds_nothing failed).0).1
        ≡ err (remote_error (in_error (next_event finds_nothing failed).0.core)))
unfolding next_event h11r.Connection.Receive.Events.next_event new_connection State.process_error
    State.new State.state State.peer remote_error
next_event-raises_example =
    next_event-raises finds_nothing failed told finds_nothing-ValidMethods failed-Ready refl

abbrev fresh : PyConnection
fresh = record { core = new_connection server limits; queue = [] }

abbrev closed : PyConnection
closed =
    (close
      (receive_data runtime (next_event finds_nothing fresh).0 (Object.bytes (codes "GET"))).0).0

PyReached-Ready_example : Ready closed
unfolding new_py_connection new_connection h11r.Events.new_limits h11r.Binding.Events.role_from
PyReached-Ready_example = PyReached-Ready {py = runtime} {httparse = finds_nothing} (
    goes_on
      (goes_on (goes_on (begins PyRole.server 100 10 false {c = fresh} refl) polls)
        (receives (Object.bytes (codes "GET"))))
      closes)

sends_unchanged_example :
    (perform runtime fresh (PySend.body_data (Object.bytes (codes "late")))).0 ≡ fresh
unfolding perform new_connection h11r.Binding.Buffers.framed h11r.Connection.Body.send_data_framing
sends_unchanged_example =
    sends_unchanged runtime fresh (PySend.body_data (Object.bytes (codes "late"))) refl

send_data_parts-send_data_example :
    send_data runtime fresh (Object.bytes (codes "hello"))
    ≡ written (codes "hello") (send_data_parts runtime fresh (Object.bytes (codes "hello")))
unfolding with_buffer body_nbytes
send_data_parts-send_data_example =
    send_data_parts-send_data runtime fresh (Object.bytes (codes "hello")) (codes "hello") refl refl

abbrev two_fields : Headers
two_fields = push (push Headers.new (codes "Host") (codes "a")) (codes "Via") (codes "b")

extract_headers-py_headers_example :
    (read : Headers) × ((extract_headers runtime
          (some (runtime.new_tuple (pairs_of runtime (py_headers two_fields))))
        ≡ ok read)
      × (iter read ≡ iter two_fields))
extract_headers-py_headers_example = extract_headers-py_headers runtime runtime-IsLawful two_fields

abbrev pairs : List Object
pairs = pairs_of runtime ((codes "Host", codes "a") ∷ ((codes "Via", codes "b") ∷ []))

extract_headers-iterated_example :
    extract_headers runtime (some (runtime.new_tuple pairs))
    ≡ on_ok
        (runtime.try_iter (runtime.new_tuple pairs))
        (λ steps. push_iterated runtime Headers.new steps)
extract_headers-iterated_example =
    extract_headers-iterated runtime runtime-IsLawful (runtime.new_tuple pairs) pairs refl

abbrev patch : Request
patch = record {
  method = named (codes "PATCH");
  target = codes "/a";
  headers = two_fields;
  http_version = http11;
}

new_request-from_core_example :
    (new_request runtime
        (runtime.new_bytes (request_from_core patch).method)
        (runtime.new_bytes (request_from_core patch).target)
        (Object.fields two_fields)
        (some (runtime.new_bytes (request_from_core patch).http_version))
      ≡ ok (request_from_core patch))
    × ((made : PyRequest) × ((new_request runtime
              (runtime.new_bytes (request_from_core patch).method)
              (runtime.new_bytes (request_from_core patch).target)
              (runtime.new_tuple
                (pairs_of runtime (py_headers (request_from_core patch).headers.fields)))
              (some (runtime.new_bytes (request_from_core patch).http_version))
            ≡ ok made)
          × (request_eq made (request_from_core patch) ≡ true)))
    × (request_eq (request_from_core patch) (request_from_core patch) ≡ true)
unfolding from_bytes request_from_core new_py
new_request-from_core_example =
    new_request-from_core runtime runtime-IsLawful patch (Object.fields two_fields) refl refl
