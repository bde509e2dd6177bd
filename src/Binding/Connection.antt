-- ===== src/Binding/Connection.antt =====
-- crates/h11r-python/src/api/connection.rs: the `Connection` class.
use h11r.Prelude.{
  ℕ, ◌+◌, Bool, Option, none, some, List, [], ◌∷◌, ◌++◌, Bytes, length, ok, err, on_ok, map_err,
  if◌then◌else◌,
}
use h11r.Events.{Request, Response, NextEvent, new_limits}
use h11r.Connection.{
  Connection, Outcome, new as new_core, lenient as lenient_core, attempt, keep_alive, trailing_data,
  client_is_waiting_for_100_continue, peer_http_version, local_state, peer_state,
}
use h11r.Connection as Core
use h11r.Connection.Send
use h11r.Connection.Body
use h11r.Connection.Body.{
  send_data_framing, send_request_with_body_framing, send_response_with_body_framing,
}
use h11r.Connection.Receive
use h11r.Connection.Receive.Payload.{hold_body_data, next_event_in_place}
use h11r.Connection.Receive.Events as Polling
use h11r.Wire.Number.{DataPrefix, prefix_bytes}
use h11r.Wire.Parse.{HeadParser, Failure, failed, panicked}
use h11r.Binding.Python.{PyErr, PyResult, Python}
use h11r.Binding.Buffers.{with_buffer, body_nbytes, raising, framed}
use h11r.Binding.Fields.{extract_headers}
use h11r.Binding.Events.{
  PyRole, role_from, PyState, state_from, PyReceiveStatus, PyEvent, remote_error, py_version,
  data_to_py, event_to_py, status_code, read_request, read_response,
}

-- The core, and the received `bytes` objects that are held, oldest first.
pub record PyConnection : Type 0 where
  pub core : Connection
  pub queue : List Bytes

abbrev pub PyOutcome : Type 0 → Type 0
PyOutcome A = PyConnection × PyResult A

-- A step of the core.
abbrev pub on_core : {A : Type 0} → PyConnection → Outcome PyErr A → PyOutcome A
on_core c (core, result) = (record c { core = core }, result)

-- Arguments are read before anything changes.
abbrev pub reading : {A B : Type 0} → PyConnection → PyResult A → (A → PyOutcome B) → PyOutcome B
reading c (ok a) next = next a
reading c (err e) next = (c, err e)

unfoldable pub new : PyRole → ℕ → ℕ → Bool → PyResult PyConnection
unfolding role_from
new role max_head_bytes max_header_count lenient =
    on_ok
      (map_err (λ _. PyErr.value_error "HTTP limits must be non-zero")
        (new_limits max_head_bytes max_header_count))
      (λ limits.
        let connection = new_core (role_from role) limits in
        ok (record { core = if lenient then lenient_core connection else connection; queue = [] }))

-- An event, or an exception.
abbrev pub to_py : Outcome Failure NextEvent → Outcome PyErr PyEvent
to_py (c, ok NextEvent.need_data) = (c, ok (PyEvent.status PyReceiveStatus.need_data))
to_py (c, ok NextEvent.paused) = (c, ok (PyEvent.status PyReceiveStatus.paused))
to_py (c, ok (NextEvent.event event)) = (c, ok (event_to_py event))
to_py (c, err (failed error)) = (c, err (remote_error error))
to_py (c, err (panicked message)) = (c, err (PyErr.other message))

-- The oldest object held is the data of its own event.
unfoldable pub pop_held : PyConnection → Bytes → PyOutcome PyEvent
pop_held c bytes =
    let (core, taken) = raising (next_event_in_place c.core (length bytes)) in
    (record c { core = core }, on_ok taken (λ flags. ok (data_to_py bytes flags.0 flags.1)))

unfoldable pub next_event : HeadParser → PyConnection → PyOutcome PyEvent
unfolding pop_held
next_event httparse c = elim c.queue [
  | bytes ∷ rest ↦ pop_held (record c { queue = rest }) bytes
  | [] ↦ on_core c (to_py (Polling.next_event httparse c.core))
]

-- What goes before and behind the body, as bytes.
abbrev pub frame_parts : {E : Type 0} → Outcome E (DataPrefix × Bytes) → Outcome E (Bytes × Bytes)
frame_parts (core, ok parts) = (core, ok (prefix_bytes parts.0, parts.1))
frame_parts (core, err e) = (core, err e)

module _ (py : Python) where
  -- The bytes are copied into the buffer of the core.
  unfoldable pub copy_in : PyConnection → py.Object → PyOutcome (Unit {0})
  copy_in c value =
      reading c (with_buffer py value (λ bytes. bytes))
        (λ bytes. on_core c (raising (Receive.receive_data c.core bytes)))

  -- Exact `bytes` that the core holds are kept instead.
  unfoldable pub hold : PyConnection → py.Object → Bytes → PyOutcome (Unit {0})
  unfolding copy_in
  hold c value bytes =
      let (core, held) = hold_body_data c.core (length bytes) in
      if held
      then (record { core = core; queue = c.queue ++ bytes ∷ [] }, ok tt)
      else copy_in (record c { core = core }) value

  unfoldable pub receive_data : PyConnection → py.Object → PyOutcome (Unit {0})
  unfolding hold copy_in
  receive_data c value = elim (py.cast_exact_bytes value) [
    | some bytes ↦ hold c value bytes
    | none ↦ copy_in c value
  ]

  unfoldable pub write_request : PyConnection → Request → Option py.Object → PyOutcome Bytes
  write_request c request none = on_core c (raising (Send.send_request c.core request))
  write_request c request (some body) =
      on_core c
        (framed py c.core body (λ core size. send_request_with_body_framing core request size))

  unfoldable pub send_request :
      PyConnection
      → py.Object
      → py.Object
      → py.Object
      → Option py.Object
      → Option py.Object
      → PyOutcome Bytes
  unfolding write_request
  send_request c method target headers body http_version =
      reading c (read_request py method target (some headers) http_version)
        (λ request. write_request c request body)

  unfoldable pub send_informational_response :
      PyConnection
      → py.Object
      → Option py.Object
      → Option py.Object
      → Option py.Object
      → PyOutcome Bytes
  send_informational_response c code headers reason http_version =
      reading c (on_ok (status_code py code) (λ s. read_response py s headers reason http_version))
        (λ response. on_core c (raising (Send.send_informational_response c.core response)))

  unfoldable pub write_response : PyConnection → Response → Option py.Object → PyOutcome Bytes
  write_response c response none = on_core c (raising (Send.send_response c.core response))
  write_response c response (some body) =
      on_core c
        (framed py c.core body (λ core size. send_response_with_body_framing core response size))

  unfoldable pub send_response :
      PyConnection
      → py.Object
      → Option py.Object
      → Option py.Object
      → Option py.Object
      → Option py.Object
      → PyOutcome Bytes
  unfolding write_response
  send_response c code headers body reason http_version =
      reading c (on_ok (status_code py code) (λ s. read_response py s headers reason http_version))
        (λ response. write_response c response body)

  unfoldable pub send_data : PyConnection → py.Object → PyOutcome Bytes
  send_data c value =
      on_core c (framed py c.core value (λ core size. frame_parts (send_data_framing core size)))

  -- The body object itself is handed back between its framing.
  unfoldable pub send_data_parts :
      PyConnection → py.Object → PyOutcome (Bytes × (py.Object × Bytes))
  send_data_parts c value = reading c (body_nbytes py value) (λ size.
      let (core, framing) = raising (send_data_framing c.core size) in
      (
        record c { core = core },
        on_ok framing (λ parts. ok (prefix_bytes parts.0, (value, parts.1))),
      ))

  unfoldable pub end_of_message : PyConnection → Option py.Object → PyOutcome Bytes
  end_of_message c trailers =
      reading c (extract_headers py trailers)
        (λ fields. on_core c (raising (Body.end_of_message c.core fields)))

unfoldable pub start_next_cycle : PyConnection → PyOutcome (Unit {0})
start_next_cycle c = on_core c (raising (Core.start_next_cycle c.core))

unfoldable pub close : PyConnection → PyOutcome (Unit {0})
close c = on_core c (raising (Core.close c.core))

unfoldable pub get_local_state : PyConnection → PyState
unfolding state_from
get_local_state c = state_from (local_state c.core)

unfoldable pub get_peer_state : PyConnection → PyState
unfolding state_from
get_peer_state c = state_from (peer_state c.core)

unfoldable pub get_peer_http_version : PyConnection → Option Bytes
get_peer_http_version c = elim (peer_http_version c.core) [
  | none ↦ none
  | some version ↦ some (py_version version)
]

unfoldable pub get_keep_alive : PyConnection → Bool
get_keep_alive c = keep_alive c.core

unfoldable pub get_client_is_waiting_for_100_continue : PyConnection → Bool
get_client_is_waiting_for_100_continue c = client_is_waiting_for_100_continue c.core

unfoldable pub get_trailing_data : PyConnection → Bytes × Bool
get_trailing_data c = trailing_data c.core

unfoldable pub buffered_nbytes : PyConnection → ℕ
buffered_nbytes c = length (trailing_data c.core).0 + c.core.held
