-- ===== src/Binding/Events.antt =====
-- crates/h11r-python/src/api/events.rs and mod.rs: event classes, and their conversion from the core.
use h11r.Prelude.{
  ℕ, List, ◌∷◌, Bool, true, false, not, ◌&&◌, ◌==◌, Option, none, some, [], Bytes, codes, bytes_eq,
  ok, err, on_ok, map_err, if◌then◌else◌,
}
use h11r.State.{Role, State}
use h11r.Method.{Method, from_bytes}
use h11r.Status.{StatusCode, from_u16, is_informational}
use h11r.Events.{Request, Response, Event}
use h11r.Wire.Errors.{RemoteProtocolError}
use h11r.Wire.Fields.{Version, http10, http11}
use h11r.Binding.Python.{PyErr, is_overflow_error, PyResult, Python}
use h11r.Binding.Buffers.{with_buffer, with_text_or_buffer, text_or_buffer}
use h11r.Binding.Fields.{PyHeaders, new_py, headers_eq, extract_headers}

pub data PyRole : Type 0 where
  client server : PyRole

unfoldable pub role_from : PyRole → Role
role_from client = Role.client
role_from server = Role.server

pub data PyState : Type 0 where
  idle send_response send_body done might_switch_protocol : PyState
  switched_protocol must_close closed error : PyState

unfoldable pub state_from : State → PyState
state_from State.idle = idle
state_from State.send_response = send_response
state_from State.send_body = send_body
state_from State.done = done
state_from State.might_switch_protocol = might_switch_protocol
state_from State.switched_protocol = switched_protocol
state_from State.must_close = must_close
state_from State.closed = closed
state_from State.error = error

pub data PyReceiveStatus : Type 0 where
  need_data paused : PyReceiveStatus

-- The exception carries the status that the error suggests.
unfoldable pub remote_error : RemoteProtocolError → PyErr
remote_error e = PyErr.remote_protocol_error e.message e.suggested_status_code

-- The names whose objects are shared, in the order of their cells.
abbrev pub registered : List Bytes
registered =
    codes "GET"
    ∷ (codes "HEAD"
        ∷ (codes "POST"
            ∷ (codes "PUT"
                ∷ (codes "DELETE"
                    ∷ (codes "CONNECT"
                        ∷ (codes "OPTIONS" ∷ (codes "TRACE" ∷ (codes "PATCH" ∷ []))))))))

unfoldable pub find_name : List Bytes → Bytes → Option Bytes
find_name [] name = none
find_name (shared ∷ rest) name =
    let found = find_name rest name in if bytes_eq name shared then some shared else found

-- The shared object of a registered method, or a new one.
unfoldable pub py_method : Method → Bytes
unfolding find_name
py_method method = elim (find_name registered method.as_bytes) [
  | some shared ↦ shared
  | none ↦ method.as_bytes
]

-- A shared object for each version.
unfoldable pub py_version : Version → Bytes
py_version http10 = codes "1.0"
py_version http11 = codes "1.1"

pub record PyRequest : Type 0 where
  pub method : Bytes
  pub target : Bytes
  pub headers : PyHeaders
  pub http_version : Bytes

unfoldable pub request_from_core : Request → PyRequest
unfolding py_method py_version new_py
request_from_core value = record {
  method = py_method value.method;
  target = value.target;
  headers = new_py value.headers;
  http_version = py_version value.http_version;
}

unfoldable pub request_eq : PyRequest → PyRequest → Bool
unfolding headers_eq
request_eq a b =
    bytes_eq a.method b.method
    && bytes_eq a.target b.target
    && headers_eq a.headers b.headers
    && bytes_eq a.http_version b.http_version

pub record PyResponseBase : Type 0 where
  pub status_code : ℕ
  pub reason : Bytes
  pub headers : PyHeaders
  pub http_version : Bytes

unfoldable pub response_from_core : Response → PyResponseBase
unfolding py_version new_py
response_from_core value = record {
  status_code = value.status.as_u16;
  reason = value.reason;
  headers = new_py value.headers;
  http_version = py_version value.http_version;
}

unfoldable pub response_eq : PyResponseBase → PyResponseBase → Bool
unfolding headers_eq
response_eq a b =
    a.status_code == b.status_code
    && bytes_eq a.reason b.reason
    && headers_eq a.headers b.headers
    && bytes_eq a.http_version b.http_version

pub record PyData : Type 0 where
  pub bytes : Bytes
  pub chunk_start : Bool
  pub chunk_end : Bool

abbrev pub flag_eq : Bool → Bool → Bool
flag_eq a b = if a then b else not b

unfoldable pub data_eq : PyData → PyData → Bool
data_eq a b =
    bytes_eq a.bytes b.bytes
    && flag_eq a.chunk_start b.chunk_start
    && flag_eq a.chunk_end b.chunk_end

pub record PyEndOfMessage : Type 0 where
  pub trailers : PyHeaders

unfoldable pub end_eq : PyEndOfMessage → PyEndOfMessage → Bool
unfolding headers_eq
end_eq a b = headers_eq a.trailers b.trailers

-- The objects that `next_event` returns.
pub data PyEvent : Type 0 where
  request : PyRequest → PyEvent
  informational_response response : PyResponseBase → PyEvent
  body_data : PyData → PyEvent
  end_of_message : PyEndOfMessage → PyEvent
  connection_closed : PyEvent
  status : PyReceiveStatus → PyEvent

unfoldable pub data_to_py : Bytes → Bool → Bool → PyEvent
data_to_py bytes chunk_start chunk_end =
    body_data (record { bytes = bytes; chunk_start = chunk_start; chunk_end = chunk_end })

unfoldable pub event_to_py : Event → PyEvent
unfolding request_from_core response_from_core data_to_py new_py
event_to_py (Event.request value) = request (request_from_core value)
event_to_py (Event.informational_response value) = informational_response (response_from_core value)
event_to_py (Event.response value) = response (response_from_core value)
event_to_py (Event.body_data value) = data_to_py value.bytes value.chunk_start value.chunk_end
event_to_py (Event.end_of_message value) =
    end_of_message (record { trailers = new_py value.trailers })
event_to_py Event.connection_closed = connection_closed

module _ (py : Python) where
  -- An `int` beyond `u16` is code 0, which no status has.
  unfoldable pub status_code : py.Object → PyResult StatusCode
  status_code value = on_ok (code_of (py.extract_u16 value)) (λ code.
      map_err (λ _. PyErr.value_error "HTTP status code must be between 100 and 599")
        (from_u16 code))
    where
      code_of : PyResult ℕ → PyResult ℕ
      code_of (ok code) = ok code
      code_of (err e) = if is_overflow_error e then ok 0 else err e

  unfoldable pub extract_method : py.Object → PyResult Method
  unfolding with_text_or_buffer
  extract_method value =
      on_ok (with_text_or_buffer py value from_bytes)
        (λ parsed. map_err (λ _. PyErr.value_error "HTTP method must be a non-empty token") parsed)

  unfoldable pub optional_bytes : Option py.Object → PyResult Bytes
  unfolding text_or_buffer
  optional_bytes none = ok []
  optional_bytes (some value) = text_or_buffer py value

  unfoldable pub version_of : Bytes → PyResult Version
  version_of bytes =
      if bytes_eq bytes (codes "1.1")
      then ok http11
      else if bytes_eq bytes (codes "1.0")
      then ok http10
      else err (PyErr.value_error "http_version must be b'1.0' or b'1.1'")

  unfoldable pub extract_version : Option py.Object → PyResult Version
  unfolding text_or_buffer version_of
  extract_version none = ok http11
  extract_version (some value) = on_ok (text_or_buffer py value) (λ bytes. version_of bytes)

  -- The four arguments of a request, in the order in which they are read.
  unfoldable pub read_request :
      py.Object → py.Object → Option py.Object → Option py.Object → PyResult Request
  unfolding extract_method text_or_buffer extract_headers extract_version
  read_request method target headers http_version = on_ok (extract_method method) (λ m.
      on_ok (text_or_buffer py target) (λ t. on_ok (extract_headers py headers) (λ h.
        on_ok (extract_version http_version)
          (λ v. ok (record { method = m; target = t; headers = h; http_version = v })))))

  -- What is read behind the status of a response.
  unfoldable pub read_response :
      StatusCode → Option py.Object → Option py.Object → Option py.Object → PyResult Response
  unfolding optional_bytes extract_headers extract_version
  read_response code headers reason http_version = on_ok (optional_bytes reason) (λ r.
      on_ok (extract_headers py headers) (λ h.
        on_ok (extract_version http_version)
          (λ v. ok (record { status = code; reason = r; headers = h; http_version = v }))))

  -- `Request(method, target, headers, *, http_version=None)`
  unfoldable pub new_request :
      py.Object → py.Object → py.Object → Option py.Object → PyResult PyRequest
  unfolding read_request request_from_core
  new_request method target headers http_version =
      on_ok (read_request method target (some headers) http_version)
        (λ value. ok (request_from_core value))

  -- `_ResponseBase`, for an informational or a final response.
  unfoldable pub new_response_base :
      Bool
      → py.Object
      → Option py.Object
      → Option py.Object
      → Option py.Object
      → PyResult PyResponseBase
  unfolding status_code read_response response_from_core
  new_response_base informational code headers reason http_version = on_ok (status_code code) (λ s.
      if not (flag_eq (is_informational s) informational)
      then err (
          PyErr.value_error (
            if informational
            then "InformationalResponse requires a 1xx status"
            else "Response requires a final, non-1xx status"))
      else on_ok (read_response s headers reason http_version)
          (λ value. ok (response_from_core value)))

  unfoldable pub new_informational_response :
      py.Object → Option py.Object → Option py.Object → Option py.Object → PyResult PyResponseBase
  unfolding new_response_base
  new_informational_response code headers reason http_version =
      new_response_base true code headers reason http_version

  unfoldable pub new_response :
      py.Object → Option py.Object → Option py.Object → Option py.Object → PyResult PyResponseBase
  unfolding new_response_base
  new_response code headers reason http_version =
      new_response_base false code headers reason http_version

  -- `Data(data, *, chunk_start=False, chunk_end=False)`
  unfoldable pub new_data : py.Object → Bool → Bool → PyResult PyData
  unfolding with_buffer
  new_data value chunk_start chunk_end =
      on_ok (with_buffer py value (λ bytes. bytes))
        (λ bytes. ok (record { bytes = bytes; chunk_start = chunk_start; chunk_end = chunk_end }))

  unfoldable pub new_end_of_message : Option py.Object → PyResult PyEndOfMessage
  unfolding extract_headers new_py
  new_end_of_message trailers =
      on_ok (extract_headers py trailers) (λ headers. ok (record { trailers = new_py headers }))
