-- ===== src/Events.antt =====
-- crates/h11r/src/lib.rs: messages, events and limits.
use h11r.Prelude.{ℕ, Bool, ◌||◌, Bytes, ◌==◌, if◌then◌else◌, Result, ok, err}
use h11r.Headers.{Headers}
use h11r.Method.{Method}
use h11r.Status.{StatusCode}
use h11r.Wire.Fields.{Version}
use h11r.Wire.Number.{DataPrefix}

pub record Request : Type 0 where
  pub method : Method
  pub target : Bytes
  pub headers : Headers
  pub http_version : Version

-- An informational response is a response too.
pub record Response : Type 0 where
  pub status : StatusCode
  pub reason : Bytes
  pub headers : Headers
  pub http_version : Version

pub record Data : Type 0 where
  pub bytes : Bytes
  pub chunk_start : Bool
  pub chunk_end : Bool

pub record DataParts {ℓ} (T : Type ℓ) : Type ℓ where
  pub prefix : DataPrefix
  pub body : T
  pub suffix : Bytes

pub record EndOfMessage : Type 0 where
  pub trailers : Headers

pub data Event : Type 0 where
  request : Request → Event
  informational_response : Response → Event
  response : Response → Event
  body_data : Data → Event
  end_of_message : EndOfMessage → Event
  connection_closed : Event

pub data NextEvent : Type 0 where
  event : Event → NextEvent
  need_data paused : NextEvent

pub record Limits : Type 0 where
  pub max_head_bytes : ℕ
  pub max_header_count : ℕ

pub data InvalidLimits : Type 0 where
  invalid_limits : InvalidLimits

unfoldable pub new_limits : ℕ → ℕ → Result InvalidLimits Limits
new_limits head headers =
    if head == 0 || headers == 0
    then err invalid_limits
    else ok (record { max_head_bytes = head; max_header_count = headers })
