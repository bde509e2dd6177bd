-- ===== src/Connection.antt =====
-- crates/h11r/src/connection/mod.rs: the connection and its lifecycle.
pub mod Send
pub mod Receive
pub mod Body
pub mod Frame
pub mod Keeps
pub mod Unchanged
pub mod Complete
pub mod Lengths
pub mod Chunks
pub mod Lifecycle
pub mod Gives
pub mod OnLines
pub mod Heads
pub mod Sound
pub mod Calls
pub mod Later
use h11r.Prelude.{
  ℕ, Bool, true, false, not, ◌&&◌, ◌||◌, Option, none, some, List, [], ◌∷◌, Bytes, codes, any, all,
  is_empty, ◌==◌, if◌then◌else◌, Result, ok, err, bytes_eq,
}
use h11r.State
use h11r.State.{
  Role, client, server, peer, State, state_eq, SwitchKind, from_flags, StateEvent,
  InvalidTransition, ConnectionState, process_event, disable_keep_alive,
}
use h11r.Headers.{Headers}
use h11r.Method.{Method, method_eq, named}
use h11r.Status.{StatusCode, is_success}
use h11r.Events.{Limits}
use h11r.Wire.Buffer
use h11r.Wire.Buffer.{Framing, Reader, Buffer, as_slice}
use h11r.Wire.Section.{SectionProgress, fresh}
use h11r.Wire.Errors.{LocalProtocolError, local, RemoteProtocolError, remote}
use h11r.Wire.Fields.{
  Version, http10, http11, is_http11, Fields, persistent, expects_continue, is_fixed_zero,
}
use h11r.Wire.Lists.{has_token, upgrade_protocols, protocol_matches}

pub data RequestKind : Type 0 where
  other head connect : RequestKind

unfoldable pub from_method : Bytes → RequestKind
from_method method =
    if bytes_eq method (codes "HEAD")
    then RequestKind.head
    else if bytes_eq method (codes "CONNECT")
    then RequestKind.connect
    else other

abbrev pub kind_is : Option RequestKind → RequestKind → Bool
kind_is (some other) other = true
kind_is (some RequestKind.head) RequestKind.head = true
kind_is (some RequestKind.connect) RequestKind.connect = true
kind_is _ _ = false

pub record Cycle : Type 0 where
  pub progress : SectionProgress
  pub reader : Reader
  pub writer : Option Framing
  pub chunk_extension_bytes : ℕ
  pub request_kind : Option RequestKind
  pub upgrade_proposals : List Bytes
  pub waiting_for_continue : Bool
  pub continue_before_upgrade : Bool

abbrev pub default_cycle : Cycle
default_cycle = record {
  progress = fresh;
  reader = Reader.head;
  writer = none;
  chunk_extension_bytes = 0;
  request_kind = none;
  upgrade_proposals = [];
  waiting_for_continue = false;
  continue_before_upgrade = false;
}

pub record Connection : Type 0 where
  pub role : Role
  pub state : ConnectionState
  pub limits : Limits
  pub lenient : Bool
  pub input : Buffer
  pub held : ℕ
  pub eof : Bool
  pub peer_version : Option Version
  pub cycle : Cycle

unfoldable pub new : Role → Limits → Connection
new role limits = record {
  role = role;
  state = State.new;
  limits = limits;
  lenient = false;
  input = Buffer.new;
  held = 0;
  eof = false;
  peer_version = none;
  cycle = default_cycle;
}

unfoldable pub lenient : Connection → Connection
lenient c = record c { lenient = true }

-- A method of the connection, and a step behind `?`: an error leaves the connection as it is by then.
abbrev pub Outcome : Type 0 → Type 0 → Type 0
Outcome E A = Connection × Result E A

abbrev pub and_then : {E A B : Type 0} → Outcome E A → (Connection → A → Outcome E B) → Outcome E B
and_then (c, ok a) next = next c a
and_then (c, err e) next = (c, err e)

abbrev pub attempt : {E A B : Type 0} → Connection → Result E A → (A → Outcome E B) → Outcome E B
attempt c (ok a) next = next a
attempt c (err e) next = (c, err e)

abbrev pub require : {E A B : Type 0} → Connection → Option A → E → (A → Outcome E B) → Outcome E B
require c (some a) e next = next a
require c none e next = (c, err e)

abbrev pub is_client : Role → Bool
is_client client = true
is_client server = false

abbrev pub local_state : Connection → State
local_state c = State.state c.state c.role

abbrev pub peer_state : Connection → State
peer_state c = State.state c.state (peer c.role)

abbrev pub ends_http : State → Bool
ends_http s = elim s [
  | State.must_close ↦ true
  | State.closed ↦ true
  | State.error ↦ true
  | State.switched_protocol ↦ true
  | _ ↦ false
]

unfoldable pub keep_alive : Connection → Bool
keep_alive c =
    c.state.keep_alive && not (ends_http (local_state c)) && not (ends_http (peer_state c))

abbrev pub peer_http_version : Connection → Option Version
peer_http_version c = c.peer_version

abbrev pub client_is_waiting_for_100_continue : Connection → Bool
client_is_waiting_for_100_continue c = c.cycle.waiting_for_continue

unfoldable pub trailing_data : Connection → Bytes × Bool
trailing_data c = (as_slice c.input, c.eof)

abbrev pub with_error : {E A : Type 0} → E → Result InvalidTransition A → Result E A
with_error e (ok a) = ok a
with_error e (err _) = err e

unfoldable pub advance_peer : Connection → StateEvent → Outcome RemoteProtocolError (Unit {0})
advance_peer c event =
    let (state, result) = process_event c.state (peer c.role) event in
    (
      record c { state = state },
      with_error (remote "event is invalid in the peer state" (some 400)) result,
    )

unfoldable pub advance_local : Connection → StateEvent → Outcome LocalProtocolError (Unit {0})
advance_local c event =
    let (state, result) = process_event c.state c.role event in
    (record c { state = state }, with_error (local "event is invalid in the local state") result)

abbrev pub request_is : Connection → RequestKind → Bool
request_is c kind = kind_is c.cycle.request_kind kind

unfoldable pub opens_tunnel : Connection → StatusCode → Bool
opens_tunnel c status = request_is c RequestKind.connect && is_success status

unfoldable pub response_has_no_body : Connection → StatusCode → Bool
unfolding opens_tunnel
response_has_no_body c status =
    (status.as_u16 == 204 || status.as_u16 == 304)
    || request_is c RequestKind.head
    || opens_tunnel c status

unfoldable pub final_response_event : Connection → StatusCode → StateEvent
unfolding opens_tunnel
final_response_event c status =
    if opens_tunnel c status
    then StateEvent.protocol_switch SwitchKind.connect
    else StateEvent.response

abbrev pub all_offered : List Bytes → List Bytes → Bool
all_offered offers selected = all (λ s. any (λ offered. protocol_matches offered s) offers) selected

abbrev pub selects_offered : List Bytes → Option (List Bytes) → Bool
selects_offered offers none = false
selects_offered offers (some selected) = not (is_empty selected) && all_offered offers selected

unfoldable pub valid_upgrade_response : Connection → Version → Headers → Bool
valid_upgrade_response c version headers =
    is_http11 version
    && has_token headers (codes "connection") (codes "upgrade")
    && selects_offered c.cycle.upgrade_proposals (upgrade_protocols headers)

unfoldable pub informational_event : Connection → StatusCode → Version → Headers → Option StateEvent
unfolding valid_upgrade_response
informational_event c status version headers =
    if not (status.as_u16 == 101)
    then some StateEvent.informational_response
    else if not c.cycle.continue_before_upgrade && valid_upgrade_response c version headers
    then some (StateEvent.protocol_switch SwitchKind.upgrade)
    else none

unfoldable pub record_request :
    Connection → Method → Version → Fields → Framing → List Bytes → Connection
unfolding from_method
record_request c method version fields framing upgrades =
    let waiting = expects_continue fields version framing in
    record c {
      state = if persistent fields version then c.state else disable_keep_alive c.state;
      cycle = record c.cycle {
        request_kind = some (from_method method.as_bytes);
        waiting_for_continue = waiting;
        continue_before_upgrade = waiting && not (is_empty upgrades);
        upgrade_proposals = upgrades;
      };
    }

unfoldable pub record_informational : Connection → StatusCode → Connection
record_informational c status =
    if status.as_u16 == 100
    then record c {
      cycle = record c.cycle { waiting_for_continue = false; continue_before_upgrade = false };
    }
    else c

unfoldable pub record_response : Connection → Connection
record_response c = record c {
  cycle = record c.cycle {
    waiting_for_continue = false;
    continue_before_upgrade = false;
    upgrade_proposals = [];
  };
}

unfoldable pub start_next_cycle : Connection → Outcome LocalProtocolError (Unit {0})
start_next_cycle c =
    if is_client c.role && state_eq (peer_state c) State.done && not (is_empty (as_slice c.input))
    then (
      record c { state = disable_keep_alive c.state },
      err (local "unsolicited bytes follow the response; the connection is not reusable"),
    )
    else let (state, result) = State.start_next_cycle c.state in
      attempt (record c { state = state }) (with_error (local "connection is not reusable") result)
        (λ _. (record c { state = state; cycle = default_cycle }, ok tt))

unfoldable pub close : Connection → Outcome LocalProtocolError (Unit {0})
unfolding advance_local
close c =
    and_then (advance_local c StateEvent.connection_closed)
      (λ d _. (record d { cycle = record d.cycle { writer = none } }, ok tt))

unfoldable pub request_event : Method → List Bytes → StateEvent
request_event method upgrades =
    StateEvent.request
      (from_flags (method_eq method (named (codes "CONNECT"))) (not (is_empty upgrades)))

unfoldable pub content_forbidden : Method → Framing → Bool
content_forbidden method framing =
    not (is_fixed_zero framing)
    && (method_eq (named (codes "CONNECT")) method || method_eq (named (codes "TRACE")) method)
