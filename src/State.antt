-- ===== src/State.antt =====
-- crates/h11r/src/state.rs: the request and response lifecycle of one connection.
-- A rejected event is the value `err`, beside the state that the call leaves behind.
pub mod Finite
pub mod Stable
pub mod Invariant
pub mod Contract
pub mod Peer
pub mod Bodies
pub mod Lasting
use h11r.Prelude.{
  ℕ, zero, suc, Bool, true, false, not, ◌&&◌, ◌||◌, Option, none, some, ◌==◌, if◌then◌else◌, Result,
  ok, err,
}

pub data Role : Type 0 where
  client server : Role

unfoldable pub peer : Role → Role
peer client = server
peer server = client

pub data State : Type 0 where
  idle send_response send_body done might_switch_protocol switched_protocol : State
  must_close closed error : State

-- The derived `==` of `State`.
abbrev pub state_tag : State → ℕ
state_tag idle = 0
state_tag send_response = 1
state_tag send_body = 2
state_tag done = 3
state_tag might_switch_protocol = 4
state_tag switched_protocol = 5
state_tag must_close = 6
state_tag closed = 7
state_tag error = 8

abbrev pub state_eq : State → State → Bool
state_eq a b = state_tag a == state_tag b

pub data SwitchKind : Type 0 where
  connect upgrade : SwitchKind

pub record SwitchProposals : Type 0 where
  pub connect : Bool
  pub upgrade : Bool

abbrev pub no_proposals : SwitchProposals
no_proposals = record { connect = false; upgrade = false }

abbrev pub contains : SwitchProposals → SwitchKind → Bool
contains p connect = p.connect
contains p upgrade = p.upgrade

abbrev pub from_flags : Bool → Bool → SwitchProposals
from_flags c u = record { connect = c; upgrade = u }

abbrev pub no_proposal : SwitchProposals → Bool
no_proposal p = not p.connect && not p.upgrade

pub data StateEvent : Type 0 where
  request : SwitchProposals → StateEvent
  informational_response response body_data end_of_message : StateEvent
  protocol_switch : SwitchKind → StateEvent
  connection_closed : StateEvent

pub data InvalidTransition : Type 0 where
  invalid_transition : InvalidTransition

pub record ConnectionState : Type 0 where
  pub client : State
  pub server : State
  pub keep_alive : Bool
  pub proposals : SwitchProposals

unfoldable pub new : ConnectionState
new = record { client = idle; server = idle; keep_alive = true; proposals = no_proposals }

unfoldable pub state : ConnectionState → Role → State
state c client = c.client
state c server = c.server

-- Writes the state of one role.
set_state : ConnectionState → Role → State → ConnectionState
set_state c client s = record c { client = s }
set_state c server s = record c { server = s }

-- `direct_transition`, one function for each role; the last clause is `reject`.
client_transition : State → StateEvent → Option State
client_transition idle (request _) = some send_body
client_transition idle connection_closed = some closed
client_transition send_body body_data = some send_body
client_transition send_body end_of_message = some done
client_transition done connection_closed = some closed
client_transition must_close connection_closed = some closed
client_transition closed connection_closed = some closed
client_transition _ _ = none

server_transition : State → StateEvent → Option State
server_transition idle response = some send_body
server_transition idle connection_closed = some closed
server_transition send_response informational_response = some send_response
server_transition send_response response = some send_body
server_transition send_response (protocol_switch _) = some switched_protocol
server_transition send_body body_data = some send_body
server_transition send_body end_of_message = some done
server_transition done connection_closed = some closed
server_transition must_close connection_closed = some closed
server_transition closed connection_closed = some closed
server_transition _ _ = none

unfoldable pub direct_transition : Role → State → StateEvent → Option State
unfolding client_transition server_transition
direct_transition client = client_transition
direct_transition server = server_transition

-- The passes of one round of `stabilize`, in order. First: a completed request waits.
await_switch : ConnectionState → ConnectionState
await_switch c =
    if state_eq c.client done && not (no_proposal c.proposals)
    then record c { client = might_switch_protocol }
    else c

settle_switch : ConnectionState → ConnectionState
settle_switch c =
    if state_eq c.client might_switch_protocol && state_eq c.server switched_protocol
    then record c { client = switched_protocol }
    else if state_eq c.client might_switch_protocol && no_proposal c.proposals
    then record c { client = done }
    else c

clear_proposals : ConnectionState → ConnectionState
clear_proposals c =
    if state_eq c.client switched_protocol && state_eq c.server switched_protocol
    then record c { proposals = no_proposals }
    else c

close_if_done : Bool → State → State
close_if_done keep_alive done = if keep_alive then done else must_close
close_if_done keep_alive s = s

apply_keep_alive : ConnectionState → ConnectionState
apply_keep_alive c = record c {
  client = close_if_done c.keep_alive c.client;
  server = close_if_done c.keep_alive c.server;
}

-- `match (self.client, self.server)` at the end of the round
couple : State → State → ConnectionState → ConnectionState
couple closed done c = record c { server = must_close }
couple closed idle c = record c { server = must_close }
couple error done c = record c { server = must_close }
couple done closed c = record c { client = must_close }
couple idle closed c = record c { client = must_close }
couple done error c = record c { client = must_close }
couple _ _ c = c

unfoldable pub stabilize_round : ConnectionState → ConnectionState
unfolding await_switch settle_switch clear_proposals close_if_done apply_keep_alive couple
stabilize_round c =
    let d = apply_keep_alive (clear_proposals (settle_switch (await_switch c))) in
    couple d.client d.server d

pub same_flag : Bool → Bool → Bool
same_flag true b = b
same_flag false b = not b

-- The derived `==` of `ConnectionState`.
unfoldable pub state_unchanged : ConnectionState → ConnectionState → Bool
unfolding same_flag
state_unchanged a b =
    state_eq a.client b.client
    && state_eq a.server b.server
    && same_flag a.keep_alive b.keep_alive
    && same_flag a.proposals.connect b.proposals.connect
    && same_flag a.proposals.upgrade b.proposals.upgrade

-- The loop of `stabilize`; `none` means that the fuel ran out.
unfoldable pub stabilize_loop : ℕ → ConnectionState → Option ConnectionState
stabilize_loop zero c = none
stabilize_loop (suc fuel) c =
    let next = stabilize_round c in
    elim (state_unchanged next c) [ true ↦ some next | false ↦ stabilize_loop fuel next ]

-- Four rounds reach the fixed point from every state.
abbrev pub stabilize_fuel : ℕ
stabilize_fuel = 4

or_unchanged : ConnectionState → Option ConnectionState → ConnectionState
or_unchanged c none = c
or_unchanged c (some d) = d

unfoldable pub stabilize : ConnectionState → ConnectionState
unfolding stabilize_loop stabilize_round state_unchanged or_unchanged
stabilize c = or_unchanged c (stabilize_loop stabilize_fuel c)

-- `match (role, event)` of `process_event`: the effects of the event beyond the role's state.
joint_effect : Role → StateEvent → State → ConnectionState → Option ConnectionState
joint_effect client (request proposals) current next =
    if state_eq next.server idle
    then some (record next { proposals = proposals; server = send_response })
    else none
joint_effect server (protocol_switch kind) current next =
    if contains next.proposals kind then some next else none
joint_effect server response current next =
    let rejected = contains next.proposals SwitchKind.connect in
    let alive = if rejected then false else next.keep_alive in
    some (record next {
      keep_alive = if state_eq current idle then false else alive;
      proposals = no_proposals;
    })
joint_effect _ _ _ next = some next

-- `process_event` after its fast path.
commit :
    ConnectionState
    → Role
    → Option State
    → Option ConnectionState
    → ConnectionState × Result InvalidTransition (Unit {0})
commit c role none _ = (c, err invalid_transition)
commit c role (some transitioned) none = (c, err invalid_transition)
commit c role (some transitioned) (some next) =
    (stabilize (set_state next role transitioned), ok tt)

unfoldable pub process_slow :
    ConnectionState → Role → StateEvent → ConnectionState × Result InvalidTransition (Unit {0})
unfolding state direct_transition joint_effect commit set_state stabilize
process_slow c role event =
    let current = state c role in
    commit c role (direct_transition role current event) (joint_effect role event current c)

is_body_data : StateEvent → Bool
is_body_data body_data = true
is_body_data _ = false

unfoldable pub process_event :
    ConnectionState → Role → StateEvent → ConnectionState × Result InvalidTransition (Unit {0})
unfolding process_slow is_body_data state
process_event c role event =
    if is_body_data event && state_eq (state c role) send_body
    then (c, ok tt)
    else process_slow c role event

unfoldable pub disable_keep_alive : ConnectionState → ConnectionState
unfolding stabilize
disable_keep_alive c = stabilize (record c { keep_alive = false })

unfoldable pub process_error : ConnectionState → Role → ConnectionState
unfolding set_state stabilize
process_error c role = stabilize (set_state (record c { keep_alive = false }) role error)

unfoldable pub start_next_cycle :
    ConnectionState → ConnectionState × Result InvalidTransition (Unit {0})
unfolding new
start_next_cycle c =
    if not (state_eq c.client done)
      || not (state_eq c.server done)
      || not c.keep_alive
      || not (no_proposal c.proposals)
    then (c, err invalid_transition)
    else (new, ok tt)
