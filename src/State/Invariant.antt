-- ===== src/State/Invariant.antt =====
-- crates/h11r/src/state.rs: what holds of the joint state between two calls.
use h11r.Prelude.{◌≡◌, refl, Bool, true, false, not, ◌&&◌, ◌||◌, if◌then◌else◌}
use h11r.State.{
  Role, client, server, State, idle, send_response, send_body, done, might_switch_protocol,
  switched_protocol, must_close, closed, error, state_eq, no_proposal, StateEvent, ConnectionState,
  new, stabilize_round, state_unchanged, process_event, disable_keep_alive, process_error,
  start_next_cycle,
}
use h11r.State.Finite.{
  and_left, and_right, every_config, every_config_sound, every_event, every_event_sound,
}

abbrev pub implies : Bool → Bool → Bool
implies a b = if a then b else true

-- The states of the server beside each state of the client.
abbrev joint : State → State → Bool
joint idle s = state_eq s idle || state_eq s send_body || state_eq s must_close || state_eq s error
joint send_response s = false
joint send_body s = not (state_eq s idle) && not (state_eq s might_switch_protocol)
joint done s = state_eq s send_response || state_eq s send_body || state_eq s done
joint might_switch_protocol s = state_eq s send_response || state_eq s error
joint switched_protocol s = state_eq s switched_protocol || state_eq s error
joint must_close s =
    state_eq s send_response
    || state_eq s send_body
    || state_eq s must_close
    || state_eq s closed
    || state_eq s error
joint closed s =
    state_eq s send_response
    || state_eq s send_body
    || state_eq s must_close
    || state_eq s closed
    || state_eq s error
joint error s = not (state_eq s done) && not (state_eq s might_switch_protocol)

-- While a switch is proposed the request is in progress, waits, or has failed, and the server has
-- not answered it otherwise than by switching.
abbrev may_propose : State → State → Bool
may_propose cl sv =
    (state_eq cl send_body || state_eq cl might_switch_protocol || state_eq cl error)
    && (state_eq sv send_response || state_eq sv switched_protocol || state_eq sv error)

unfoldable pub valid : ConnectionState → Bool
unfolding state_unchanged stabilize_round
valid c =
    state_unchanged (stabilize_round c) c
    && joint c.client c.server
    && implies (not (no_proposal c.proposals)) (may_propose c.client c.server)
    && implies
        (state_eq c.client might_switch_protocol
          || (state_eq c.client send_body && state_eq c.server switched_protocol))
        (not (no_proposal c.proposals))
    && implies
        (state_eq c.client error
          || state_eq c.server error
          || (state_eq c.client idle && not (state_eq c.server idle))
          || (state_eq c.client must_close && not (state_eq c.server closed))
          || (state_eq c.server must_close && not (state_eq c.client closed)))
        (not c.keep_alive)

-- The invariant is a test, so that it is checked by evaluation.
abbrev pub IsValid : ConnectionState → Type 0
IsValid c = valid c ≡ true

-- The calls of a connection on its joint state, accepted or not.
pub data Step (c : ConnectionState) : ConnectionState → Type 0 where
  event : (r : Role) (e : StateEvent) → Step c (process_event c r e).0
  disable : Step c (disable_keep_alive c)
  poison : (r : Role) → Step c (process_error c r)
  cycle : Step c (start_next_cycle c).0

pub data Reach : ConnectionState → Type 0 where
  start : Reach new
  next : {c d : ConnectionState} → Reach c → Step c d → Reach d

-- Any number of calls, from any joint state.
pub data Steps (c : ConnectionState) : ConnectionState → Type 0 where
  here : Steps c c
  further : {d e : ConnectionState} → Steps c d → Step d e → Steps c e

pub Steps-trans : {c d e : ConnectionState} → Steps c d → Steps d e → Steps c e
Steps-trans r here = r
Steps-trans r (further s step) = further (Steps-trans r s) step

pub Reach-Steps : {c d : ConnectionState} → Reach c → Steps c d → Reach d
Reach-Steps r here = r
Reach-Steps r (further s step) = next (Reach-Steps r s) step

-- A test of every event at every valid state.
abbrev pub every_valid : (ConnectionState → Bool) → Bool
every_valid p = every_config λ c. implies (valid c) (p c)

pub implied : (a b : Bool) → implies a b ≡ true → a ≡ true → b ≡ true
implied true b h e = h
implied false b h e = cc

pub every_valid_sound :
    (p : ConnectionState → Bool) (c : ConnectionState)
    → every_valid p ≡ true
    → IsValid c
    → p c ≡ true
every_valid_sound p c h v =
    implied (valid c) (p c) (every_config_sound (λ d. implies (valid d) (p d)) c h) v

event_checked : (every_valid λ c. every_event (λ r e. valid (process_event c r e).0)) ≡ true
unfolding every_config every_event valid process_event
event_checked = refl

disable_checked : (every_valid λ c. valid (disable_keep_alive c)) ≡ true
unfolding every_config valid disable_keep_alive
disable_checked = refl

poison_checked :
    (every_valid λ c. valid (process_error c client) && valid (process_error c server)) ≡ true
unfolding every_config valid process_error
poison_checked = refl

cycle_checked : (every_valid λ c. valid (start_next_cycle c).0) ≡ true
unfolding every_config valid start_next_cycle
cycle_checked = refl

pub process_event-IsValid :
    (c : ConnectionState) (r : Role) (e : StateEvent) → IsValid c → IsValid (process_event c r e).0
process_event-IsValid c r e v =
    every_event_sound (λ r' e'. valid (process_event c r' e').0) r e
      (every_valid_sound (λ d. every_event (λ r' e'. valid (process_event d r' e').0)) c
        event_checked v)

pub disable-IsValid : (c : ConnectionState) → IsValid c → IsValid (disable_keep_alive c)
disable-IsValid c v = every_valid_sound (λ d. valid (disable_keep_alive d)) c disable_checked v

pub poison-IsValid : (c : ConnectionState) (r : Role) → IsValid c → IsValid (process_error c r)
poison-IsValid c client v = and_left _ _ (
    every_valid_sound (λ d. valid (process_error d client) && valid (process_error d server)) c
      poison_checked v)
poison-IsValid c server v = and_right _ _ (
    every_valid_sound (λ d. valid (process_error d client) && valid (process_error d server)) c
      poison_checked v)

pub cycle-IsValid : (c : ConnectionState) → IsValid c → IsValid (start_next_cycle c).0
cycle-IsValid c v = every_valid_sound (λ d. valid (start_next_cycle d).0) c cycle_checked v

pub Step-IsValid : {c d : ConnectionState} → Step c d → IsValid c → IsValid d
Step-IsValid {c} (event r e) v = process_event-IsValid c r e v
Step-IsValid {c} disable v = disable-IsValid c v
Step-IsValid {c} (poison r) v = poison-IsValid c r v
Step-IsValid {c} cycle v = cycle-IsValid c v

-- Every joint state that calls on a new connection can reach, in any order and with rejected events
-- among them, satisfies the invariant.
pub Reach-IsValid : {c : ConnectionState} → Reach c → IsValid c
unfolding valid new
Reach-IsValid start = refl
Reach-IsValid (next r s) = Step-IsValid s (Reach-IsValid r)
