-- ===== src/State/Contract.antt =====
-- crates/h11r/src/state.rs: single calls against the contract of the protocol.
use h11r.Prelude.{
  ◌≡◌, refl, ap, ◌↔◌, arith, Bool, true, false, not, ◌&&◌, ◌==◌, if◌then◌else◌, Option, none, some,
  List, [], ◌∷◌, ℕ, Result, ok, err, is_ok,
}
use h11r.State.{
  Role, client, server, State, idle, send_response, send_body, done, switched_protocol, must_close,
  closed, error, state_eq, StateEvent, request, informational_response, response, body_data,
  end_of_message, protocol_switch, connection_closed, no_proposals, connect, upgrade,
  invalid_transition, InvalidTransition, ConnectionState, new, state_unchanged, same_flag,
  direct_transition, process_slow, process_event, disable_keep_alive, process_error,
  start_next_cycle,
}
use h11r.State.Finite.{
  and_left, and_right, every_config, every_config_sound, every_event, every_event_sound,
  every_state, every_state_sound, state_unchanged_sound, state_eq_sound,
}
use h11r.State.Invariant.{
  valid, every_valid, every_valid_sound, implies, implied, Step, event, disable, poison, cycle,
  Reach, Reach-IsValid,
}

-- An event without its payload.
abbrev pub event_tag : StateEvent → ℕ
event_tag (request _) = 0
event_tag informational_response = 1
event_tag response = 2
event_tag body_data = 3
event_tag end_of_message = 4
event_tag (protocol_switch _) = 5
event_tag connection_closed = 6

pub record ContractRow : Type 0 where
  pub role : Role
  pub from : State
  pub on : StateEvent
  pub to : State

abbrev row : Role → State → StateEvent → State → ContractRow
row r s e t = record { role = r; from = s; on = e; to = t }

-- The table of the source's tests.
pub direct_contract : List ContractRow
direct_contract =
    row client idle (request no_proposals) send_body
    ∷ row client idle connection_closed closed
    ∷ row client send_body body_data send_body
    ∷ row client send_body end_of_message done
    ∷ row client done connection_closed closed
    ∷ row client must_close connection_closed closed
    ∷ row client closed connection_closed closed
    ∷ row server idle response send_body
    ∷ row server idle connection_closed closed
    ∷ row server send_response informational_response send_response
    ∷ row server send_response response send_body
    ∷ row server send_response (protocol_switch connect) switched_protocol
    ∷ row server send_response (protocol_switch upgrade) switched_protocol
    ∷ row server send_body body_data send_body
    ∷ row server send_body end_of_message done
    ∷ row server done connection_closed closed
    ∷ row server must_close connection_closed closed
    ∷ row server closed connection_closed closed
    ∷ []

abbrev pub role_eq : Role → Role → Bool
role_eq client client = true
role_eq server server = true
role_eq _ _ = false

-- `find_map` over the table. A row stands for its event with any payload, of which the table has one or two.
pub find_row : Role → State → StateEvent → List ContractRow → Option State
find_row r s e [] = none
find_row r s e (c ∷ cs) =
    if role_eq r c.role && state_eq s c.from && event_tag e == event_tag c.on
    then some c.to
    else find_row r s e cs

abbrev same_target : Option State → Option State → Bool
same_target none none = true
same_target (some a) (some b) = state_eq a b
same_target _ _ = false

same_target_sound : (a b : Option State) → same_target a b ≡ true → a ≡ b
same_target_sound none none h = refl
same_target_sound none (some b) h = cc
same_target_sound (some a) none h = cc
same_target_sound (some a) (some b) h = ap some (state_eq_sound a b h)

contract_checked :
    (every_state λ s.
      every_event λ r e. same_target (direct_transition r s e) (find_row r s e direct_contract))
    ≡ true
unfolding every_state every_event direct_transition find_row direct_contract
contract_checked = refl

-- For every role, state and event, the transition of the role is the one that the table gives, and
-- the event is refused exactly where the table has no row.
pub direct_transition-contract :
    (r : Role) (s : State) (e : StateEvent)
    → direct_transition r s e ≡ find_row r s e direct_contract
direct_transition-contract r s e = same_target_sound _ _ (
    every_event_sound
      (λ r' e'. same_target (direct_transition r' s e') (find_row r' s e' direct_contract)) r e
      (every_state_sound
        (λ s'.
          every_event
            λ r' e'. same_target (direct_transition r' s' e') (find_row r' s' e' direct_contract))
        s contract_checked))

abbrev Outcome : Type 0
Outcome = ConnectionState × Result InvalidTransition (Unit {0})

abbrev same_outcome : Outcome → Outcome → Bool
same_outcome (c, r) (d, s) = state_unchanged c d && same_flag (is_ok r) (is_ok s)

same_outcome_sound : (a b : Outcome) → same_outcome a b ≡ true → a ≡ b
unfolding same_flag
same_outcome_sound (c, ok _) (d, ok _) h = ground (arith, state_unchanged_sound c d)
same_outcome_sound (c, ok _) (d, err invalid_transition) h = ground arith
same_outcome_sound (c, err invalid_transition) (d, ok _) h = ground arith
same_outcome_sound (c, err invalid_transition) (d, err invalid_transition) h =
    ground (arith, state_unchanged_sound c d)

fast_path_checked :
    (every_valid λ c. every_event λ r e. same_outcome (process_event c r e) (process_slow c r e))
    ≡ true
unfolding every_config every_event valid process_event same_flag
fast_path_checked = refl

-- In a reachable state the early return of `process_event` for body data gives the same state and
-- result as the full transition with its stabilization.
pub fast_path-eq-slow :
    (c : ConnectionState) (r : Role) (e : StateEvent)
    → Reach c
    → process_event c r e ≡ process_slow c r e
fast_path-eq-slow c r e h = same_outcome_sound _ _ (
    every_event_sound (λ r' e'. same_outcome (process_event c r' e') (process_slow c r' e')) r e
      (every_valid_sound
        (λ d. every_event λ r' e'. same_outcome (process_event d r' e') (process_slow d r' e')) c
        fast_path_checked (Reach-IsValid h)))

rejected_checked :
    (every_config λ c. every_event λ r e.
      implies (not (is_ok (process_event c r e).1)) (state_unchanged (process_event c r e).0 c))
    ≡ true
unfolding every_config every_event process_event state_unchanged
rejected_checked = refl

-- A call that reports an error leaves the joint state as it was, whatever the state and the event.
pub rejected_unchanged :
    (c : ConnectionState) (r : Role) (e : StateEvent) {x : InvalidTransition}
    → (process_event c r e).1 ≡ err x
    → (process_event c r e).0 ≡ c
rejected_unchanged c r e h = state_unchanged_sound _ _ (
    implied (not (is_ok (process_event c r e).1)) _
      (every_event_sound
        (λ r' e'.
          implies (not (is_ok (process_event c r' e').1))
            (state_unchanged (process_event c r' e').0 c))
        r e
        (every_config_sound
          (λ d. every_event λ r' e'.
            implies (not (is_ok (process_event d r' e').1))
              (state_unchanged (process_event d r' e').0 d))
          c rejected_checked))
      (rw h))

reuse_checked :
    (every_valid λ c.
      same_flag (is_ok (start_next_cycle c).1) (state_eq c.client done && state_eq c.server done))
    ≡ true
unfolding every_config valid start_next_cycle same_flag
reuse_checked = refl

both_done : (a b : State) → (state_eq a done && state_eq b done) ≡ true → (a ≡ done) × (b ≡ done)
both_done a b h = (
  state_eq_sound a done (and_left _ (state_eq b done) h),
  state_eq_sound b done (and_right (state_eq a done) _ h),
)

cycle_of_ok :
    (c : ConnectionState) → is_ok (start_next_cycle c).1 ≡ true → start_next_cycle c ≡ (new, ok tt)
unfolding start_next_cycle
cycle_of_ok c h = ground arith

same_flag_iff : (a b : Bool) → same_flag a b ≡ true → (a ≡ true) ↔ (b ≡ true)
unfolding same_flag
same_flag_iff true b h = (λ _. h, λ _. refl)
same_flag_iff false true h = (λ e. cc, λ e. cc)
same_flag_iff false false h = (λ e. e, λ e. e)

-- In a reachable state the connection can be reused exactly when both actors are done, with no
-- separate look at keep-alive or the proposals, and reuse gives a new joint state.
pub reuse_iff-done :
    (c : ConnectionState)
    → Reach c
    → (start_next_cycle c ≡ (new, ok tt)) ↔ ((c.client ≡ done) × (c.server ≡ done))
reuse_iff-done c h = (
  λ e. both_done c.client c.server (flags.0 (rw e)),
  λ e. cycle_of_ok c (flags.1 (rw (e.0, e.1))),
)
  where
    flags :
        (is_ok (start_next_cycle c).1 ≡ true)
        ↔ ((state_eq c.client done && state_eq c.server done) ≡ true)
    flags = same_flag_iff _ _ (
        every_valid_sound
          (λ d.
            same_flag (is_ok (start_next_cycle d).1)
              (state_eq d.client done && state_eq d.server done))
          c reuse_checked (Reach-IsValid h))

-- Permanence: an error state stays, and a lost keep-alive stays lost.
permanent : ConnectionState → ConnectionState → Bool
permanent c d =
    implies (state_eq c.client error) (state_eq d.client error)
    && implies (state_eq c.server error) (state_eq d.server error)
    && implies (not c.keep_alive) (not d.keep_alive)

event_permanent_checked :
    (every_config λ c. every_event λ r e. permanent c (process_event c r e).0) ≡ true
unfolding every_config every_event process_event permanent
event_permanent_checked = refl

disable_permanent_checked : (every_config λ c. permanent c (disable_keep_alive c)) ≡ true
unfolding every_config disable_keep_alive permanent
disable_permanent_checked = refl

poison_permanent_checked :
    (every_config λ c. permanent c (process_error c client) && permanent c (process_error c server))
    ≡ true
unfolding every_config process_error permanent
poison_permanent_checked = refl

cycle_permanent_checked : (every_config λ c. permanent c (start_next_cycle c).0) ≡ true
unfolding every_config start_next_cycle permanent
cycle_permanent_checked = refl

permanent-Step : {c d : ConnectionState} → Step c d → permanent c d ≡ true
permanent-Step {c} (event r e) =
    every_event_sound (λ r' e'. permanent c (process_event c r' e').0) r e
      (every_config_sound (λ b. every_event λ r' e'. permanent b (process_event b r' e').0) c
        event_permanent_checked)
permanent-Step {c} disable =
    every_config_sound (λ b. permanent b (disable_keep_alive b)) c disable_permanent_checked
permanent-Step {c} (poison client) = and_left _ (permanent c (process_error c server)) (
    every_config_sound
      (λ b. permanent b (process_error b client) && permanent b (process_error b server)) c
      poison_permanent_checked)
permanent-Step {c} (poison server) = and_right (permanent c (process_error c client)) _ (
    every_config_sound
      (λ b. permanent b (process_error b client) && permanent b (process_error b server)) c
      poison_permanent_checked)
permanent-Step {c} cycle =
    every_config_sound (λ b. permanent b (start_next_cycle b).0) c cycle_permanent_checked

-- No call, accepted or not, from any joint state, brings an actor out of the error state or turns
-- keep-alive on again.
pub Step-permanence :
    {c d : ConnectionState}
    → Step c d
    → (c.client ≡ error → d.client ≡ error)
      × (c.server ≡ error → d.server ≡ error)
      × (c.keep_alive ≡ false → d.keep_alive ≡ false)
unfolding permanent
Step-permanence {c} {d} s =
    ground (arith, permanent-Step s, state_eq_sound d.client error, state_eq_sound d.server error)
