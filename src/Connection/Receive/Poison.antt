-- ===== src/Connection/Receive/Poison.antt =====
-- crates/h11r/src/connection/receive.rs: polling ends, and an error of the peer is final.
use h11r.Prelude.{◌≡◌, refl, arith, ◌⊎◌, Bool, true, false, not, ◌&&◌, none, Bool-cases, ok, err}
use h11r.State
use h11r.State.{Role, client, server, peer, State, state_eq, ConnectionState, process_error}
use h11r.State.Finite.{every_config, every_config_sound, state_eq_sound, and_left, and_right}
use h11r.Connection.{Connection, Outcome, is_client, peer_state}
use h11r.Connection.Later.{Later, Later-error}
use h11r.Connection.Receive.Payload.{Polled}
use h11r.Connection.Receive.Events.{
  poll_state, next_event_inner, event_fuel, hide_status, report, settle, next_event,
}
use h11r.Wire.Errors.{RemoteProtocolError, remote}
use h11r.Wire.Parse.{HeadParser, Failure, failed, panicked}

-- The state of an actor behind an error, and whether the connection persists.
abbrev poisoned : Role → ConnectionState → Bool
poisoned role c =
    let d = process_error c role in state_eq (State.state d role) State.error && not d.keep_alive

poisoned_checked : (every_config λ c. poisoned client c && poisoned server c) ≡ true
unfolding every_config process_error State.state
poisoned_checked = refl

process_error-poisoned : (role : Role) (c : ConnectionState) → poisoned role c ≡ true
process_error-poisoned client c =
    and_left _ (poisoned server c)
      (every_config_sound (λ b. poisoned client b && poisoned server b) c poisoned_checked)
process_error-poisoned server c =
    and_right (poisoned client c) _
      (every_config_sound (λ b. poisoned client b && poisoned server b) c poisoned_checked)

poll_error :
    (httparse : HeadParser) (d : Connection)
    → peer_state d ≡ State.error
    → (next_event httparse d).1 ≡ err (failed (hide_status d (remote "peer state is ERROR" none)))
unfolding next_event next_event_inner poll_state settle
poll_error httparse d h = rw h refl

settle-poisons :
    (o : Outcome Failure Polled) (error : RemoteProtocolError)
    → (settle o).1 ≡ err (failed error)
    → (peer_state (settle o).0 ≡ State.error)
      × ((settle o).0.state.keep_alive ≡ false)
      × (is_client (settle o).0.role ≡ true → error.suggested_status_code ≡ none)
unfolding settle report
settle-poisons (c, ok polled) error h = let no : ⊥ = ground (arith, h) in absurd no
settle-poisons (c, err (panicked m)) error h = let no : ⊥ = ground (arith, h) in absurd no
settle-poisons (c, err (failed e)) error h = (
  state_eq_sound _ State.error
      (and_left _ (not (process_error c.state (peer c.role)).keep_alive) both),
  ground (
    arith,
    and_right
        (state_eq (State.state (process_error c.state (peer c.role)) (peer c.role)) State.error) _
        both,
  ),
  λ k. hidden (Bool-cases (is_client c.role)) k,
)
  where
    both : poisoned (peer c.role) c.state ≡ true
    both = process_error-poisoned (peer c.role) c.state

    hidden :
        (is_client c.role ≡ true) ⊎ (is_client c.role ≡ false)
        → is_client c.role ≡ true
        → error.suggested_status_code ≡ none
    hidden _ k = ground (arith, h, k)

-- An error of the peer is final: it leaves the peer's state at the error and the connection without
-- keep-alive and tells a client no status to answer with; and after any further calls, in any order,
-- accepted or not, the peer is still in the error state, the connection still has no keep-alive, and a
-- poll is the error that says so.
pub next_event-poisons :
    (httparse : HeadParser) (c : Connection) (error : RemoteProtocolError)
    → (next_event httparse c).1 ≡ err (failed error)
    → (peer_state (next_event httparse c).0 ≡ State.error)
      × ((next_event httparse c).0.state.keep_alive ≡ false)
      × (is_client (next_event httparse c).0.role ≡ true → error.suggested_status_code ≡ none)
      × ((d : Connection)
          → Later httparse (next_event httparse c).0 d
          → (peer_state d ≡ State.error)
            × (d.state.keep_alive ≡ false)
            × ((next_event httparse d).1
                ≡ err (failed (hide_status d (remote "peer state is ERROR" none)))))
next_event-poisons httparse c error h =
    let (dead, no_reuse, silent) = settled h in
    (
      dead,
      no_reuse,
      silent,
      λ d later.
          let (still, kept) = Later-error later dead no_reuse in
          (still, kept, poll_error httparse d still),
    )
  where
    settled :
        (next_event httparse c).1 ≡ err (failed error)
        → (peer_state (next_event httparse c).0 ≡ State.error)
          × ((next_event httparse c).0.state.keep_alive ≡ false)
          × (is_client (next_event httparse c).0.role ≡ true → error.suggested_status_code ≡ none)
    settled = unfold next_event in settle-poisons (next_event_inner httparse event_fuel c) error
