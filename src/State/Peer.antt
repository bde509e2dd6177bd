-- ===== src/State/Peer.antt =====
-- crates/h11r/src/state.rs: what an actor does leaves its peer in the middle of a body.
use h11r.Prelude.{◌≡◌, refl, ap, Bool, true, ◌&&◌}
use h11r.State.{
  Role, client, server, peer, send_body, state_eq, StateEvent, ConnectionState, state,
  process_event, disable_keep_alive,
}
use h11r.State.Finite.{
  and_left, and_right, every_config, every_config_sound, every_event, every_event_sound,
  state_eq_sound,
}
use h11r.State.Invariant.{implies, implied}

-- Whether an actor that is sending a body in `c` is still doing so in `d`.
abbrev body_goes_on : Role → ConnectionState → ConnectionState → Bool
body_goes_on r c d = implies (state_eq (state c r) send_body) (state_eq (state d r) send_body)

event_checked :
    (every_config λ c. every_event λ r e. body_goes_on (peer r) c (process_event c r e).0) ≡ true
unfolding every_config every_event process_event state peer
event_checked = refl

disable_checked :
    (every_config λ c.
      body_goes_on client c (disable_keep_alive c) && body_goes_on server c (disable_keep_alive c))
    ≡ true
unfolding every_config disable_keep_alive state
disable_checked = refl

goes_on :
    (r : Role) (c d : ConnectionState)
    → body_goes_on r c d ≡ true
    → state c r ≡ send_body
    → state d r ≡ send_body
goes_on r c d h sending =
    state_eq_sound (state d r) send_body
      (implied (state_eq (state c r) send_body) _ h (ap (λ s. state_eq s send_body) sending))

-- What an actor does, accepted or not, leaves its peer in the middle of a body.
pub process_event-goes_on :
    (c : ConnectionState) (r : Role) (e : StateEvent)
    → state c (peer r) ≡ send_body
    → state (process_event c r e).0 (peer r) ≡ send_body
process_event-goes_on c r e = goes_on (peer r) c (process_event c r e).0 (
    every_event_sound (λ r' e'. body_goes_on (peer r') c (process_event c r' e').0) r e
      (every_config_sound
        (λ d. every_event λ r' e'. body_goes_on (peer r') d (process_event d r' e').0) c
        event_checked))

abbrev disabled_goes_on : Role → ConnectionState → Bool
disabled_goes_on r c = body_goes_on r c (disable_keep_alive c)

-- To turn keep-alive off leaves both actors in the middle of their bodies.
pub disable_keep_alive-goes_on :
    (c : ConnectionState) (r : Role)
    → state c r ≡ send_body
    → state (disable_keep_alive c) r ≡ send_body
disable_keep_alive-goes_on c client = goes_on client c (disable_keep_alive c) (
    and_left _ (disabled_goes_on server c) (
      every_config_sound (λ d. disabled_goes_on client d && disabled_goes_on server d) c
        disable_checked))
disable_keep_alive-goes_on c server = goes_on server c (disable_keep_alive c) (
    and_right (disabled_goes_on client c) _ (
      every_config_sound (λ d. disabled_goes_on client d && disabled_goes_on server d) c
        disable_checked))
