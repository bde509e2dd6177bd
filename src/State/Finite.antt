-- ===== src/State/Finite.antt =====
-- crates/h11r/src/state.rs: the joint state is finite, so a test on it is checked by evaluation.
use h11r.Prelude.{◌≡◌, refl, arith, Bool, true, false, ◌&&◌}
use h11r.State.{
  Role, client, server, State, idle, send_response, send_body, done, might_switch_protocol,
  switched_protocol, must_close, closed, error, state_eq, SwitchProposals, SwitchKind, StateEvent,
  request, informational_response, response, body_data, end_of_message, protocol_switch,
  connection_closed, ConnectionState, state_unchanged,
}

pub and_left : (a b : Bool) → (a && b) ≡ true → a ≡ true
and_left true b h = refl
and_left false b h = h

pub and_right : (a b : Bool) → (a && b) ≡ true → b ≡ true
and_right true b h = h
and_right false true h = refl
and_right false false h = h

unfoldable pub every_flag : (Bool → Bool) → Bool
every_flag p = p true && p false

pub every_flag_sound : (p : Bool → Bool) (b : Bool) → every_flag p ≡ true → p b ≡ true
unfolding every_flag
every_flag_sound p true h = ground arith
every_flag_sound p false h = ground arith

unfoldable pub every_state : (State → Bool) → Bool
every_state p =
    p idle
    && p send_response
    && p send_body
    && p done
    && p might_switch_protocol
    && p switched_protocol
    && p must_close
    && p closed
    && p error

pub every_state_sound : (p : State → Bool) (s : State) → every_state p ≡ true → p s ≡ true
unfolding every_state
every_state_sound p idle h = ground arith
every_state_sound p _ h = ground arith

every_proposal : (SwitchProposals → Bool) → Bool
unfolding every_flag
every_proposal p = every_flag λ con. every_flag λ up. p (record { connect = con; upgrade = up })

every_proposal_sound :
    (p : SwitchProposals → Bool) (q : SwitchProposals) → every_proposal p ≡ true → p q ≡ true
unfolding every_proposal
every_proposal_sound p q h =
    every_flag_sound (λ up. p (record { connect = q.connect; upgrade = up })) q.upgrade
      (every_flag_sound (λ con. every_flag λ up. p (record { connect = con; upgrade = up }))
        q.connect h)

-- A test holds of every joint state.
unfoldable pub every_config : (ConnectionState → Bool) → Bool
unfolding every_flag every_state every_proposal
every_config p = every_state λ cl. every_state λ sv. every_flag λ alive.
    every_proposal λ q. p (record { client = cl; server = sv; keep_alive = alive; proposals = q })

pub every_config_sound :
    (p : ConnectionState → Bool) (c : ConnectionState) → every_config p ≡ true → p c ≡ true
every_config_sound p c h = every_proposal_sound at_proposals c.proposals (
    every_flag_sound at_flag c.keep_alive (
      every_state_sound at_server c.server
        (every_state_sound at_client c.client (unfold every_config in h))))
  where
    at_proposals : SwitchProposals → Bool
    at_proposals q = p (record c { proposals = q })

    at_flag : Bool → Bool
    at_flag b = every_proposal λ q. p (record c { keep_alive = b; proposals = q })

    at_server : State → Bool
    at_server s =
        every_flag
          λ b. every_proposal λ q. p (record c { server = s; keep_alive = b; proposals = q })

    at_client : State → Bool
    at_client s = every_state λ t. every_flag λ b.
        every_proposal λ q. p (record { client = s; server = t; keep_alive = b; proposals = q })

plain_events : (StateEvent → Bool) → Bool
plain_events p =
    p informational_response
    && p response
    && p body_data
    && p end_of_message
    && p (protocol_switch SwitchKind.connect)
    && p (protocol_switch SwitchKind.upgrade)
    && p connection_closed

role_events : (StateEvent → Bool) → Bool
unfolding every_proposal plain_events
role_events p = every_proposal (λ q. p (request q)) && plain_events p

role_events_sound : (p : StateEvent → Bool) (e : StateEvent) → role_events p ≡ true → p e ≡ true
unfolding role_events
role_events_sound p (request q) h =
    every_proposal_sound (λ r. p (request r)) q (and_left _ (plain_events p) h)
role_events_sound p informational_response h = ground arith
role_events_sound p response h = ground arith
role_events_sound p body_data h = ground arith
role_events_sound p end_of_message h = ground arith
role_events_sound p (protocol_switch SwitchKind.connect) h = ground arith
role_events_sound p (protocol_switch SwitchKind.upgrade) h = ground arith
role_events_sound p connection_closed h = ground arith

-- A test holds of both roles and every event.
unfoldable pub every_event : (Role → StateEvent → Bool) → Bool
unfolding role_events
every_event p = role_events (p client) && role_events (p server)

pub every_event_sound :
    (p : Role → StateEvent → Bool) (r : Role) (e : StateEvent) → every_event p ≡ true → p r e ≡ true
every_event_sound p client e h =
    role_events_sound (p client) e (and_left _ (role_events (p server)) (unfold every_event in h))
every_event_sound p server e h =
    role_events_sound (p server) e (and_right (role_events (p client)) _ (unfold every_event in h))

pub state_eq_sound : (a b : State) → state_eq a b ≡ true → a ≡ b
state_eq_sound idle b h = ground arith
state_eq_sound _ b h = ground arith

pub state_unchanged_sound : (a b : ConnectionState) → state_unchanged a b ≡ true → a ≡ b
unfolding state_unchanged
state_unchanged_sound a b h =
    ground (arith, state_eq_sound a.client b.client, state_eq_sound a.server b.server)
