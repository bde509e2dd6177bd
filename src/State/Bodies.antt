-- ===== src/State/Bodies.antt =====
-- crates/h11r/src/state.rs: which steps leave an actor in the middle of a body.
use h11r.Prelude.{◌≡◌, refl, arith, Bool, true, false, not, ◌&&◌, is_ok}
use h11r.State
use h11r.State.{
  Role, client, server, State, state_eq, StateEvent, ConnectionState, process_event,
  state_unchanged, disable_keep_alive,
}
use h11r.State.Finite.{and_left, and_right, every_config, every_config_sound, state_unchanged_sound}
use h11r.State.Invariant.{implies, implied}

-- For body data the peer is in a body, and stays there.
abbrev data_checked_at : Role → ConnectionState → Bool
data_checked_at r c =
    implies (is_ok (process_event c r StateEvent.body_data).1)
      (state_unchanged (process_event c r StateEvent.body_data).0 c)

-- For an end the peer is in a body, and leaves it.
abbrev end_checked_at : Role → ConnectionState → Bool
end_checked_at r c = implies (is_ok (process_event c r StateEvent.end_of_message).1) (
    state_eq (State.state c r) State.send_body
    && not
        (state_eq (State.state (process_event c r StateEvent.end_of_message).0 r) State.send_body))

-- Behind a close the peer is in no body.
abbrev close_checked_at : Role → ConnectionState → Bool
close_checked_at r c = implies (is_ok (process_event c r StateEvent.connection_closed).1) (
    not
      (state_eq (State.state (process_event c r StateEvent.connection_closed).0 r) State.send_body))

close_checked : (every_config λ c. close_checked_at client c && close_checked_at server c) ≡ true
unfolding every_config process_event State.state
close_checked = refl

data_checked : (every_config λ c. data_checked_at client c && data_checked_at server c) ≡ true
unfolding every_config process_event state_unchanged
data_checked = refl

end_checked : (every_config λ c. end_checked_at client c && end_checked_at server c) ≡ true
unfolding every_config process_event State.state
end_checked = refl

role_checked :
    (p : Role → ConnectionState → Bool) (r : Role) (c : ConnectionState)
    → (every_config λ d. p client d && p server d) ≡ true
    → p r c ≡ true
role_checked p client c h =
    and_left _ (p server c) (every_config_sound (λ d. p client d && p server d) c h)
role_checked p server c h =
    and_right (p client c) _ (every_config_sound (λ d. p client d && p server d) c h)

pub data_stays :
    (c : ConnectionState) (r : Role)
    → is_ok (process_event c r StateEvent.body_data).1 ≡ true
    → (process_event c r StateEvent.body_data).0 ≡ c
data_stays c r h = state_unchanged_sound _ _ (
    implied (is_ok (process_event c r StateEvent.body_data).1) _
      (role_checked data_checked_at r c data_checked) h)

pub end_leaves :
    (c : ConnectionState) (r : Role)
    → is_ok (process_event c r StateEvent.end_of_message).1 ≡ true
    → (state_eq (State.state c r) State.send_body
        && not (
            state_eq
              (State.state (process_event c r StateEvent.end_of_message).0 r)
              State.send_body))
      ≡ true
end_leaves c r h =
    implied (is_ok (process_event c r StateEvent.end_of_message).1) _
      (role_checked end_checked_at r c end_checked) h

pub closed_left :
    (c : ConnectionState) (r : Role)
    → is_ok (process_event c r StateEvent.connection_closed).1 ≡ true
    → state_eq (State.state (process_event c r StateEvent.connection_closed).0 r) State.send_body
      ≡ false
closed_left c r h =
    let no =
      implied (is_ok (process_event c r StateEvent.connection_closed).1) _
        (role_checked close_checked_at r c close_checked) h in
    ground (arith, no)

-- The end of keep-alive opens no body.
abbrev ends_checked_at : Role → ConnectionState → Bool
ends_checked_at r c =
    implies (state_eq (State.state (disable_keep_alive c) r) State.send_body)
      (state_eq (State.state c r) State.send_body)

ends_checked : (every_config λ c. ends_checked_at client c && ends_checked_at server c) ≡ true
unfolding every_config disable_keep_alive State.state
ends_checked = refl

pub disable_keep_alive_opens :
    (r : Role) (c : ConnectionState)
    → state_eq (State.state (disable_keep_alive c) r) State.send_body ≡ true
    → state_eq (State.state c r) State.send_body ≡ true
disable_keep_alive_opens r c opened =
    implied (state_eq (State.state (disable_keep_alive c) r) State.send_body) _
      (role_checked ends_checked_at r c ends_checked) opened
