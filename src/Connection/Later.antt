-- ===== src/Connection/Later.antt =====
-- crates/h11r/src/connection: what no later call on a connection undoes.
use h11r.Prelude.{
  ℕ, ◌≡◌, refl, ap, sym, ◌∙◌, subst, Bool, true, false, not, ◌&&◌, ◌||◌, Bytes, is_empty, ◌==◌, ltb,
  map_err, if◌then◌else◌,
}
use h11r.State
use h11r.State.{Role, peer, State, state_eq, ConnectionState, disable_keep_alive}
use h11r.State.Invariant.{Step, Steps, here, further, Steps-trans}
use h11r.State.Lasting.{Steps-error, Steps-keep_alive}
use h11r.Connection.{Connection, is_client, peer_state, start_next_cycle, with_error}
use h11r.Connection.Calls.{
  Call, receives, holds, hands_over, polls, sends_request, sends_informational, sends_response,
  sends_data, ends_message, sends_whole_request, sends_whole_response, starts_cycle, closes,
}
use h11r.Connection.Complete.{
  send_request_with_body_framing-Keeps, send_response_with_body_framing-Keeps,
}
use h11r.Connection.Frame.{and_then-kept, attempt-kept, choice-kept, if-kept}
use h11r.Connection.Keeps.{
  Keeps, Keeps-role, send_request-Keeps, send_informational_response-Keeps, send_response-Keeps,
  send_data_framing-Keeps, end_of_message-Keeps, close-Keeps, Keeps-self,
}
use h11r.Connection.Receive.{record_eof, receive_data}
use h11r.Connection.Receive.Payload.{
  hold_body_data, next_event_in_place, advance_payload, peer_data,
}
use h11r.Connection.Receive.Events.{next_event}
use h11r.Connection.Receive.Untouched.{Untouched, Untouched-self, peer_data-Untouched}
use h11r.Connection.Receive.Untouched.Poll.{next_event-Untouched}
use h11r.Wire.Buffer.{as_slice}
use h11r.Wire.Errors.{local}
use h11r.Wire.Parse.{HeadParser}

-- Any calls from `c`, accepted or not; a poll may come at any time, also with bytes held.
pub data Later (httparse : HeadParser) (c : Connection) : Connection → Type 0 where
  now : Later httparse c c
  called : {d e : Connection} → Later httparse c d → Call httparse d e → Later httparse c e
  polled : {d : Connection} → Later httparse c d → Later httparse c (next_event httparse d).0

-- The role stays, and calls on the joint state lead from `c` to `d`.
record Onward (c d : Connection) : Type 0 where
  same_role : d.role ≡ c.role
  steps : Steps c.state d.state

Onward-self : {c : Connection} → Onward c c
Onward-self = record { same_role = refl; steps = here }

Keeps-Onward : {c d : Connection} → Keeps c d → Onward c d
Keeps-Onward k = record { same_role = sym (Keeps-role k); steps = k.reach }

Untouched-Onward : {c d : Connection} → Untouched c d → Onward c d
Untouched-Onward u = record { same_role = ap (λ p. p.0.0) u.same; steps = u.reach }

record_eof-Onward : (c : Connection) → Onward c (record_eof c)
unfolding record_eof
record_eof-Onward c = record { same_role = refl; steps = by_role (is_client c.role) }
  where
    by_role : (b : Bool) → Steps c.state (if b then disable_keep_alive c.state else c.state)
    by_role true = further here Step.disable
    by_role false = here

receive_data-Onward : (c : Connection) (bytes : Bytes) → Onward c (receive_data c bytes).0
unfolding receive_data
receive_data-Onward c bytes = if-kept (Onward c) (c.eof && not (is_empty bytes)) _ _ Onward-self (
    choice-kept (Onward c) (is_empty bytes) _ _ (record_eof-Onward c)
      (record { same_role = refl; steps = here }))

hold_body_data-Onward : (c : Connection) (count : ℕ) → Onward c (hold_body_data c count).0
unfolding hold_body_data
hold_body_data-Onward c count =
    choice-kept (Onward c) _ _ _ (record { same_role = refl; steps = here }) Onward-self

in_place-Onward : (c : Connection) (count : ℕ) → Onward c (next_event_in_place c count).0
unfolding next_event_in_place
in_place-Onward c count =
    let advanced = advance_payload c count in
    let polled_data = peer_data advanced.0 count advanced.1.1.0 advanced.1.1.1 in
    let still =
      peer_data-Untouched {c = advanced.0} count advanced.1.1.0 advanced.1.1.1 Untouched-self in
    if-kept (Onward c) (count == 0 || ltb c.held count) _ _ Onward-self (
      and_then-kept (Onward c)
        (
          polled_data.0,
          map_err (λ _. local "held body bytes are invalid in the peer state") polled_data.1,
        )
        _ (record { same_role = ap (λ p. p.0.0) still.same; steps = still.reach })
        (λ d _ k. record { same_role = k.same_role; steps = k.steps }))

start_next_cycle-Onward : (c : Connection) → Onward c (start_next_cycle c).0
unfolding start_next_cycle
start_next_cycle-Onward c =
    if-kept (Onward c)
      (is_client c.role && state_eq (peer_state c) State.done && not (is_empty (as_slice c.input)))
      _ _ (record { same_role = refl; steps = further here Step.disable })
      (attempt-kept (Onward c)
        (with_error (local "connection is not reusable") (State.start_next_cycle c.state).1) _
        (record { same_role = refl; steps = further here Step.cycle })
        (λ _. record { same_role = refl; steps = further here Step.cycle }))

Onward-trans : {c d e : Connection} → Onward c d → Onward d e → Onward c e
Onward-trans f g = record {
  same_role = g.same_role ∙ f.same_role;
  steps = Steps-trans f.steps g.steps;
}

module _ {httparse : HeadParser} where
  Call-Onward : {c d : Connection} → Call httparse c d → Onward c d
  Call-Onward {c} (receives bytes) = receive_data-Onward c bytes
  Call-Onward {c} (holds count) = hold_body_data-Onward c count
  Call-Onward {c} (hands_over count) = in_place-Onward c count
  Call-Onward {c} (polls none_held) = Untouched-Onward (next_event-Untouched httparse c)
  Call-Onward {c} (sends_request request) = Keeps-Onward (send_request-Keeps c request)
  Call-Onward {c} (sends_informational response) =
      Keeps-Onward (send_informational_response-Keeps c response)
  Call-Onward {c} (sends_response response) = Keeps-Onward (send_response-Keeps c response)
  Call-Onward {c} (sends_data count) = Keeps-Onward (send_data_framing-Keeps c count Keeps-self)
  Call-Onward {c} (ends_message trailers) =
      Keeps-Onward (end_of_message-Keeps c trailers Keeps-self)
  Call-Onward {c} (sends_whole_request request count) =
      Keeps-Onward (send_request_with_body_framing-Keeps c request count)
  Call-Onward {c} (sends_whole_response response count) =
      Keeps-Onward (send_response_with_body_framing-Keeps c response count)
  Call-Onward {c} starts_cycle = start_next_cycle-Onward c
  Call-Onward {c} closes = Keeps-Onward (close-Keeps c)

  Later-Onward : {c d : Connection} → Later httparse c d → Onward c d
  Later-Onward now = Onward-self
  Later-Onward (called l call) = Onward-trans (Later-Onward l) (Call-Onward call)
  Later-Onward (polled {d} l) =
      Onward-trans (Later-Onward l) (Untouched-Onward (next_event-Untouched httparse d))

  -- An error of the peer and the loss of keep-alive outlast any calls.
  pub Later-error :
      {c d : Connection}
      → Later httparse c d
      → peer_state c ≡ State.error
      → c.state.keep_alive ≡ false
      → (peer_state d ≡ State.error) × (d.state.keep_alive ≡ false)
  Later-error {c} {d} l dead no_reuse =
      let on = Later-Onward l in
      (
        subst (λ r. State.state d.state (peer r) ≡ State.error) (sym on.same_role)
            (Steps-error (peer c.role) on.steps dead),
        Steps-keep_alive on.steps no_reuse,
      )
