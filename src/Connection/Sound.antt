-- ===== src/Connection/Sound.antt =====
-- crates/h11r/src/connection: each call keeps the joint state valid and the bytes held payload.
use h11r.Prelude.{
  ℕ, ◌≡◌, refl, ap, sym, ◌∙◌, subst, arith, inl, inr, ◌⊎◌, true, false, not, ◌&&◌, ◌||◌, Bytes,
  ◌==◌, ltb, Bool-cases, is_empty, if◌then◌else◌, ok, err, map_err,
}
use h11r.State
use h11r.State.{Role, peer, State, state_eq, StateEvent, ConnectionState, disable_keep_alive}
use h11r.State.Finite.{state_eq_sound}
use h11r.State.Invariant.{Step, Reach, next, Steps, here, Reach-Steps}
use h11r.State.Peer.{disable_keep_alive-goes_on}
use h11r.Connection.{
  Connection, is_client, peer_state, start_next_cycle, attempt, with_error, default_cycle,
}
use h11r.Connection.Frame.{and_then-kept, attempt-kept, choice-kept, if-kept}
use h11r.Connection.Keeps.{Keeps, PeerSends}
use h11r.Connection.Lifecycle.{role_cases}
use h11r.Connection.Receive.{receive_data}
use h11r.Connection.Receive.Payload.{
  reader_remaining, payload_remaining, fits_within, hold_body_data, next_event_in_place,
  advance_payload, peer_data,
}
use h11r.Connection.Receive.Held.{HeldFits, hold_body_data-HeldFits, next_event_in_place-HeldFits}
use h11r.Connection.Receive.Events.{next_event}
use h11r.Connection.Receive.Untouched.{Untouched-self, peer_data-Untouched}
use h11r.Connection.Receive.Untouched.Poll.{next_event-Untouched}
use h11r.Wire.Buffer
use h11r.Wire.Buffer.{Buffer, as_slice}
use h11r.Wire.Errors.{local}
use h11r.Wire.Parse.{HeadParser}

-- What holds between two calls: the joint state is valid, and the bytes held are payload.
pub record Sound (c : Connection) : Type 0 where
  pub reach : Reach c.state
  pub held_fits : HeldFits c

-- Payload may be held exactly while the peer is in a body that has some left.
holds_iff :
    (c : Connection) (count : ℕ)
    → fits_within count (payload_remaining c) ≡ true
    → PeerSends c.role c.state × (fits_within count (reader_remaining c.cycle.reader) ≡ true)
unfolding payload_remaining
holds_iff c count h = elim (Bool-cases (state_eq (peer_state c) State.send_body)) [
  | inl sends ↦ (state_eq_sound _ _ sends, ground (arith, h, sends))
  | inr other ↦ absurd (ground (arith, h, other))
]

may_hold :
    (c : Connection) (count : ℕ)
    → peer_state c ≡ State.send_body
    → fits_within count (reader_remaining c.cycle.reader) ≡ true
    → fits_within count (payload_remaining c) ≡ true
unfolding payload_remaining
may_hold c count sends h =
    let yes : state_eq (peer_state c) State.send_body ≡ true =
      ap (λ s. state_eq s State.send_body) sends in
    rw yes h

HeldFits-update :
    (c d : Connection)
    → c.held ≡ d.held
    → d.cycle.reader ≡ c.cycle.reader
    → (peer_state c ≡ State.send_body → peer_state d ≡ State.send_body)
    → HeldFits c
    → HeldFits d
HeldFits-update c d held reader body (inl none_held) = inl (sym held ∙ none_held)
HeldFits-update c d held reader body (inr fits) =
    let (sends, left) = holds_iff c c.held fits in
    inr (
      may_hold d d.held (body sends) (
        subst (λ n. fits_within n (reader_remaining d.cycle.reader) ≡ true) held
          (subst (λ r. fits_within c.held (reader_remaining r) ≡ true) (sym reader) left)))

pub Keeps-Sound : {c d : Connection} → Keeps c d → Sound c → Sound d
Keeps-Sound {c} {d} k h = record {
  reach = Reach-Steps h.reach k.reach;
  held_fits =
      HeldFits-update c d (ap (λ x. x.held) k.kept) k.reader
        (λ sends.
          subst (λ r. State.state d.state (peer r) ≡ State.send_body) (ap (λ x. x.role) k.kept)
            (k.body sends))
        h.held_fits;
}

disabled_Sound :
    (c : Connection) → Sound c → Sound (record c { state = disable_keep_alive c.state })
disabled_Sound c h = record {
  reach = next h.reach Step.disable;
  held_fits =
      HeldFits-update c (record c { state = disable_keep_alive c.state }) refl refl
        (disable_keep_alive-goes_on c.state (peer c.role)) h.held_fits;
}

pub receive_data-Sound : (c : Connection) (bytes : Bytes) → Sound c → Sound (receive_data c bytes).0
unfolding receive_data
receive_data-Sound c bytes h =
    if-kept Sound (c.eof && not (is_empty bytes)) _ _ h
      (choice-kept Sound (is_empty bytes) _ _ (closed (Bool-cases (is_client c.role))) appended)
  where
    with_input : Buffer → Connection
    with_input input = record c { input = input }

    appended : Sound (with_input (Buffer.extend c.input bytes))
    appended = record {
      reach = h.reach;
      held_fits =
          HeldFits-update c (with_input (Buffer.extend c.input bytes)) refl refl (λ s. s)
            h.held_fits;
    }

    at_eof : Connection
    at_eof = record c { eof = true }

    eof_sound : Sound at_eof
    eof_sound = record {
      reach = h.reach;
      held_fits = HeldFits-update c at_eof refl refl (λ s. s) h.held_fits;
    }

    closed :
        (is_client c.role ≡ true) ⊎ (is_client c.role ≡ false)
        → Sound (record c {
          eof = true;
          state = if is_client c.role then disable_keep_alive c.state else c.state;
        })
    closed (inl at_client) = rw at_client (disabled_Sound at_eof eof_sound)
    closed (inr at_server) = rw at_server eof_sound

pub hold_body_data-Sound : (c : Connection) (count : ℕ) → Sound c → Sound (hold_body_data c count).0
hold_body_data-Sound c count h = record {
  reach = held_reach;
  held_fits = hold_body_data-HeldFits c count h.held_fits;
}
  where
    held_reach : Reach (hold_body_data c count).0.state
    held_reach = unfold hold_body_data in choice-kept (λ d. Reach d.state) _ _ _ h.reach h.reach

-- A poll with no bytes held.
pub next_event-Sound :
    (httparse : HeadParser) (c : Connection)
    → c.held ≡ 0
    → Sound c
    → Sound (next_event httparse c).0
next_event-Sound httparse c none_held h =
    let still = next_event-Untouched httparse c in
    record {
      reach = Reach-Steps h.reach still.reach;
      held_fits = inl (ap (λ p. p.1.1.1) still.same ∙ none_held);
    }

-- While the peer is in a body the cycle goes on.
cycle_goes_on :
    (c : Connection)
    → peer_state c ≡ State.send_body
    → (State.start_next_cycle c.state) ≡ (c.state, err State.invalid_transition)
unfolding State.start_next_cycle State.state peer
cycle_goes_on c sends = elim (role_cases c.role) [
  | inl at_client ↦ ground (arith, at_client, sends)
  | inr at_server ↦ ground (arith, at_server, sends)
]

pub start_next_cycle-Sound : (c : Connection) → Sound c → Sound (start_next_cycle c).0
unfolding start_next_cycle
start_next_cycle-Sound c h =
    if-kept Sound
      (is_client c.role && state_eq (peer_state c) State.done && not (is_empty (as_slice c.input)))
      _ _ (disabled_Sound c h) (by_held h.held_fits)
  where
    by_held :
        HeldFits c
        → Sound
            (attempt
              (record c { state = (State.start_next_cycle c.state).0 })
              (with_error (local "connection is not reusable") (State.start_next_cycle c.state).1)
              (λ _. (
                record c { state = (State.start_next_cycle c.state).0; cycle = default_cycle },
                ok (tt {0}),
              ))).0
    by_held (inl none_held) =
        attempt-kept Sound
          (with_error (local "connection is not reusable") (State.start_next_cycle c.state).1) _
          (record { reach = next h.reach Step.cycle; held_fits = inl none_held })
          (λ _. record { reach = next h.reach Step.cycle; held_fits = inl none_held })
    by_held (inr fits) = rw (cycle_goes_on c (holds_iff c c.held fits).0) h

pub in_place-reach :
    (c : Connection) (count : ℕ) → Steps c.state (next_event_in_place c count).0.state
unfolding next_event_in_place
in_place-reach c count =
    let advanced = advance_payload c count in
    let polled = peer_data advanced.0 count advanced.1.1.0 advanced.1.1.1 in
    if-kept (λ d. Steps c.state d.state) (count == 0 || ltb c.held count) _ _ here
      (and_then-kept (λ d. Steps c.state d.state)
        (polled.0, map_err (λ _. local "held body bytes are invalid in the peer state") polled.1) _
        ((peer_data-Untouched count advanced.1.1.0 advanced.1.1.1 Untouched-self).reach)
        (λ d _ k. k))

next_event_in_place-HeldFits_any :
    (c : Connection) (count : ℕ) → HeldFits c → HeldFits (next_event_in_place c count).0
next_event_in_place-HeldFits_any c count h = elim (Bool-cases (count == 0 || ltb c.held count)) [
  | inl refused ↦ unfold next_event_in_place in rw refused h
  | inr taken ↦
      let (_, _, fits) =
        next_event_in_place-HeldFits c count h (ground (arith, taken)) (ground (arith, taken)) in
      fits
]

pub next_event_in_place-Sound :
    (c : Connection) (count : ℕ) → Sound c → Sound (next_event_in_place c count).0
next_event_in_place-Sound c count h = record {
  reach = Reach-Steps h.reach (in_place-reach c count);
  held_fits = next_event_in_place-HeldFits_any c count h.held_fits;
}
