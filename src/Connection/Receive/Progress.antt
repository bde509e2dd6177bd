-- ===== src/Connection/Receive/Progress.antt =====
-- crates/h11r/src/connection/receive.rs: each event but the last uses up input or a message.
pub mod Accepts
pub mod Heads
pub mod Poll
use h11r.Prelude.{
  ℕ, zero, suc, ◌+◌, ◌-◌, ◌*◌, ◌≤◌, ◌<◌, min, ◌≡◌, refl, ap, sym, ◌∙◌, subst, arith, inl, inr, Bool,
  true, false, not, ◌&&◌, ◌||◌, Option, none, some, Bytes, length, take, drop, ◌==◌, ltb, leb,
  is_empty, if◌then◌else◌, Bool-cases, Result, ok, err, is_ok, length-take, length-drop, drop_add,
}
use Prim.Native.String.{String}
use h11r.State
use h11r.State.{
  Role, client, server, peer, State, state_eq, StateEvent, ConnectionState, process_event,
}
use h11r.State.Finite.{and_left}
use h11r.State.Bodies.{data_stays, end_leaves, closed_left}
use h11r.Headers.{Headers}
use h11r.Events.{Event}
use h11r.Connection.{
  Connection, Outcome, and_then, attempt, require, peer_state, advance_peer, with_error,
}
use h11r.Connection.Receive.Payload.{
  Polled, event, body_data, need_data, paused, with_reader, take_payload, advance_payload,
  peer_data, finish_peer, peer_closed, need_data_or_eof, read_payload,
}
use h11r.Connection.Receive.Accept.{with_failure}
use h11r.Wire.Buffer.{
  Buffer, Reader, Chunk, size, payload, payload_end, trailers, as_slice, consume,
}
use h11r.Wire.Errors.{RemoteProtocolError, remote}

abbrev pub reader_weight : Reader → ℕ
reader_weight (Reader.chunked (payload _ _)) = 1
reader_weight _ = 0

abbrev pub state_weight : State → ℕ
state_weight s = if state_eq s State.send_body then 1 else 0

-- What is left to do: the input, the message of the peer that is open, and the chunk that is open.
abbrev pub weight_of : ℕ → Connection → ℕ
weight_of count c =
    2 * (length (as_slice c.input) - count)
    + (state_weight (peer_state c) + reader_weight c.cycle.reader)

abbrev pub weight : Connection → ℕ
weight c = weight_of 0 c

-- An event but the last leaves less than `n`, and the last no more.
abbrev pub Left : Event → ℕ → ℕ → Type 0
Left Event.connection_closed left n = left ≤ n
Left _ left n = left < n

-- What is left behind an outcome; body data is counted as taken.
abbrev pub Progress : {E : Type 0} → ℕ → Connection → Result E Polled → Type 0
Progress n d (ok (event e)) = Left e (weight d) n
Progress n d (ok (body_data count _ _)) = weight_of count d < n
Progress n d (ok need_data) = weight d ≤ n
Progress n d (ok paused) = weight d ≤ n
Progress n d (err _) = Unit

pub record Moves {E : Type 0} (n : ℕ) (o : Outcome E Polled) : Type 0 where
  pub moves : Progress n o.0 o.1

-- What follows an event of the peer that was accepted.
pub advance_peer-Moves :
    {n : ℕ} (d : Connection) (e : StateEvent)
    (next : Connection → Unit {0} → Outcome RemoteProtocolError Polled)
    → (is_ok (process_event d.state (peer d.role) e).1 ≡ true
        → Moves n (next (record d { state = (process_event d.state (peer d.role) e).0 }) tt))
    → Moves n (and_then (advance_peer d e) next)
unfolding advance_peer
advance_peer-Moves {n} d e next k = by_result (process_event d.state (peer d.role) e).1 refl
  where
    by_result :
        (r : Result State.InvalidTransition (Unit {0}))
        → (process_event d.state (peer d.role) e).1 ≡ r
        → Moves n (
            and_then
              (
                record d { state = (process_event d.state (peer d.role) e).0 },
                with_error (remote "event is invalid in the peer state" (some 400)) r,
              )
              next)
    by_result (ok u) h = k (ap is_ok h)
    by_result (err x) h = record { moves = tt }

pub with_failure-Moves :
    {n : ℕ} (o : Outcome RemoteProtocolError Polled) → Moves n o → Moves n (with_failure o)
with_failure-Moves (d, ok (event e)) m = record { moves = m.moves }
with_failure-Moves (d, ok (body_data count s t)) m = record { moves = m.moves }
with_failure-Moves (d, ok need_data) m = record { moves = m.moves }
with_failure-Moves (d, ok paused) m = record { moves = m.moves }
with_failure-Moves (d, err e) m = record { moves = tt }

module _ {E : Type 0} {n : ℕ} where
  pub if-Moves :
      (b : Bool) (o p : Outcome E Polled) → Moves n o → Moves n p → Moves n (if b then o else p)
  if-Moves true o p h k = h
  if-Moves false o p h k = k

  pub if-Moves_by :
      (b : Bool) (o p : Outcome E Polled)
      → (b ≡ true → Moves n o)
      → (b ≡ false → Moves n p)
      → Moves n (if b then o else p)
  if-Moves_by true o p h k = h refl
  if-Moves_by false o p h k = k refl

module _ {E A : Type 0} {n : ℕ} where
  pub attempt-Moves :
      (c : Connection) (r : Result E A) (next : A → Outcome E Polled)
      → ((a : A) → r ≡ ok a → Moves n (next a))
      → Moves n (attempt c r next)
  attempt-Moves c (ok a) next k = k a refl
  attempt-Moves c (err e) next k = record { moves = tt }

  pub require-Moves :
      (c : Connection) (r : Option A) (e : E) (next : A → Outcome E Polled)
      → ((a : A) → r ≡ some a → Moves n (next a))
      → Moves n (require c r e next)
  require-Moves c (some a) e next k = k a refl
  require-Moves c none e next k = record { moves = tt }

  pub option-Moves :
      (r : Option A) (x : Outcome E Polled) (f : A → Outcome E Polled)
      → Moves n x
      → ((a : A) → r ≡ some a → Moves n (f a))
      → Moves n (elim r as (λ _. Outcome E Polled) [ none ↦ x | some a ↦ f a ])
  option-Moves none x f h k = h
  option-Moves (some a) x f h k = k a refl

pub peer_data-Moves :
    {n : ℕ} (d : Connection) (count : ℕ) (s t : Bool)
    → weight_of count d < n
    → Moves n (peer_data d count s t)
unfolding peer_data
peer_data-Moves {n} d count s t le = advance_peer-Moves d StateEvent.body_data _ (λ accepted.
    record {
      moves =
          subst (λ c. weight_of count (record d { state = c }) < n)
            (sym (data_stays d.state (peer d.role) accepted)) le;
    })

pub finish_peer-Moves :
    {n : ℕ} (d : Connection) (found : Headers)
    → (state_eq (peer_state d) State.send_body ≡ true → 2 * length (as_slice d.input) + 1 ≤ n)
    → Moves n (finish_peer d found)
unfolding finish_peer
finish_peer-Moves {n} d found le = advance_peer-Moves d StateEvent.end_of_message _ (λ accepted.
    let left = end_leaves d.state (peer d.role) accepted in
    let room = le (and_left _ _ left) in
    let other : state_eq
          (State.state (process_event d.state (peer d.role) StateEvent.end_of_message).0
            (peer d.role))
          State.send_body
        ≡ false =
      ground (arith, left) in
    record { moves = rw other (omega (arith, room)) })

pub peer_closed-Moves : {n : ℕ} (d : Connection) → weight d ≤ n → Moves n (peer_closed d)
unfolding peer_closed
peer_closed-Moves d le = advance_peer-Moves d StateEvent.connection_closed _ (λ accepted. record {
  moves = rw (closed_left d.state (peer d.role) accepted) (omega (arith, le));
})

pub need_data_or_eof-Moves :
    {n : ℕ} (d : Connection) (m : String) → weight d ≤ n → Moves n (need_data_or_eof d m)
unfolding need_data_or_eof
need_data_or_eof-Moves d m le = if-Moves d.eof _ _ (record { moves = tt }) (record { moves = le })

abbrev pub some_left : Reader → Bool
some_left (Reader.fixed n) = not (n == 0)
some_left _ = true

-- Payload is taken, or an empty chunk is closed.
take_payload-uses :
    (r : Reader) (available : ℕ)
    → 1 ≤ available
    → some_left r ≡ true
    → 2 * (available - (take_payload r available).1.0) + reader_weight (take_payload r available).0
      < 2 * available + reader_weight r
unfolding take_payload
take_payload-uses Reader.head available le h = omega arith
take_payload-uses (Reader.fixed remaining) available le h =
    let some_bytes : 1 ≤ remaining = ground (arith, h) in omega arith
take_payload-uses (Reader.chunked (size s)) available le h = omega arith
take_payload-uses (Reader.chunked (payload remaining first)) available le h =
    elim (Bool-cases (min remaining available == remaining)) [
      | inl last ↦ rw last (omega arith)
      | inr more ↦ let short : 1 ≤ remaining = ground (arith, more) in rw more (omega arith)
    ]
take_payload-uses (Reader.chunked payload_end) available le h = omega arith
take_payload-uses (Reader.chunked trailers) available le h = omega arith
take_payload-uses Reader.close_delimited available le h = omega arith

pub read_payload-Moves :
    (d : Connection) (m : String)
    → some_left d.cycle.reader ≡ true
    → Moves (weight d) (read_payload d m)
unfolding read_payload advance_payload
read_payload-Moves d m h =
    if-Moves_by (length (as_slice d.input) == 0) _ _ (λ _. need_data_or_eof-Moves d m (omega arith))
      (λ some_bytes.
        let uses =
          take_payload-uses d.cycle.reader (length (as_slice d.input)) (ground (arith, some_bytes))
            h in
        peer_data-Moves (advance_payload d (length (as_slice d.input))).0 _ _ _
          (omega (arith, uses)))
