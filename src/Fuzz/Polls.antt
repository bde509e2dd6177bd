-- ===== src/Fuzz/Polls.antt =====
-- fuzz/fuzz_targets/common/mod.rs: the loop over `next_event` ends within its budget.
use h11r.Prelude.{ℕ, zero, suc, ◌≤◌, ◌<◌, ◌≡◌, ap, ◌∙◌, arith, Bool, Result, ok, err}
use h11r.Events.{Event, NextEvent}
use h11r.Connection.{Connection, Outcome}
use h11r.Connection.Receive.Payload.{Polled}
use h11r.Connection.Receive.Events.{report, settle, next_event, next_event_inner, event_fuel}
use h11r.Connection.Receive.Progress.{weight, Left, Moves}
use h11r.Connection.Receive.Progress.Heads.{length-consume}
use h11r.Connection.Receive.Progress.Poll.{next_event_inner-Moves}
use h11r.Connection.Receive.Untouched.Poll.{next_event-Untouched}
use h11r.Fuzz.{Panic, Terminal, Drained, poll_once, poll, detach}
use h11r.Wire.Buffer.{take_front}
use h11r.Wire.Parse.{HeadParser, Failure, failed, panicked}
use h11r.Connection.Receive.Fuel.Calm.{next_event-Calm}
use h11r.Wire.Parse.Calm.{Calm, Documented}
use h11r.Wire.Parse.Ends.{EndsWithin}

abbrev LeftBehind : ℕ → Outcome Failure NextEvent → Type 0
LeftBehind n (d, ok (NextEvent.event e)) = Left e (weight d) n
LeftBehind n (d, ok NextEvent.need_data) = weight d ≤ n
LeftBehind n (d, ok NextEvent.paused) = weight d ≤ n
LeftBehind n (d, err _) = Unit

settle-left : {n : ℕ} (o : Outcome Failure Polled) → Moves n o → LeftBehind n (settle o)
unfolding settle report take_front
settle-left (d, ok (Polled.event e)) m = m.moves
settle-left (d, ok (Polled.body_data count s t)) m =
    omega (arith, m.moves, length-consume d.input count)
settle-left (d, ok Polled.need_data) m = m.moves
settle-left (d, ok Polled.paused) m = m.moves
settle-left (d, err (failed e)) m = tt
settle-left (d, err (panicked text)) m = tt

next_event-left :
    (httparse : HeadParser) (c : Connection)
    → EndsWithin httparse
    → LeftBehind (weight c) (next_event httparse c)
unfolding next_event
next_event-left httparse c w =
    settle-left (next_event_inner httparse event_fuel c)
      (next_event_inner-Moves httparse event_fuel c w)

-- A poll did not panic, and unless it ended in an error it left no more than `n` to do, and the mark for
-- the end of the input as it was.
abbrev pub Within : ℕ → Bool → Result Panic (Drained × Terminal) → Type 0
Within n eof (ok (s, Terminal.complete)) = (weight s.connection ≤ n) × (s.connection.eof ≡ eof)
Within n eof (ok (s, Terminal.error status)) = Unit
Within n eof (err _) = ⊥

pub record Bounded (n : ℕ) (eof : Bool) (r : Result Panic (Drained × Terminal)) : Type 0 where
  pub bounded : Within n eof r

pub wider :
    {n m : ℕ} {eof was : Bool} (r : Result Panic (Drained × Terminal))
    → m ≤ n
    → was ≡ eof
    → Bounded m was r
    → Bounded n eof r
wider (ok (s, Terminal.complete)) le same b = record {
  bounded = (omega (arith, b.bounded.0, le), b.bounded.1 ∙ same);
}
wider (ok (s, Terminal.error status)) le same b = record { bounded = tt }
wider (err p) le same b = absurd (b.bounded)

poll_once-Bounded :
    {n : ℕ} {eof : Bool} (again : Drained → Result Panic (Drained × Terminal)) (s : Drained)
    (o : Outcome Failure NextEvent)
    → ((t : Drained) → weight t.connection < n → t.connection.eof ≡ eof → Bounded n eof (again t))
    → LeftBehind n o
    → o.0.eof ≡ eof
    → Calm o.1
    → Bounded n eof (poll_once again s o)
unfolding poll_once detach
poll_once-Bounded again s (c, ok (NextEvent.event (Event.body_data part))) k left same calm =
    k _ left same
poll_once-Bounded again s (c, ok (NextEvent.event (Event.request head))) k left same calm =
    k _ left same
poll_once-Bounded again s (c, ok (NextEvent.event (Event.informational_response head))) k left same
      calm =
    k _ left same
poll_once-Bounded again s (c, ok (NextEvent.event (Event.response head))) k left same calm =
    k _ left same
poll_once-Bounded again s (c, ok (NextEvent.event (Event.end_of_message end))) k left same calm =
    k _ left same
poll_once-Bounded again s (c, ok (NextEvent.event Event.connection_closed)) k left same calm =
    record { bounded = (left, same) }
poll_once-Bounded again s (c, ok NextEvent.need_data) k left same calm = record {
  bounded = (left, same);
}
poll_once-Bounded again s (c, ok NextEvent.paused) k left same calm = record {
  bounded = (left, same);
}
poll_once-Bounded again s (c, err (failed e)) k left same calm = record { bounded = tt }
poll_once-Bounded again s (c, err (panicked message)) k left same calm =
    absurd (ground (arith, calm.calm))

-- If `httparse` ends a head within the bytes given and behind the first, and takes only tokens for methods,
-- then a budget above the weight of the connection is never used up: the loop does not panic, and unless
-- it ends in an error it leaves a connection of no more weight, with the same mark for the end of the
-- input.
pub poll-Bounded :
    (httparse : HeadParser) (budget : ℕ) (s : Drained)
    → Documented httparse
    → weight s.connection < budget
    → Bounded (weight s.connection) s.connection.eof (poll httparse budget s)
unfolding poll
poll-Bounded httparse zero s w lt = absurd (omega (arith, lt))
poll-Bounded httparse (suc budget) s w lt =
    poll_once-Bounded (λ t. poll httparse budget t) s (next_event httparse s.connection)
      (λ t left same.
        wider (poll httparse budget t) (omega (arith, left)) same
          (poll-Bounded httparse budget t w (omega (arith, left, lt))))
      (next_event-left httparse s.connection w.0)
      (ap (λ p. p.1.1.0) (next_event-Untouched httparse s.connection).same)
      (next_event-Calm httparse s.connection w.1)
