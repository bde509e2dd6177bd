-- ===== src/Binding/Ready.antt =====
-- crates/h11r-python/src/api/connection.rs: the queue behind what a `Connection` object receives.
use h11r.Prelude.{
  ℕ, ◌≡◌, refl, ap, sym, ◌∙◌, subst, arith, inl, inr, Bool, true, false, not, ◌&&◌, Option, none,
  some, List, [], ◌∷◌, ◌++◌, Bytes, length, Bool-cases, is_empty, Result, ok, err, map_err,
  if◌then◌else◌, on_ok,
}
use h11r.State.Invariant.{Reach}
use h11r.State.{Role, peer, state_eq, State}
use h11r.Events.{NextEvent, Limits, InvalidLimits, new_limits}
use h11r.Connection as Core
use h11r.Connection.{Connection, Outcome, is_client, peer_state}
use h11r.Connection.Frame.{and_then-kept, attempt-kept, if-kept, choice-kept}
use h11r.Connection.Keeps.{Keeps, Keeps-self}
use h11r.Connection.Sound.{
  Sound, Keeps-Sound, receive_data-Sound, hold_body_data-Sound, next_event-Sound,
}
use h11r.Connection.Receive as Receive
use h11r.Connection.Receive.Payload.{hold_body_data}
use h11r.Connection.Receive.Events as Polling
use h11r.Connection.Receive.Untouched.Poll.{next_event-Untouched}
use h11r.Wire.Buffer.{as_slice}
use h11r.Wire.Errors.{LocalProtocolError}
use h11r.Wire.Parse.{HeadParser, Failure, failed, panicked}
use h11r.Binding.Python.{PyErr, PyResult, Python}
use h11r.Binding.Buffers.{with_buffer, raising, framed}
use h11r.Binding.Events.{PyRole, role_from}
use h11r.Binding.Connection.{
  PyConnection, PyOutcome, on_core, reading, new, to_py, next_event, copy_in, hold, receive_data,
}
use h11r.Binding.Queue.{
  Ready, total-append, AllSome-append, held_counts, refused_held, next_event-held,
}

-- The core moves on, with as many bytes held.
pub Ready-core :
    {c : PyConnection} (d : Connection)
    → Sound d
    → d.held ≡ c.core.held
    → Ready c
    → Ready (record c { core = d })
Ready-core d sound held h = record {
  sound = sound;
  counted = h.counted ∙ sym held;
  some_bytes = h.some_bytes;
}

pub Ready-Keeps :
    {c : PyConnection} {d : Connection} → Keeps c.core d → Ready c → Ready (record c { core = d })
Ready-Keeps {c} {d} k h = Ready-core d (Keeps-Sound k h.sound) (sym (ap (λ x. x.held) k.kept)) h

-- A step that reads its arguments first.
pub reading-Ready :
    {A B : Type 0} {c : PyConnection} (r : PyResult A) (next : A → PyOutcome B)
    → Ready c
    → ((a : A) → Ready (next a).0)
    → Ready (reading c r next).0
reading-Ready (ok a) next h k = k a
reading-Ready (err e) next h k = h

pub on_core-Ready :
    {A : Type 0} {c : PyConnection} (o : Outcome PyErr A)
    → Keeps c.core o.0
    → Ready c
    → Ready (on_core c o).0
on_core-Ready (d, r) k h = Ready-Keeps k h

pub raising-Keeps :
    {A : Type 0} {c : Connection} (o : Outcome LocalProtocolError A)
    → Keeps c o.0
    → Keeps c (raising o).0
raising-Keeps (d, r) k = k

pub framed-Keeps :
    (py : Python) (c : Connection) (value : py.Object)
    (framing : Connection → ℕ → Outcome LocalProtocolError (Bytes × Bytes))
    → ((size : ℕ) → Keeps c (framing c size).0)
    → Keeps c (framed py c value framing).0
unfolding framed
framed-Keeps py c value framing k =
    attempt-kept (Keeps c) (with_buffer py value (λ bytes. bytes)) _ Keeps-self (λ bytes.
      and_then-kept (Keeps c) (raising (framing c (length bytes))) _
        (raising-Keeps (framing c (length bytes)) (k (length bytes))) (λ d _ h. h))

receive_data-held :
    (c : Connection) (bytes : Bytes) → (Receive.receive_data c bytes).0.held ≡ c.held
unfolding Receive.receive_data
receive_data-held c bytes =
    if-kept (λ d. d.held ≡ c.held) (c.eof && not (is_empty bytes)) _ _ refl
      (choice-kept (λ d. d.held ≡ c.held) (is_empty bytes) _ _ refl refl)

pub start_next_cycle-held : (c : Connection) → (Core.start_next_cycle c).0.held ≡ c.held
unfolding Core.start_next_cycle
start_next_cycle-held c =
    if-kept (λ d. d.held ≡ c.held)
      (is_client c.role && state_eq (peer_state c) State.done && not (is_empty (as_slice c.input)))
      _ _ refl
      (attempt-kept (λ d. d.held ≡ c.held)
        (Core.with_error _ (h11r.State.start_next_cycle c.state).1) _ refl (λ _. refl))

copy_in-Ready :
    (py : Python) (c : PyConnection) (value : py.Object) → Ready c → Ready (copy_in py c value).0
unfolding copy_in
copy_in-Ready py c value h = reading-Ready (with_buffer py value (λ bytes. bytes)) _ h (λ bytes.
    Ready-core (Receive.receive_data c.core bytes).0 (receive_data-Sound c.core bytes h.sound)
      (receive_data-held c.core bytes) h)

-- An object that the core takes is queued behind the others.
queued-Ready :
    (c : PyConnection) (bytes : Bytes)
    → (hold_body_data c.core (length bytes)).1 ≡ true
    → Ready c
    → Ready
        (record { core = (hold_body_data c.core (length bytes)).0; queue = c.queue ++ bytes ∷ [] })
queued-Ready c bytes taken h =
    let (counts, some_bytes) = held_counts c.core (length bytes) taken in
    record {
      sound = hold_body_data-Sound c.core (length bytes) h.sound;
      counted = omega (arith, h.counted, counts, total-append c.queue bytes);
      some_bytes = AllSome-append c.queue bytes h.some_bytes some_bytes;
    }

hold-Ready :
    (py : Python) (c : PyConnection) (value : py.Object) (bytes : Bytes)
    → Ready c
    → Ready (hold py c value bytes).0
unfolding hold
hold-Ready py c value bytes h = elim (Bool-cases (hold_body_data c.core (length bytes)).1) [
  | inl taken ↦ rw taken (queued-Ready c bytes taken h)
  | inr refused ↦
      rw (refused, refused_held c.core (length bytes) refused) (copy_in-Ready py c value h)
]

pub receive_data-Ready :
    (py : Python) (c : PyConnection) (value : py.Object)
    → Ready c
    → Ready (receive_data py c value).0
unfolding receive_data
receive_data-Ready py c value h = by_kind (py.cast_exact_bytes value)
  where
    by_kind :
        (bytes : Option Bytes)
        → Ready
            (elim bytes as (λ _. PyOutcome (Unit {0})) [
              | some b ↦ hold py c value b
              | none ↦ copy_in py c value
            ]).0
    by_kind (some b) = hold-Ready py c value b h
    by_kind none = copy_in-Ready py c value h

pub to_py-core : (o : Outcome Failure NextEvent) → (to_py o).0 ≡ o.0
to_py-core (c, ok NextEvent.need_data) = refl
to_py-core (c, ok NextEvent.paused) = refl
to_py-core (c, ok (NextEvent.event event)) = refl
to_py-core (c, err (failed error)) = refl
to_py-core (c, err (panicked message)) = refl

-- With no object held the core is polled.
empty-Ready :
    (httparse : HeadParser) (core : Connection)
    → Ready (record { core = core; queue = [] })
    → Ready (record { core = (to_py (Polling.next_event httparse core)).0; queue = [] })
empty-Ready httparse core h =
    let none_held : core.held ≡ 0 = sym h.counted in
    subst (λ d. Ready (record { core = d; queue = [] }))
      (sym (to_py-core (Polling.next_event httparse core)))
      (Ready-core (Polling.next_event httparse core).0
        (next_event-Sound httparse core none_held h.sound)
        (ap (λ p. p.1.1.1) (next_event-Untouched httparse core).same) h)

pub next_event-Ready :
    (httparse : HeadParser) (c : PyConnection) → Ready c → Ready (next_event httparse c).0
unfolding next_event
next_event-Ready httparse c h = by_queue c.queue refl
  where
    by_queue : (queue : List Bytes) → c.queue ≡ queue → Ready (next_event httparse c).0
    by_queue [] e =
        rw e (empty-Ready httparse c.core (subst (λ q. Ready (record c { queue = q })) e h))
    by_queue (bytes ∷ rest) e =
        let (_, _, ready) = next_event-held httparse c bytes rest h e in ready

abbrev fresh_core : PyRole → Limits → Bool → Connection
fresh_core role limits lenient =
    if lenient
    then Core.lenient (Core.new (role_from role) limits)
    else Core.new (role_from role) limits

fresh-Ready :
    (role : PyRole) (limits : Limits) (lenient : Bool)
    → Ready (record { core = fresh_core role limits lenient; queue = [] })
unfolding Core.new Core.lenient
fresh-Ready role limits true = record {
  sound = record { reach = Reach.start; held_fits = inl refl };
  counted = refl;
  some_bytes = tt;
}
fresh-Ready role limits false = record {
  sound = record { reach = Reach.start; held_fits = inl refl };
  counted = refl;
  some_bytes = tt;
}

pub new-Ready :
    (role : PyRole) (head headers : ℕ) (lenient : Bool) {c : PyConnection}
    → new role head headers lenient ≡ ok c
    → Ready c
unfolding new
new-Ready role head headers lenient {c} e = by_limits (new_limits head headers) e
  where
    by_limits :
        (r : Result InvalidLimits Limits)
        → on_ok {B = PyConnection}
            (map_err (λ _. PyErr.value_error "HTTP limits must be non-zero") r)
            (λ limits. ok (record { core = fresh_core role limits lenient; queue = [] }))
          ≡ ok c
        → Ready c
    by_limits (ok limits) made =
        let same : record { core = fresh_core role limits lenient; queue = [] } ≡ c = cc in
        subst Ready same (fresh-Ready role limits lenient)
    by_limits (err e) made = absurd (cc)
