-- ===== src/Binding/Raises.antt =====
-- crates/h11r-python/src/api/connection.rs: what a poll raises, and what it leaves.
use h11r.Prelude.{◌≡◌, refl, ap, sym, ◌∙◌, subst, arith, false, none, List, [], ◌∷◌, Bytes, ok, err}
use h11r.State.{State}
use h11r.Connection.{Connection, Outcome, peer_state}
use h11r.Events.{NextEvent}
use h11r.Connection.Later.{now}
use h11r.Connection.Receive.Events.{hide_status}
use h11r.Connection.Receive.Events as Polling
use h11r.Connection.Receive.Fuel.Calm.{next_event-Calm}
use h11r.Connection.Receive.Poison.{next_event-poisons}
use h11r.Wire.Errors.{RemoteProtocolError, remote}
use h11r.Wire.Parse.{HeadParser, Failure, failed, panicked}
use h11r.Wire.Parse.Calm.{ValidMethods, Calm}
use h11r.Binding.Python.{PyErr}
use h11r.Binding.Events.{remote_error}
use h11r.Binding.Connection.{PyConnection, to_py, next_event}
use h11r.Binding.Queue.{Ready, next_event-held}
use h11r.Binding.Ready.{to_py-core}

-- Without a panic, an exception is an error of the core.
to_py-raises :
    (o : Outcome Failure NextEvent) (e : PyErr)
    → Calm o.1
    → (to_py o).1 ≡ err e
    → (error : RemoteProtocolError) × (o.1 ≡ err (failed error)) × (e ≡ remote_error error)
to_py-raises (c, ok NextEvent.need_data) e calm h = absurd (cc)
to_py-raises (c, ok NextEvent.paused) e calm h = absurd (cc)
to_py-raises (c, ok (NextEvent.event event)) e calm h = absurd (cc)
to_py-raises (c, err (failed error)) e calm h = (error, refl, cc)
to_py-raises (c, err (panicked message)) e calm h = absurd (ground (arith, calm.calm))

-- With no object held, a poll is that of the core.
next_event-empty :
    (httparse : HeadParser) (c : PyConnection)
    → c.queue ≡ []
    → ((next_event httparse c).1 ≡ (to_py (Polling.next_event httparse c.core)).1)
      × ((next_event httparse c).0.queue ≡ [])
      × ((next_event httparse c).0.core ≡ (Polling.next_event httparse c.core).0)
unfolding next_event
next_event-empty httparse c h = rw h (refl, refl, to_py-core (Polling.next_event httparse c.core))

to_py-failed :
    (o : Outcome Failure NextEvent) (error : RemoteProtocolError)
    → o.1 ≡ err (failed error)
    → (to_py o).1 ≡ err (remote_error error)
to_py-failed (c, ok NextEvent.need_data) error h = absurd (cc)
to_py-failed (c, ok NextEvent.paused) error h = absurd (cc)
to_py-failed (c, ok (NextEvent.event event)) error h = absurd (cc)
to_py-failed (c, err (failed e)) error h = ap (λ x. err (remote_error x)) (cc)
to_py-failed (c, err (panicked message)) error h = absurd (cc)

abbrev pub in_error : Connection → RemoteProtocolError
in_error core = hide_status core (remote "peer state is ERROR" none)

-- On an object whose queue and core agree, and if `httparse` takes only tokens for methods, a poll raises only
-- what the core returned as an error of the peer, as a `RemoteProtocolError` of the same message and
-- status, and only with no object queued: never an error of the caller's side, and no panic. Then the
-- peer's state is the error, keep-alive is lost, no object is queued, and the next poll raises that the
-- peer is in the error state.
pub next_event-raises :
    (httparse : HeadParser) (c : PyConnection) (e : PyErr)
    → ValidMethods httparse
    → Ready c
    → (next_event httparse c).1 ≡ err e
    → (c.queue ≡ [])
      × ((error : RemoteProtocolError) × ((Polling.next_event httparse c.core).1
            ≡ err (failed error))
          × (e ≡ remote_error error))
      × (peer_state (next_event httparse c).0.core ≡ State.error)
      × ((next_event httparse c).0.core.state.keep_alive ≡ false)
      × ((next_event httparse c).0.queue ≡ [])
      × ((next_event httparse (next_event httparse c).0).1
          ≡ err (remote_error (in_error (next_event httparse c).0.core)))
next_event-raises httparse c e valid h raised =
    let none_queued = by_queue c.queue refl in
    let (returned, left, core) = next_event-empty httparse c none_queued in
    let (error, is_error, same) =
      to_py-raises (Polling.next_event httparse c.core) e (next_event-Calm httparse c.core valid)
        (sym returned ∙ raised) in
    let (_, _, _, lasts) = next_event-poisons httparse c.core error is_error in
    let (dead, no_reuse, again) =
      subst
        (λ d.
          (peer_state d ≡ State.error)
          × (d.state.keep_alive ≡ false)
          × ((Polling.next_event httparse d).1 ≡ err (failed (in_error d))))
        (sym core) (lasts _ now) in
    (
      none_queued,
      (error, is_error, same),
      dead,
      no_reuse,
      left,
      (next_event-empty httparse after left).0
          ∙ to_py-failed (Polling.next_event httparse after.core) (in_error after.core) again,
    )
  where
    after : PyConnection
    after = (next_event httparse c).0

    by_queue : (queue : List Bytes) → c.queue ≡ queue → c.queue ≡ []
    by_queue [] empty = empty
    by_queue (bytes ∷ rest) queued =
        let ((flags, returned), _, _) = next_event-held httparse c bytes rest h queued in
        absurd (cc)
