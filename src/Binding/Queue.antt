-- ===== src/Binding/Queue.antt =====
-- crates/h11r-python/src/api/connection.rs: the objects held are the bytes that the core counts.
use h11r.Prelude.{
  ℕ, ◌+◌, ◌≤◌, ◌≡◌, refl, ap, subst, arith, Bool, true, false, List, [], ◌∷◌, ◌++◌, Bytes, length,
  Result, ok, err, on_ok, map_err, is_ok,
}
use h11r.Connection.{Connection}
use h11r.Connection.Sound.{Sound, next_event_in_place-Sound}
use h11r.Connection.Receive.Payload.{hold_body_data, next_event_in_place}
use h11r.Connection.Receive.Held.{next_event_in_place-HeldFits}
use h11r.Wire.Parse.{HeadParser}
use h11r.Binding.Buffers.{local_error}
use h11r.Binding.Events.{data_to_py}
use h11r.Binding.Connection.{PyConnection, pop_held, next_event}

-- The bytes of the objects held.
abbrev pub total : List Bytes → ℕ
total [] = 0
total (bytes ∷ rest) = length bytes + total rest

abbrev pub AllSome : List Bytes → Type 0
AllSome [] = Unit
AllSome (bytes ∷ rest) = (1 ≤ length bytes) × AllSome rest

-- The objects held are the bytes that the core holds, and none of them is empty.
pub record Ready (c : PyConnection) : Type 0 where
  pub sound : Sound c.core
  pub counted : total c.queue ≡ c.core.held
  pub some_bytes : AllSome c.queue

pub total-append :
    (xs : List Bytes) (bytes : Bytes) → total (xs ++ bytes ∷ []) ≡ total xs + length bytes
total-append [] bytes = omega arith
total-append (x ∷ xs) bytes = omega (arith, total-append xs bytes)

pub AllSome-append :
    (xs : List Bytes) (bytes : Bytes) → AllSome xs → 1 ≤ length bytes → AllSome (xs ++ bytes ∷ [])
AllSome-append [] bytes h le = (le, tt)
AllSome-append (x ∷ xs) bytes (first, rest) le = (first, AllSome-append xs bytes rest le)

-- A call that takes bytes counts them, and takes no empty object.
pub held_counts :
    (c : Connection) (count : ℕ)
    → (hold_body_data c count).1 ≡ true
    → ((hold_body_data c count).0.held ≡ c.held + count) × (1 ≤ count)
unfolding hold_body_data
held_counts c count h = (rw h refl, ground (arith, h))

pub refused_held :
    (c : Connection) (count : ℕ)
    → (hold_body_data c count).1 ≡ false
    → (hold_body_data c count).0 ≡ c
unfolding hold_body_data
refused_held c count h = rw h refl

is_ok-some : {E A : Type 0} (r : Result E A) → is_ok r ≡ true → (a : A) × (r ≡ ok a)
is_ok-some (ok a) h = (a, refl)
is_ok-some (err e) h = absurd (ground arith)

pop_held-Ready :
    (core : Connection) (bytes : Bytes) (rest : List Bytes)
    → Ready (record { core = core; queue = bytes ∷ rest })
    → ((flags : Bool × Bool) × ((pop_held (record { core = core; queue = rest }) bytes).1
          ≡ ok (data_to_py bytes flags.0 flags.1)))
      × Ready (pop_held (record { core = core; queue = rest }) bytes).0
unfolding pop_held
pop_held-Ready core bytes rest h =
    let (some_first, some_rest) = h.some_bytes in
    let enough : length bytes ≤ core.held = omega (arith, h.counted) in
    let (taken, left, _) =
      next_event_in_place-HeldFits core (length bytes) h.sound.held_fits some_first enough in
    let (flags, found) = is_ok-some (next_event_in_place core (length bytes)).1 taken in
    (
      (flags, ap (λ r. on_ok (map_err local_error r) (λ f. ok (data_to_py bytes f.0 f.1))) found),
      record {
        sound = next_event_in_place-Sound core (length bytes) h.sound;
        counted = omega (arith, h.counted, left);
        some_bytes = some_rest;
      },
    )

-- If the queue is not empty, a poll returns the oldest object held as the data of an event, and
-- takes it off the queue; no bytes of it are lost or parsed again.
pub next_event-held :
    (httparse : HeadParser) (c : PyConnection) (bytes : Bytes) (rest : List Bytes)
    → Ready c
    → c.queue ≡ bytes ∷ rest
    → ((flags : Bool × Bool) × ((next_event httparse c).1 ≡ ok (data_to_py bytes flags.0 flags.1)))
      × ((next_event httparse c).0.queue ≡ rest)
      × Ready (next_event httparse c).0
unfolding next_event
next_event-held httparse c bytes rest h e = rw e (
    let (returned, ready) =
      pop_held-Ready c.core bytes rest (subst (λ q. Ready (record c { queue = q })) e h) in
    (returned, refl, ready))
