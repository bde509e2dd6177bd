-- ===== src/Fuzz/Bounded.antt =====
-- fuzz/fuzz_targets/h11r_fragmentation.rs: no run uses up its budget.
use h11r.Prelude.{
  is_ok, ℕ, zero, suc, ◌+◌, ◌*◌, ◌≤◌, ◌<◌, ◌≡◌, refl, arith, Bool, true, false, ◌&&◌, List, [], ◌∷◌,
  Bytes, length, drop, Result, ok, err, on_ok, Bool-cases, inl, inr, Option, length-take,
  length-drop,
}
use h11r.State
use h11r.State.{Role, client, server, peer, State, state_eq, ConnectionState, disable_keep_alive}
use h11r.State.Bodies.{disable_keep_alive_opens}
use h11r.Connection.{Connection}
use h11r.Connection.Receive.{record_eof, receive_data}
use h11r.Connection.Receive.Progress.{weight, state_weight}
use h11r.Fuzz.{Panic, Terminal, complete, error, Drained, connection, poll}
use h11r.Fuzz.Polls.{Bounded, wider, poll-Bounded}
use h11r.Fuzz.Start.{Opens, connection-Opens}
use h11r.Fuzz.Runs.{
  budget, chunks_of, chunks, Delivery, started, receive, deliver, deliver_eof, delivered,
}
use h11r.Wire.Buffer.Queue.{length-extend}
use h11r.Wire.Number.{usize_max}
use h11r.Wire.Parse.{HeadParser}
use h11r.Wire.Parse.Calm.{Documented}

disabled-weight :
    (r : Role) (c : ConnectionState)
    → state_weight (State.state (disable_keep_alive c) r) ≤ state_weight (State.state c r)
disabled-weight r c =
    elim (Bool-cases (state_eq (State.state (disable_keep_alive c) r) State.send_body)) [
      | inl opened ↦ let was = disable_keep_alive_opens r c opened in rw (opened, was) (omega arith)
      | inr other ↦ rw other (omega arith)
    ]

-- The connection of a delivery, with a bound on what it has to do.
abbrev pub GivenWithin : ℕ → Bool → Result Panic Drained → Type 0
GivenWithin n eof (ok s) = (weight s.connection ≤ n) × (s.connection.eof ≡ eof)
GivenWithin n eof (err _) = ⊥

pub record Given (n : ℕ) (eof : Bool) (r : Result Panic Drained) : Type 0 where
  pub given : GivenWithin n eof r

pub receive-Given :
    (s : Drained) (chunk : Bytes)
    → s.connection.eof ≡ false
    → 1 ≤ length chunk
    → Given (weight s.connection + 2 * length chunk) false (receive s chunk)
unfolding receive receive_data
receive-Given s [] no_eof le = absurd (omega (arith, le))
receive-Given s (b ∷ bs) no_eof le =
    rw no_eof (record { given = (omega (arith, length-extend s.connection.input (b ∷ bs)), refl) })

pub receive_eof-Given : (s : Drained) → Given (weight s.connection) true (receive s [])
unfolding receive receive_data record_eof
receive_eof-Given s =
    rw (never s.connection.eof) (record { given = (by_role s.connection.role refl, refl) })
  where
    never : (b : Bool) → (b && false) ≡ false
    never b = ground arith

    by_role :
        (r : Role) → s.connection.role ≡ r → weight (record_eof s.connection) ≤ weight s.connection
    by_role client e = rw e (omega (arith, disabled-weight (peer client) s.connection.state))
    by_role server e = rw e (omega arith)

module _ {B : Type 0} (P : Result Panic B → Type 0) where
  -- What follows a delivery.
  pub given_then :
      {m : ℕ} {eof : Bool} (r : Result Panic Drained) (next : Drained → Result Panic B)
      → Given m eof r
      → ((s : Drained) → weight s.connection ≤ m → s.connection.eof ≡ eof → P (next s))
      → P (on_ok r next)
  given_then (ok s) next g k = k s g.given.0 g.given.1
  given_then (err e) next g k = absurd (g.given)

  -- What follows a poll.
  pub polled_then :
      {m : ℕ} {eof : Bool} (r : Result Panic (Drained × Terminal))
      (next : Drained × Terminal → Result Panic B)
      → Bounded m eof r
      → ((s : Drained) (status : Option ℕ) → P (next (s, error status)))
      → ((s : Drained) → weight s.connection ≤ m → s.connection.eof ≡ eof → P (next (s, complete)))
      → P (on_ok r next)
  polled_then (ok (s, complete)) next b k l = l s b.bounded.0 b.bounded.1
  polled_then (ok (s, error status)) next b k l = k s status
  polled_then (err p) next b k l = absurd (b.bounded)

abbrev total : List Bytes → ℕ
total [] = 0
total (chunk ∷ rest) = length chunk + total rest

abbrev NoneEmpty : List Bytes → Type 0
NoneEmpty [] = Unit
NoneEmpty (chunk ∷ rest) = (1 ≤ length chunk) × NoneEmpty rest

-- The chunks are not empty, and have no more bytes than the wire.
chunks_of_lem :
    (fuel size : ℕ) (bytes : Bytes)
    → 1 ≤ size
    → NoneEmpty (chunks_of fuel size bytes) × (total (chunks_of fuel size bytes) ≤ length bytes)
unfolding chunks_of
chunks_of_lem zero size bytes le = (tt, omega arith)
chunks_of_lem (suc fuel) size [] le = (tt, omega arith)
chunks_of_lem (suc fuel) size (b ∷ bs) le =
    let (full, within) = chunks_of_lem fuel size (drop size (b ∷ bs)) le in
    let taken = length-take size (b ∷ bs) in
    let dropped = length-drop size (b ∷ bs) in
    ((omega (arith, taken, le), full), omega (arith, taken, dropped, within))

-- A way to deliver a chunk that adds no more to do than its bytes.
abbrev pub Gives : Delivery → Type 0
Gives give =
    (s : Drained) (chunk : Bytes)
    → s.connection.eof ≡ false
    → 1 ≤ length chunk
    → Given (weight s.connection + 2 * length chunk) false (give s chunk)

module _ (httparse : HeadParser) (w : Documented httparse) (limit : ℕ) where
  poll_within :
      {n : ℕ} {eof : Bool} (s : Drained)
      → weight s.connection ≤ n
      → n < limit
      → s.connection.eof ≡ eof
      → Bounded n eof (poll httparse limit s)
  poll_within s le lt same =
      wider (poll httparse limit s) le same
        (poll-Bounded httparse limit s w (omega (arith, le, lt)))

  deliver-Bounded :
      (give : Delivery) (gives : Gives give) (s : Drained) (rest : List Bytes) (n : ℕ)
      → NoneEmpty rest
      → weight s.connection + 2 * total rest ≤ n
      → n < limit
      → s.connection.eof ≡ false
      → Bounded n false (deliver httparse give limit (s, complete) rest)
  unfolding deliver
  deliver-Bounded give gives s [] n full le lt no_eof = record {
    bounded = (omega (arith, le), no_eof);
  }
  deliver-Bounded give gives s (chunk ∷ rest) n (some_bytes, full) le lt no_eof =
      given_then (Bounded n false) (give s chunk) _ (gives s chunk no_eof some_bytes)
        (λ given le_given given_eof.
          polled_then (Bounded n false) (poll httparse limit given) _
            (poll_within given le_given (omega (arith, le, lt)) given_eof)
            (λ t status. record { bounded = tt })
            (λ t le_t t_eof.
              deliver-Bounded give gives t rest n full (omega (arith, le_t, le)) lt t_eof))

  deliver_eof-Bounded :
      (s : Drained) (n : ℕ)
      → weight s.connection ≤ n
      → n < limit
      → s.connection.eof ≡ false
      → Bounded n true (deliver_eof httparse limit (s, complete))
  unfolding deliver_eof
  deliver_eof-Bounded s n le lt no_eof =
      given_then (Bounded n true) (receive s []) _ (receive_eof-Given s)
        (λ given le_given given_eof. poll_within given (omega (arith, le_given, le)) lt given_eof)

pub opened_then :
    {B : Type 0} (r : Result Panic Connection) (next : Connection → Result Panic B)
    → Opens r
    → ((c : Connection) → weight c ≡ 0 → c.eof ≡ false → is_ok (next c) ≡ true)
    → is_ok (on_ok r next) ≡ true
opened_then (ok c) next st k = k c st.started.0 st.started.1
opened_then (err e) next st k = absurd (st.started)

abbrev pub Returns : {B : Type 0} → Result Panic B → Type 0
Returns r = is_ok r ≡ true

Bounded-Returns :
    {n : ℕ} {eof : Bool} (r : Result Panic (Drained × Terminal)) → Bounded n eof r → Returns r
Bounded-Returns (ok a) b = refl
Bounded-Returns (err p) b = absurd (b.bounded)

pub on_ok-Returns :
    {A B : Type 0} (r : Result Panic A) (next : A → B)
    → Returns r
    → Returns (on_ok r (λ a. ok (next a)))
on_ok-Returns (ok a) next h = refl
on_ok-Returns (err p) next h = h

pub delivered-Returns :
    (httparse : HeadParser) (give : Delivery) (role : Role) (control : ℕ) (wire : Bytes)
    (chunk_size : ℕ)
    → Documented httparse
    → Gives give
    → 1 ≤ chunk_size
    → 2 * length wire + 32 ≤ usize_max
    → Returns (delivered httparse give role control wire chunk_size)
unfolding delivered chunks
delivered-Returns httparse give role control wire chunk_size w gives le fits =
    opened_then (connection role control) _ (connection-Opens role control) (λ c idle no_eof.
      polled_then Returns
        (deliver httparse give (budget wire) (started c, complete)
          (chunks_of (length wire) chunk_size wire))
        _
        (deliver-Bounded httparse w (budget wire) give gives (started c)
          (chunks_of (length wire) chunk_size wire) (2 * length wire) full
          (omega (arith, idle, within)) enough no_eof)
        (λ s status. unfold deliver_eof in refl)
        (λ s le_s s_eof.
          Bounded-Returns (deliver_eof httparse (budget wire) (s, complete))
            (deliver_eof-Bounded httparse w (budget wire) s (2 * length wire) le_s enough s_eof)))
  where
    full : NoneEmpty (chunks_of (length wire) chunk_size wire)
    full = (chunks_of_lem (length wire) chunk_size wire le).0

    within : total (chunks_of (length wire) chunk_size wire) ≤ length wire
    within = (chunks_of_lem (length wire) chunk_size wire le).1

    enough : 2 * length wire < budget wire
    enough = omega (arith, fits)
