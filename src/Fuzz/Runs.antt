-- ===== src/Fuzz/Runs.antt =====
-- fuzz/fuzz_targets/h11r_fragmentation.rs, fuzz/fuzz_targets/h11r_receive.rs: how the wire is delivered.
use h11r.Prelude.{
  ℕ, zero, suc, ◌+◌, ◌*◌, min, List, [], ◌∷◌, Bytes, length, take, drop, is_empty, if◌then◌else◌,
  Result, ok, ◌==◌, on_ok, ◌++◌,
}
use Prim.Native.Nat.{bit_and}
use h11r.State.{Role, client, server}
use h11r.Connection.{Connection}
use h11r.Connection.Receive.{receive_data}
use h11r.Connection.Receive.Payload.{hold_body_data, next_event_in_place}
use h11r.Fuzz.{
  Panic, unwrap_call, max_events, seed_wire, connection, Terminal, complete, error, Outcome,
  Drained, poll, finish,
}
use h11r.Wire.Number.{usize_max}
use h11r.Wire.Parse.{HeadParser}

-- `saturating_mul(2).saturating_add(MAX_EVENTS)`
abbrev pub budget : Bytes → ℕ
budget wire = min (min (length wire * 2) usize_max + max_events) usize_max

unfoldable pub chunks_of : ℕ → ℕ → Bytes → List Bytes
chunks_of zero size bytes = []
chunks_of (suc fuel) size bytes =
    let rest = chunks_of fuel size (drop size bytes) in
    if is_empty bytes then [] else take size bytes ∷ rest

-- `[T]::chunks`, for a size that is not zero
unfoldable pub chunks : ℕ → Bytes → List Bytes
unfolding chunks_of
chunks size bytes = chunks_of (length bytes) size bytes

abbrev pub Delivery : Type 0
Delivery = Drained → Bytes → Result Panic Drained

abbrev pub started : Connection → Drained
started c = record { connection = c; events = []; body = [] }

-- `connection.receive_data(chunk).unwrap()`
unfoldable pub receive : Delivery
receive s chunk =
    on_ok (unwrap_call (receive_data s.connection chunk)) (λ c. ok (record s { connection = c }))

-- A read that lies within body payload is held, and handed over by count.
unfoldable pub hold : Delivery
unfolding receive
hold s chunk =
    let (c, held) = hold_body_data s.connection (length chunk) in
    if held
    then on_ok (unwrap_call (next_event_in_place c (length chunk)))
        (λ d. ok (record s { connection = d; body = s.body ++ chunk }))
    else receive (record s { connection = c }) chunk

-- The loop over the chunks, and its `break`.
unfoldable pub deliver :
    HeadParser → Delivery → ℕ → Drained × Terminal → List Bytes → Result Panic (Drained × Terminal)
deliver httparse give limit (s, t) [] = ok (s, t)
deliver httparse give limit (s, t) (chunk ∷ rest) = on_ok (give s chunk) (λ given.
    on_ok (poll httparse limit given) (λ polled. elim polled.1 [
      | error status ↦ ok polled
      | complete ↦ deliver httparse give limit polled rest
    ]))

-- The end of the input, unless an error ended the run.
unfoldable pub deliver_eof : HeadParser → ℕ → Drained × Terminal → Result Panic (Drained × Terminal)
unfolding receive
deliver_eof httparse limit (s, complete) = on_ok (receive s []) (λ given. poll httparse limit given)
deliver_eof httparse limit (s, error status) = ok (s, error status)

-- The wire in its chunks, then the end of the input.
unfoldable pub delivered :
    HeadParser → Delivery → Role → ℕ → Bytes → ℕ → Result Panic (Drained × Terminal)
unfolding deliver deliver_eof
delivered httparse give role control wire chunk_size = on_ok (connection role control) (λ c.
    on_ok (deliver httparse give (budget wire) (started c, complete) (chunks chunk_size wire))
      (λ before. deliver_eof httparse (budget wire) before))

unfoldable pub run_by : HeadParser → Delivery → Role → ℕ → Bytes → ℕ → Result Panic Outcome
unfolding delivered
run_by httparse give role control wire chunk_size =
    on_ok (delivered httparse give role control wire chunk_size) (λ (s, t). ok (finish s t))

unfoldable pub run : HeadParser → Role → ℕ → Bytes → ℕ → Result Panic Outcome
unfolding run_by
run httparse role control wire chunk_size = run_by httparse receive role control wire chunk_size

unfoldable pub run_holding : HeadParser → Role → ℕ → Bytes → ℕ → Result Panic Outcome
unfolding run_by
run_holding httparse role control wire chunk_size =
    run_by httparse hold role control wire chunk_size

-- Every byte and the end of the input before the first poll.
unfoldable pub run_eof_first : HeadParser → Role → ℕ → Bytes → Result Panic Outcome
run_eof_first httparse role control wire = on_ok (connection role control) (λ c.
    on_ok (receive (started c) wire) (λ given.
      on_ok (receive given [])
        (λ ended. on_ok (poll httparse (budget wire) ended) (λ (s, t). ok (finish s t)))))

abbrev pub role_of : ℕ → Role
role_of control = if bit_and control 64 == 0 then server else client

abbrev pub wire_of : ℕ → Bytes → Bytes
wire_of control given = if is_empty given then seed_wire (role_of control) control else given

-- The fuzz target of h11r_receive.rs, on its input.
unfoldable pub receive_target : HeadParser → Bytes → Result Panic (Unit {0})
unfolding delivered
receive_target httparse [] = ok tt
receive_target httparse (control ∷ given) =
    on_ok
      (delivered httparse receive (role_of control) control (wire_of control given)
        (bit_and control 31 + 1))
      (λ _. ok tt)
