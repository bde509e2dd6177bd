-- ===== src/Fuzz/Returns.antt =====
-- fuzz/fuzz_targets/h11r_fragmentation.rs: every run returns.
use h11r.Prelude.{
  is_ok, ℕ, ◌+◌, ◌*◌, ◌≤◌, ◌≡◌, refl, arith, Bool, true, false, [], ◌∷◌, Bytes, length, ◌==◌,
  if◌then◌else◌, ok, on_ok,
}
use h11r.State.{Role, client, server}
use h11r.Connection.Receive.Progress.{weight}
use Prim.Native.Nat.{bit_and}
use h11r.Fuzz.{client_wire, server_wire, seed_wire, Drained, connection, poll, finish}
use h11r.Fuzz.Bounded.{
  Returns, given_then, polled_then, opened_then, receive-Given, receive_eof-Given, on_ok-Returns,
  delivered-Returns,
}
use h11r.Fuzz.Holding.{hold-Given}
use h11r.Fuzz.Polls.{poll-Bounded}
use h11r.Fuzz.Start.{connection-Opens}
use h11r.Fuzz.Runs.{
  budget, started, receive, hold, run_by, run, run_holding, run_eof_first, receive_target, role_of,
  wire_of,
}
use h11r.Wire.Number.{usize_max}
use h11r.Wire.Parse.{HeadParser}
use h11r.Wire.Parse.Calm.{Documented}

module _ (httparse : HeadParser) (w : Documented httparse) (wire : Bytes) where
  -- The last poll of a run.
  last_Returns :
      (s : Drained)
      → 2 * length wire + 32 ≤ usize_max
      → weight s.connection ≤ 2 * length wire
      → Returns (
          on_ok (receive s []) (λ ended.
            on_ok (poll httparse (budget wire) ended) (λ (t, terminal). ok (finish t terminal))))
  last_Returns s fits le =
      given_then Returns (receive s []) _ (receive_eof-Given s) (λ ended le_ended ended_eof.
        polled_then Returns (poll httparse (budget wire) ended) _
          (poll-Bounded httparse (budget wire) ended w (omega (arith, le_ended, le, fits)))
          (λ t status. refl) (λ t le_t t_eof. refl))

eof_first-Returns :
    (httparse : HeadParser) (role : Role) (control : ℕ) (wire : Bytes)
    → Documented httparse
    → 2 * length wire + 32 ≤ usize_max
    → Returns (run_eof_first httparse role control wire)
unfolding run_eof_first
eof_first-Returns httparse role control [] w fits =
    opened_then (connection role control) _ (connection-Opens role control) (λ c idle no_eof.
      given_then Returns (receive (started c) []) _ (receive_eof-Given (started c))
        (λ given le_given given_eof.
          last_Returns httparse w [] given fits (omega (arith, le_given, idle))))
eof_first-Returns httparse role control (b ∷ bs) w fits =
    opened_then (connection role control) _ (connection-Opens role control) (λ c idle no_eof.
      given_then Returns (receive (started c) (b ∷ bs)) _
        (receive-Given (started c) (b ∷ bs) no_eof (omega arith))
        (λ given le_given given_eof.
          last_Returns httparse w (b ∷ bs) given fits (omega (arith, le_given, idle))))

short-wire : (wire : Bytes) → length wire ≤ 1000 → 2 * length wire + 32 ≤ usize_max
short-wire wire le = omega (arith, le)

if_short :
    (b : Bool) (x y : Bytes)
    → length x ≤ 1000
    → length y ≤ 1000
    → length (if b then x else y) ≤ 1000
if_short true x y h k = h
if_short false x y h k = k

seed_wire-short : (role : Role) (control : ℕ) → length (seed_wire role control) ≤ 1000
unfolding seed_wire client_wire server_wire
seed_wire-short client control = if_short (bit_and control 3 == 1) _ _ (omega arith) (
    if_short (bit_and control 3 == 2) _ _ (omega arith)
      (if_short (bit_and control 3 == 3) _ _ (omega arith) (omega arith)))
seed_wire-short server control = if_short (bit_and control 3 == 1) _ _ (omega arith) (
    if_short (bit_and control 3 == 2) _ _ (omega arith)
      (if_short (bit_and control 3 == 3) _ _ (omega arith) (omega arith)))

wire_of-short :
    (control : ℕ) (given : Bytes)
    → 2 * length given + 32 ≤ usize_max
    → 2 * length (wire_of control given) + 32 ≤ usize_max
wire_of-short control [] fits =
    short-wire (seed_wire (role_of control) control) (seed_wire-short (role_of control) control)
wire_of-short control (b ∷ bs) fits = fits

receive_target-Returns :
    (httparse : HeadParser) (control : ℕ) (given : Bytes)
    → Documented httparse
    → 2 * length given + 32 ≤ usize_max
    → Returns (receive_target httparse (control ∷ given))
unfolding receive_target
receive_target-Returns httparse control given w fits =
    on_ok-Returns _ (λ _. tt)
      (delivered-Returns httparse receive (role_of control) control (wire_of control given)
        (bit_and control 31 + 1) w receive-Given (omega arith) (wire_of-short control given fits))

-- However the wire is cut: a run that receives each read, a run that holds each read within body payload, and
-- a run that receives every byte and the end of the input first, return an outcome, and the target that
-- polls and checks nothing else returns. Each `unwrap` is of a success and no budget is used up, if
-- `httparse` ends a head within the bytes given and behind the first and takes only tokens for methods,
-- the chunks are not empty, and the wire is short enough for its budget to be a `usize`.
pub runs_return :
    (httparse : HeadParser) (role : Role) (control : ℕ) (wire : Bytes) (chunk_size : ℕ)
    → Documented httparse
    → 1 ≤ chunk_size
    → 2 * length wire + 32 ≤ usize_max
    → (is_ok (run httparse role control wire chunk_size) ≡ true)
      × (is_ok (run_holding httparse role control wire chunk_size) ≡ true)
      × (is_ok (run_eof_first httparse role control wire) ≡ true)
      × (is_ok (receive_target httparse (control ∷ wire)) ≡ true)
unfolding run run_holding run_by
runs_return httparse role control wire chunk_size w le fits = (
  on_ok-Returns _ _
      (delivered-Returns httparse receive role control wire chunk_size w receive-Given le fits),
  on_ok-Returns _ _
      (delivered-Returns httparse hold role control wire chunk_size w hold-Given le fits),
  eof_first-Returns httparse role control wire w fits,
  receive_target-Returns httparse control wire w fits,
)
