-- ===== src/Connection/Receive/Fuel.antt =====
-- crates/h11r/src/connection/receive.rs: the recursion of `next_event_inner` is three calls deep at most.
pub mod Calm
use h11r.Prelude.{
  ℕ, zero, suc, ◌+◌, ◌-◌, ◌≤◌, ◌<◌, ◌≡◌, refl, sym, ◌∙◌, arith, inl, inr, Bool, true, false, not,
  Option, none, some, Bytes, length, take, ltb, ◌==◌, bytes_eq, if◌then◌else◌, Option-cases,
}
use h11r.State.{State}
use h11r.Connection.{Connection, Outcome, require, peer_state}
use h11r.Connection.Receive.Payload.{Polled, with_reader}
use h11r.Connection.Receive.Accept.{past_section}
use h11r.Connection.Receive.Events.{
  read_size, accept_size, read_payload_end, read_chunked, read_body, poll_state, next_event_inner,
  closes_idle, consumed, event_fuel,
}
use h11r.Wire.Buffer.{Reader, size, payload, payload_end, trailers, as_slice}
use h11r.Wire.Chunked.{parse_chunk_header}
use h11r.Wire.Elements.{count_while}
use h11r.Wire.Head.{crlf}
use h11r.Wire.Section.{find_crlf}
use h11r.Wire.Target.{is_ascii_hexdigit}
use h11r.Wire.Parse.{HeadParser, Failure}

abbrev pub Poll : Type 0
Poll = Connection → Outcome Failure Polled

-- How many calls of the poll a reader may still lead to.
rank : Reader → ℕ
rank (Reader.chunked (size _)) = 1
rank (Reader.chunked payload_end) = 2
rank _ = 0

rank-le : (r : Reader) → rank r ≤ 2
unfolding rank
rank-le Reader.head = omega arith
rank-le (Reader.fixed _) = omega arith
rank-le Reader.close_delimited = omega arith
rank-le (Reader.chunked (size _)) = omega arith
rank-le (Reader.chunked (payload _ _)) = omega arith
rank-le (Reader.chunked payload_end) = omega arith
rank-le (Reader.chunked trailers) = omega arith

-- Two polls agree on the readers of a rank below `n`.
abbrev Agree : ℕ → Poll → Poll → Type 0
Agree n p q = (c : Connection) → rank c.cycle.reader < n → p c ≡ q c

require-agree :
    {A : Type 0} (c : Connection) (o : Option A) (e : Failure) (p q : A → Outcome Failure Polled)
    → ((a : A) → p a ≡ q a)
    → require c o e p ≡ require c o e q
require-agree c (some a) e p q h = h a
require-agree c none e p q h = refl

else-agree :
    (b : Bool) (o p q : Outcome Failure Polled)
    → p ≡ q
    → (if b then o else p) ≡ (if b then o else q)
else-agree true o p q h = refl
else-agree false o p q h = h

choice-agree :
    (b : Bool) (p q : Poll) (c d : Connection)
    → p c ≡ q c
    → p d ≡ q d
    → p (if b then c else d) ≡ q (if b then c else d)
choice-agree true p q c d h k = h
choice-agree false p q c d h k = k

accept_size-Agree :
    (n : ℕ) (p q : Poll) (c : Connection) (end : ℕ)
    → 1 ≤ n
    → Agree n p q
    → accept_size p c end ≡ accept_size q c end
unfolding accept_size rank
accept_size-Agree n p q c end le h = else-agree (ltb c.limits.max_head_bytes (end - 2)) _ _ _ (
    require-agree c (parse_chunk_header line) _ _ _ (λ found.
      else-agree (ltb c.limits.max_head_bytes bytes) _ _ _ (
        choice-agree (found == 0) p q
          (with_reader (past_section counted end) (Reader.chunked trailers))
          (with_reader (consumed counted end) (Reader.chunked (payload found true)))
          (h (with_reader (past_section counted end) (Reader.chunked trailers)) le)
          (h (with_reader (consumed counted end) (Reader.chunked (payload found true))) le))))
  where
    line : Bytes
    line = take (end - 2) (as_slice c.input)

    bytes : ℕ
    bytes = c.cycle.chunk_extension_bytes + (length line - count_while is_ascii_hexdigit line)

    counted : Connection
    counted = record c { cycle = record c.cycle { chunk_extension_bytes = bytes } }

size-Agree :
    (n : ℕ) (p q : Poll) (c : Connection) (scanned : ℕ)
    → 1 ≤ n
    → Agree n p q
    → read_size p c scanned ≡ read_size q c scanned
unfolding read_size
size-Agree n p q c scanned le h = elim (Option-cases (find_crlf (as_slice c.input) scanned)) [
  | inl unfinished ↦ rw (unfinished, read_size) refl
  | inr (end, line) ↦ rw (line, read_size) (accept_size-Agree n p q c end le h)
]

body-Agree :
    (httparse : HeadParser) (n : ℕ) (p q : Poll) (c : Connection) (r : Reader)
    → rank r ≤ n
    → Agree n p q
    → read_body httparse p c r ≡ read_body httparse q c r
unfolding read_body read_chunked read_payload_end rank
body-Agree httparse n p q c Reader.head le h = refl
body-Agree httparse n p q c (Reader.fixed zero) le h = refl
body-Agree httparse n p q c (Reader.fixed (suc _)) le h = refl
body-Agree httparse n p q c Reader.close_delimited le h = refl
body-Agree httparse n p q c (Reader.chunked (payload _ _)) le h = refl
body-Agree httparse n p q c (Reader.chunked trailers) le h = refl
body-Agree httparse n p q c (Reader.chunked (size scanned)) le h = size-Agree n p q c scanned le h
body-Agree httparse n p q c (Reader.chunked payload_end) le h =
    else-agree (ltb (length (as_slice c.input)) 2) _ _ _ (
      else-agree (not (bytes_eq (take 2 (as_slice c.input)) crlf)) _ _ _
        (h (with_reader (consumed c 2) (Reader.chunked (size 0))) (omega arith)))

state-Agree :
    (httparse : HeadParser) (n : ℕ) (p q : Poll) (c : Connection) (s : State)
    → rank c.cycle.reader ≤ n
    → Agree n p q
    → poll_state httparse p c s ≡ poll_state httparse q c s
unfolding poll_state
state-Agree httparse n p q c State.closed le h = refl
state-Agree httparse n p q c State.idle le h =
    else-agree (closes_idle c) _ _ _ (body-Agree httparse n p q c c.cycle.reader le h)
state-Agree httparse n p q c State.might_switch_protocol le h = refl
state-Agree httparse n p q c State.switched_protocol le h = refl
state-Agree httparse n p q c State.done le h = refl
state-Agree httparse n p q c State.must_close le h = refl
state-Agree httparse n p q c State.error le h = refl
state-Agree httparse n p q c State.send_response le h =
    body-Agree httparse n p q c c.cycle.reader le h
state-Agree httparse n p q c State.send_body le h = body-Agree httparse n p q c c.cycle.reader le h

-- The calls of the poll unrolled, with anything at all below the last of them.
abbrev pub unrolled : HeadParser → ℕ → Poll → Poll
unrolled httparse zero below c = below c
unrolled httparse (suc n) below c =
    poll_state httparse (λ d. unrolled httparse n below d) c (peer_state c)

unrolled-Agree :
    (httparse : HeadParser) (n : ℕ) (below : Poll)
    → Agree n (λ c. next_event_inner httparse n c) (λ c. unrolled httparse n below c)
unfolding next_event_inner
unrolled-Agree httparse zero below c lt = absurd (omega (arith, lt))
unrolled-Agree httparse (suc n) below c lt =
    state-Agree httparse n (λ d. next_event_inner httparse n d) (λ d. unrolled httparse n below d) c
      (peer_state c) (omega (arith, lt)) (unrolled-Agree httparse n below)

fuel-Agree :
    (httparse : HeadParser) (n more : ℕ)
    → Agree n (λ c. next_event_inner httparse n c) (λ c. next_event_inner httparse (n + more) c)
unfolding next_event_inner
fuel-Agree httparse zero more c lt = absurd (omega arith)
fuel-Agree httparse (suc n) more c lt =
    let e : suc n + more ≡ suc (n + more) = omega arith in
    rw e (
      state-Agree httparse n (λ d. next_event_inner httparse n d)
        (λ d. next_event_inner httparse (n + more) d) c (peer_state c) (omega arith)
        (fuel-Agree httparse n more))

-- The recursion of `next_event_inner` ends after three calls: a poll is those three calls, whatever would be
-- done where a fourth call stood, so that none is made and the fuel is never used up; and with more fuel a
-- poll does the same. The input and the connection are any.
pub next_event_inner_fuel :
    (httparse : HeadParser) (c : Connection) (more : ℕ)
    (below : Connection → Outcome Failure Polled)
    → (next_event_inner httparse event_fuel c ≡ unrolled httparse event_fuel below c)
      × (next_event_inner httparse (event_fuel + more) c ≡ next_event_inner httparse event_fuel c)
next_event_inner_fuel httparse c more below =
    let le : rank c.cycle.reader < event_fuel = omega (arith, rank-le c.cycle.reader) in
    (unrolled-Agree httparse event_fuel below c le, sym (fuel-Agree httparse event_fuel more c le))
