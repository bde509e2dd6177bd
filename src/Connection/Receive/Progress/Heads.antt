-- ===== src/Connection/Receive/Progress/Heads.antt =====
-- crates/h11r/src/connection/receive.rs: a head that is accepted was taken off the input.
use h11r.Prelude.{
  ℕ, ◌+◌, ◌-◌, ◌*◌, ◌≤◌, min, ◌≡◌, refl, ap, ◌∙◌, arith, Bool, true, false, not, ◌||◌, length, drop,
  ok, ltb, length-take, length-drop, drop_add,
}
use h11r.State
use h11r.State.{Role, peer, State, state_eq, StateEvent, ConnectionState}
use h11r.Connection.{Connection, is_client}
use h11r.Connection.Frame.{if-kept}
use h11r.Connection.Receive.Accept.{
  section_due, section, wait_for_section, past_section, disable_if, accept_request, accept_response,
  read_head,
}
use h11r.Connection.Receive.Progress.{
  reader_weight, state_weight, weight, Moves, with_failure-Moves, if-Moves, attempt-Moves,
  option-Moves,
}
use h11r.Connection.Receive.Progress.Accepts.{
  Light, accept_request-Moves, wait_for_section-Moves, accept_response-Moves,
}
use h11r.Wire.Buffer.{Buffer, Reader, as_slice, consume}
use h11r.Wire.Parse.Ends.{EndsWithin, parse_request_head-end, parse_response_head-end}
use h11r.Wire.Parse.{HeadParser, parse_request_head, parse_response_head}

pub length-consume :
    (b : Buffer) (count : ℕ) → length (as_slice (consume b count)) ≡ length (as_slice b) - count
unfolding as_slice consume
length-consume b count =
    ap length (drop_add b.start count b.bytes) ∙ length-drop count (drop b.start b.bytes)

-- The search for the end of a section notes its progress, and nothing else.
abbrev shape : Connection → (Buffer × ConnectionState) × (Role × Reader)
shape c = ((c.input, c.state), (c.role, c.cycle.reader))

pub section_due-shape : (d : Connection) (skip : Bool) → shape (section_due d skip).0 ≡ shape d
unfolding section_due
section_due-shape d skip =
    if-kept (λ e. shape e ≡ shape d)
      (d.eof || ltb d.limits.max_head_bytes (length (as_slice d.input))) _ _ refl refl

section-le : (d : Connection) → length (section d) ≤ length (as_slice d.input)
section-le d = omega (
  arith,
  length-take (min (length (as_slice d.input)) d.limits.max_head_bytes) (as_slice d.input),
)

-- Behind a head that was parsed.
past_section-Light :
    {n : ℕ} (d : Connection) (end : ℕ)
    → weight d ≤ n
    → reader_weight d.cycle.reader ≡ 0
    → (1 ≤ end) × (end ≤ length (section d))
    → Light n (past_section d end)
past_section-Light d end le light (some_bytes, within) = record {
  le = omega (arith, le, length-consume d.input end, section-le d, some_bytes, within);
  light = light;
}

past_disabled-Light :
    {n : ℕ} (b : Bool) (d : Connection) (end : ℕ)
    → Light n (past_section d end)
    → Light n (past_section (disable_if b d) end)
past_disabled-Light true d end l = record { le = l.le; light = l.light }
past_disabled-Light false d end l = l

pub section_due-weight :
    (d : Connection) (skip : Bool)
    → (weight (section_due d skip).0 ≡ weight d)
      × (reader_weight (section_due d skip).0.cycle.reader ≡ reader_weight d.cycle.reader)
section_due-weight d skip = (
  ap
      (λ s.
        2 * (length (as_slice s.0.0) - 0)
        + (state_weight (State.state s.0.1 (peer s.1.0)) + reader_weight s.1.1))
      (section_due-shape d skip),
  ap (λ s. reader_weight s.1.1) (section_due-shape d skip),
)

pub read_head-Moves :
    (httparse : HeadParser) (d : Connection)
    → EndsWithin httparse
    → reader_weight d.cycle.reader ≡ 0
    → Moves (weight d) (read_head httparse d)
unfolding read_head
read_head-Moves httparse d w light =
    let e = (section_due d true).0 in
    let (same, same_reader) = section_due-weight d true in
    let le : weight e ≤ weight d = omega (arith, same) in
    let no_chunk : reader_weight e.cycle.reader ≡ 0 = same_reader ∙ light in
    let waits = with_failure-Moves (wait_for_section e true) (wait_for_section-Moves e true le) in
    if-Moves (not (section_due d true).1) _ _ waits (
      if-Moves (not (is_client e.role)) _ _
        (attempt-Moves e (parse_request_head httparse (section e) e.limits.max_header_count) _
          (λ parsed is_parsed. option-Moves parsed _ _ waits (λ found is_found.
            let room = past_section-Light e found.0 le no_chunk (
              parse_request_head-end httparse (section e) e.limits.max_header_count w
                (is_parsed ∙ ap ok is_found)) in
            with_failure-Moves (accept_request (past_section e found.0) found.1)
              (accept_request-Moves (past_section e found.0) room.le found.1))))
        (attempt-Moves e
          (parse_response_head httparse (section e) e.limits.max_header_count e.lenient) _
          (λ parsed is_parsed. option-Moves parsed _ _ waits (λ found is_found.
            let room = past_section-Light e found.0 le no_chunk (
              parse_response_head-end httparse (section e) e.limits.max_header_count e.lenient w
                (is_parsed ∙ ap ok is_found)) in
            with_failure-Moves
              (accept_response (past_section (disable_if found.1.1 e) found.0) found.1.0)
              (accept_response-Moves (past_section (disable_if found.1.1 e) found.0) found.1.0
                (past_disabled-Light found.1.1 e found.0 room))))))
