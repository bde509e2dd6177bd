-- ===== src/Connection/Receive/Held.antt =====
-- crates/h11r/src/connection/receive.rs: body bytes that the caller holds.
use h11r.Prelude.{
  ℕ, zero, suc, ◌+◌, ◌-◌, ◌≤◌, min, ◌≡◌, refl, arith, inl, inr, ◌⊎◌, Bool, true, false, not, ◌&&◌,
  ◌||◌, none, is_empty, ltb, ◌==◌, if◌then◌else◌, Bool-cases, ok, is_ok,
}
use h11r.State.{State, state_eq, StateEvent, process_event}
use h11r.Connection.{Connection, peer_state, advance_peer}
use h11r.Connection.Receive.Payload.{
  with_reader, reader_remaining, payload_remaining, take_payload, advance_payload, peer_data,
  fits_within, hold_body_data, next_event_in_place,
}
use h11r.Wire.Buffer.{Reader, size, payload, payload_end, trailers, as_slice}

-- The bytes held are payload that the decoder has still to pass.
abbrev pub HeldFits : Connection → Type 0
HeldFits c = (c.held ≡ 0) ⊎ (fits_within c.held (payload_remaining c) ≡ true)

-- If the bytes held are payload that the decoder has still to pass, then so are those held after
-- a further call, whether it takes its bytes or not.
pub hold_body_data-HeldFits :
    (c : Connection) (count : ℕ) → HeldFits c → HeldFits (hold_body_data c count).0
unfolding hold_body_data
hold_body_data-HeldFits c count h = elim (Bool-cases fits) [
  | inl held ↦ rw held (inr (unfold payload_remaining in ground (arith, held)))
  | inr refused ↦ rw refused h
]
  where
    fits : Bool
    fits =
        not (count == 0)
        && not c.eof
        && is_empty (as_slice c.input)
        && fits_within (c.held + count) (payload_remaining c)

taken_fits :
    (r : Reader) (held count : ℕ)
    → count ≤ held
    → fits_within held (reader_remaining r) ≡ true
    → (held - count ≡ 0)
      ⊎ (fits_within (held - count) (reader_remaining (take_payload r count).0) ≡ true)
unfolding take_payload
taken_fits Reader.head held count le h = absurd (ground (arith, h))
taken_fits (Reader.fixed zero) held count le h = absurd (ground (arith, h))
taken_fits (Reader.fixed (suc n)) held count le h = fixed_fits (suc n - min (suc n) count) refl
  where
    fixed_fits :
        (left : ℕ)
        → left ≡ suc n - min (suc n) count
        → (held - count ≡ 0)
          ⊎ (fits_within (held - count) (reader_remaining (Reader.fixed left)) ≡ true)
    fixed_fits zero e = inl (ground (arith, h, e))
    fixed_fits (suc k) e = inr (ground (arith, h, e))
taken_fits (Reader.chunked (size s)) held count le h = absurd (ground (arith, h))
taken_fits (Reader.chunked (payload remaining first)) held count le h =
    elim (Bool-cases (min remaining count == remaining)) [
      | inl last ↦ rw last (inl (ground (arith, h, last)))
      | inr more ↦ rw more (inr (ground (arith, h, more)))
    ]
taken_fits (Reader.chunked payload_end) held count le h = absurd (ground (arith, h))
taken_fits (Reader.chunked trailers) held count le h = absurd (ground (arith, h))
taken_fits Reader.close_delimited held count le h = inr (ground (arith, h))

pub advance_peer-body :
    (c : Connection)
    → state_eq (peer_state c) State.send_body ≡ true
    → advance_peer c StateEvent.body_data ≡ (c, ok tt)
unfolding advance_peer process_event
advance_peer-body c h = rw h refl

-- If the bytes held are payload that the decoder has still to pass, then any number of them but
-- none is handed over: the call succeeds, takes them off those held, and what is left is payload
-- still.
pub next_event_in_place-HeldFits :
    (c : Connection) (count : ℕ)
    → HeldFits c
    → 1 ≤ count
    → count ≤ c.held
    → (is_ok (next_event_in_place c count).1 ≡ true)
      × ((next_event_in_place c count).0.held ≡ c.held - count)
      × HeldFits (next_event_in_place c count).0
unfolding next_event_in_place peer_data advance_payload payload_remaining
next_event_in_place-HeldFits c count (inl none_held) some_asked le = absurd (omega arith)
next_event_in_place-HeldFits c count (inr fits) some_asked le =
    elim (Bool-cases (state_eq (peer_state c) State.send_body)) [
      | inl sending ↦
          let test : (count == 0 || ltb c.held count) ≡ false = ground arith in
          rw test (
            rw (advance_peer-body (with_reader c (take_payload c.cycle.reader count).0) sending)
              (refl, refl, left sending))
      | inr other ↦ absurd (idle_holds other)
    ]
  where
    held_fits :
        state_eq (peer_state c) State.send_body ≡ true
        → fits_within c.held (reader_remaining c.cycle.reader) ≡ true
    held_fits sending = ground (arith, fits, sending)

    left :
        state_eq (peer_state c) State.send_body ≡ true
        → (c.held - count ≡ 0)
          ⊎ (fits_within (c.held - count) (
                if state_eq (peer_state c) State.send_body
                then reader_remaining (take_payload c.cycle.reader count).0
                else none)
              ≡ true)
    left sending = rw sending (taken_fits c.cycle.reader c.held count le (held_fits sending))

    idle_holds : state_eq (peer_state c) State.send_body ≡ false → ⊥
    idle_holds other = ground (arith, fits, other)
