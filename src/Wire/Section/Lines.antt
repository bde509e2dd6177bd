-- ===== src/Wire/Section/Lines.antt =====
-- crates/h11r/src/wire/buffer.rs: `poll` against a search that reads the data byte by byte.
use h11r.Prelude.{
  ℕ, zero, suc, ◌+◌, ◌-◌, ◌≤◌, ◌≡◌, refl, ap, sym, ◌∙◌, inl, inr, arith, Bool, true, false, not,
  ◌&&◌, ◌||◌, Option, none, some, List, [], ◌∷◌, ◌++◌, append_assoc, Bytes, length, take, drop,
  ◌==◌, if◌then◌else◌, Bool-cases, length-append, length-drop, drop-append_le, take_append,
}
use h11r.Wire.Section.{
  SectionProgress, fresh, is_newline_at, blank, end_line, poll_step, poll_loop, poll,
}

-- The position after the empty line that ends the section, counted from `pos`. The bytes of the
-- open line are at hand; with `skip`, empty lines before the first other line do not count.
unfoldable pub section_end : Bytes → Bool → Bool → ℕ → Bytes → Option ℕ
section_end line started skip pos [] = none
section_end line started skip pos (c ∷ cs) =
    let later =
      section_end (if c == b'\n' then [] else line ++ c ∷ [])
        (if c == b'\n' then (started || not (blank line)) else started) skip (pos + 1) cs in
    if c == b'\n' && (blank line && (started || not skip)) then some (pos + 1) else later

is_newline_at_last :
    (before : Bytes) (c : ℕ) (after : Bytes)
    → is_newline_at (before ++ c ∷ after) (length before) ≡ (c == b'\n')
is_newline_at_last [] c after = refl
is_newline_at_last (x ∷ before) c after = is_newline_at_last before c after

-- The position `p` has read `before`, and `line` is the open line.
record Scanned (p : SectionProgress) (before line : Bytes) : Type 0 where
  at_end : p.at ≡ length before
  in_order : p.line_start ≤ p.at
  open_line : drop p.line_start before ≡ line

line_read :
    (p : SectionProgress) (before line more : Bytes)
    → Scanned p before line
    → take (p.at - p.line_start) (drop p.line_start (before ++ more)) ≡ line
line_read p before line more s =
    ap (take (p.at - p.line_start)) (
      drop-append_le p.line_start before more (omega (arith, s.at_end, s.in_order))
      ∙ ap (λ l. l ++ more) s.open_line)
    ∙ rw size (take_append line more)
  where
    size : p.at - p.line_start ≡ length line
    size =
        omega (arith, length-drop p.line_start before, ap length s.open_line, s.at_end, s.in_order)

-- What one round does with the byte `c` that it reads.
step_reads :
    (p : SectionProgress) (before line : Bytes) (c : ℕ) (after : Bytes) (skip : Bool)
    → Scanned p before line
    → poll_step p (before ++ c ∷ after) skip ≡ (
        if c == b'\n'
        then end_line (record p { at = p.at + 1 }) (blank line) skip
        else (record p { at = p.at + 1 }, false))
unfolding poll_step
step_reads p before line c after skip s =
    let size : p.at + 1 - 1 ≡ p.at = omega arith in
    let found : is_newline_at (before ++ c ∷ after) p.at ≡ (c == b'\n') =
      rw s.at_end (is_newline_at_last before c after) in
    rw (size, found, line_read p before line (c ∷ after) s) refl

next_line : Bytes → ℕ → Bytes
next_line line c = if c == b'\n' then [] else line ++ c ∷ []

drop_all {ℓ} : {A : Type ℓ} (n : ℕ) (xs : List A) → length xs ≤ n → drop n xs ≡ []
drop_all zero [] h = refl
drop_all zero (x ∷ xs) h = elim h [ ]
drop_all (suc n) [] h = refl
drop_all (suc n) (x ∷ xs) h = drop_all n xs (omega arith)

Scanned-newline :
    (p q : SectionProgress) (before line : Bytes) (c : ℕ)
    → Scanned p before line
    → q.at ≡ p.at + 1
    → q.line_start ≡ p.at + 1
    → Scanned q (before ++ c ∷ []) []
Scanned-newline p q before line c s at start = record {
  at_end = omega (arith, length-append before (c ∷ []), s.at_end);
  in_order = omega arith;
  open_line =
      drop_all q.line_start (before ++ c ∷ [])
        (omega (arith, length-append before (c ∷ []), s.at_end));
}

Scanned-byte :
    (p : SectionProgress) (before line : Bytes) (c : ℕ)
    → Scanned p before line
    → Scanned (record p { at = p.at + 1 }) (before ++ c ∷ []) (line ++ c ∷ [])
Scanned-byte p before line c s = record {
  at_end = omega (arith, length-append before (c ∷ []), s.at_end);
  in_order = omega (arith, s.in_order);
  open_line =
      drop-append_le p.line_start before (c ∷ []) (omega (arith, s.at_end, s.in_order))
      ∙ ap (λ l. l ++ c ∷ []) s.open_line;
}

loop_stops :
    (rounds : ℕ) (p q : SectionProgress) (bytes : Bytes) (skip : Bool)
    → poll_step p bytes skip ≡ (q, true)
    → (poll_loop (suc rounds) p bytes skip).1 ≡ some q.at
unfolding poll_loop
loop_stops rounds p q bytes skip e = rw (e, poll_loop) (rw e refl)

loop_goes_on :
    (p q : SectionProgress) (before : Bytes) (c : ℕ) (cs : Bytes) (skip : Bool) {end : Option ℕ}
    → poll_step p (before ++ c ∷ cs) skip ≡ (q, false)
    → (poll_loop (length cs) q ((before ++ c ∷ []) ++ cs) skip).1 ≡ end
    → (poll_loop (length (c ∷ cs)) p (before ++ c ∷ cs) skip).1 ≡ end
unfolding poll_loop
loop_goes_on p q before c cs skip e h =
    rw (e, poll_loop) (rw e (rw (append_assoc before (c ∷ []) cs) at h))

-- The loop from a state that has read `before` finds what the search by bytes finds in `after`.
loop-section_end :
    (p : SectionProgress) (before line after : Bytes) (skip : Bool)
    → Scanned p before line
    → (poll_loop (length after) p (before ++ after) skip).1
      ≡ section_end line p.started skip p.at after
unfolding section_end
loop-section_end p before line [] skip s = unfold poll_loop in refl
loop-section_end p before line (c ∷ cs) skip s = elim (Bool-cases (c == b'\n')) [
  | inl newline ↦ elim (Bool-cases (blank line)) [
    | inl empty ↦ elim (Bool-cases (p.started || not skip)) [
      | inl ends ↦
          let stepped : poll_step p (before ++ c ∷ cs) skip
              ≡ (record p { at = p.at + 1; line_start = p.at + 1 }, true) =
            step_reads p before line c cs skip s
            ∙ rw newline (unfold end_line in rw (empty, end_line) (rw ends)) in
          loop_stops (length cs) p _ (before ++ c ∷ cs) skip stepped
          ∙ sym (rw (newline, empty, ends))
      | inr ignored ↦
          let q : SectionProgress = record p { at = p.at + 1; line_start = p.at + 1 } in
          let stepped : poll_step p (before ++ c ∷ cs) skip ≡ (q, false) =
            step_reads p before line c cs skip s
            ∙ rw newline (unfold end_line in rw (empty, end_line) (rw ignored)) in
          let unstarted : (p.started || false) ≡ p.started = ground arith in
          loop_goes_on p q before c cs skip stepped (
            loop-section_end q (before ++ c ∷ []) [] cs skip
              (Scanned-newline p q before line c s refl refl))
          ∙ sym (rw (newline, empty, ignored) (rw unstarted))
    ]
    | inr other ↦
        let q : SectionProgress = record p {
          at = p.at + 1;
          line_start = p.at + 1;
          started = true;
        } in
        let stepped : poll_step p (before ++ c ∷ cs) skip ≡ (q, false) =
          step_reads p before line c cs skip s
          ∙ rw newline (unfold end_line in rw (other, end_line)) in
        let now_started : (p.started || true) ≡ true = ground arith in
        loop_goes_on p q before c cs skip stepped (
          loop-section_end q (before ++ c ∷ []) [] cs skip
            (Scanned-newline p q before line c s refl refl))
        ∙ sym (rw (newline, other) (rw now_started))
  ]
  | inr byte ↦
      let q : SectionProgress = record p { at = p.at + 1 } in
      let stepped : poll_step p (before ++ c ∷ cs) skip ≡ (q, false) =
        step_reads p before line c cs skip s ∙ rw byte in
      loop_goes_on p q before c cs skip stepped (
        loop-section_end q (before ++ c ∷ []) (line ++ c ∷ []) cs skip
          (Scanned-byte p before line c s))
      ∙ sym (rw byte)
]

-- On a fresh state `poll` finds the end of the first empty line, CRLF or bare LF, that follows a line
-- with content, or of the first one at all where leading empty lines are not skipped; it finds none
-- exactly when there is none.
pub poll-section_end :
    (bytes : Bytes) (skip : Bool) → (poll fresh bytes skip).1 ≡ section_end [] false skip 0 bytes
poll-section_end bytes skip =
    let all_left : length bytes - 0 ≡ length bytes = omega arith in
    unfold poll fresh in
    rw all_left (
      loop-section_end (record { at = 0; line_start = 0; started = false; parsed = 0 }) [] [] bytes
        skip (record { at_end = refl; in_order = omega arith; open_line = refl }))
