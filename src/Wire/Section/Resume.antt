-- ===== src/Wire/Section/Resume.antt =====
-- crates/h11r/src/wire/buffer.rs: `poll` stops and goes on as data arrives.
use h11r.Prelude.{
  ℕ, zero, suc, ◌+◌, ◌-◌, ◌≤◌, ◌<◌, ◌≡◌, refl, ap, sym, subst, ◌∙◌, inl, inr, arith, Bool, Option,
  none, [], ◌∷◌, ◌++◌, Bytes, length, take, drop, Bool-cases, length-append, length-drop,
  drop-append_le, take-append_le,
}
use h11r.Wire.Section.{SectionProgress, is_newline_at, end_line, poll_step, poll_loop, poll}

is_newline_at-append :
    (bytes more : Bytes) (i : ℕ)
    → i < length bytes
    → is_newline_at (bytes ++ more) i ≡ is_newline_at bytes i
is_newline_at-append [] more i h = elim h [ ]
is_newline_at-append (x ∷ xs) more zero h = refl
is_newline_at-append (x ∷ xs) more (suc i) h = is_newline_at-append xs more i (omega arith)

take-drop-append :
    (n m : ℕ) (bytes more : Bytes)
    → n + m ≤ length bytes
    → take m (drop n (bytes ++ more)) ≡ take m (drop n bytes)
take-drop-append n m bytes more h =
    ap (take m) (drop-append_le n bytes more (omega arith))
    ∙ take-append_le m (drop n bytes) more (omega (arith, length-drop n bytes))

-- A position of the scan that the data contains.
abbrev pub Within : SectionProgress → Bytes → Type 0
Within p bytes = (p.line_start ≤ p.at) × (p.at ≤ length bytes)

step-more :
    (p : SectionProgress) (bytes more : Bytes) (skip : Bool)
    → p.line_start ≤ p.at
    → p.at < length bytes
    → poll_step p (bytes ++ more) skip ≡ poll_step p bytes skip
unfolding poll_step
step-more p bytes more skip l h =
    let size : p.at + 1 - 1 ≡ p.at = omega arith in
    rw
      (
        size,
        is_newline_at-append bytes more p.at h,
        take-drop-append p.line_start (p.at - p.line_start) bytes more (omega arith),
      )
      refl

step-at :
    (p : SectionProgress) (bytes : Bytes) (skip : Bool)
    → p.line_start ≤ p.at
    → ((poll_step p bytes skip).0.at ≡ p.at + 1)
      × ((poll_step p bytes skip).0.line_start ≤ (poll_step p bytes skip).0.at)
unfolding poll_step end_line
step-at p bytes skip l = ground arith

-- The loop over more data does the rounds of the loop over the data at hand, and goes on.
loop-more :
    (rounds later : ℕ) (p q : SectionProgress) (bytes more : Bytes) (skip : Bool)
    → Within p bytes
    → rounds ≡ length bytes - p.at
    → poll_loop rounds p bytes skip ≡ (q, none)
    → (poll_loop (rounds + later) p (bytes ++ more) skip ≡ poll_loop later q (bytes ++ more) skip)
      × (q.at ≡ length bytes)
      × (q.line_start ≤ q.at)
unfolding poll_loop
loop-more zero later p q bytes more skip w e h =
    let none_left : zero + later ≡ later = omega arith in
    let same : p ≡ q = ap {B = SectionProgress} (λ (r : SectionProgress × Option ℕ). r.0) h in
    subst
      (λ r.
        (poll_loop (zero + later) p (bytes ++ more) skip ≡ poll_loop later r (bytes ++ more) skip)
        × (r.at ≡ length bytes)
        × (r.line_start ≤ r.at))
      same (rw none_left, omega arith, w.0)
loop-more (suc rounds) later p q bytes more skip w e h =
    elim (Bool-cases (poll_step p bytes skip).1) [
      | inl stop ↦ ground arith
      | inr on ↦
          let p' = (poll_step p bytes skip).0 in
          let (at, line) = step-at p bytes skip w.0 in
          let size : suc rounds + later ≡ suc (rounds + later) = omega arith in
          let rest =
            loop-more rounds later p' q bytes more skip (line, omega arith) (omega arith)
              (rw (on, poll_loop) at h) in
          let grown = step-more p bytes more skip w.0 (omega arith) in
          (
            rw (size, poll_loop) (rw (grown, poll_loop) (rw (on, poll_loop) (rw grown rest.0))),
            rest.1,
            rest.2,
          )
    ]

-- If a search from a state whose positions lie in the data ends with no empty line found, then
-- after any further data the search that goes on from its state finds the same end, in the same
-- state, as one from the old state over all the data.
pub poll-resume :
    (p q : SectionProgress) (bytes more : Bytes) (skip : Bool)
    → Within p bytes
    → poll p bytes skip ≡ (q, none)
    → poll q (bytes ++ more) skip ≡ poll p (bytes ++ more) skip
poll-resume p q bytes more skip w h =
    let (same, at, line) =
      loop-more (length bytes - p.at) (length more) p q bytes more skip w refl (unfold poll in h) in
    let left : length (bytes ++ more) - q.at ≡ length more =
      omega (arith, length-append bytes more) in
    let all_left : length (bytes ++ more) - p.at ≡ (length bytes - p.at) + length more =
      omega (arith, length-append bytes more) in
    unfold poll in rw (left, all_left) (sym same)
