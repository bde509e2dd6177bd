-- ===== src/Wire/Head/Whole.antt =====
-- crates/h11r/src/wire/buffer.rs: the search over lines that have content.
use h11r.Prelude.{
  ℕ, ◌+◌, ◌≡◌, refl, ap, sym, ◌∙◌, arith, inl, inr, Bool, true, false, not, ◌&&◌, ◌||◌, some, [],
  ◌∷◌, ◌++◌, append-nil, append_assoc, Bytes, length, all, is_empty, ◌==◌, ==_iff, if◌then◌else◌,
  Bool-cases, length-append,
}
use h11r.Wire.Section.{blank}
use h11r.Wire.Section.Lines.{section_end}
use h11r.Wire.Head.{crlf}

abbrev pub no_newline : Bytes → Bool
no_newline bytes = all (λ b. not (b == b'\n')) bytes

pub all-weaken :
    (p q : ℕ → Bool) (bytes : Bytes)
    → ((b : ℕ) → p b ≡ true → q b ≡ true)
    → all p bytes ≡ true
    → all q bytes ≡ true
all-weaken p q [] h k = refl
all-weaken p q (b ∷ rest) h k = ground (arith, h b, k, all-weaken p q rest h)

pub no_newline-append :
    (xs ys : Bytes) → no_newline xs ≡ true → no_newline ys ≡ true → no_newline (xs ++ ys) ≡ true
no_newline-append [] ys h k = k
no_newline-append (x ∷ xs) ys h k = ground (arith, h, no_newline-append xs ys, k)

-- A byte test that fails on the newline.
pub refuses_newline :
    (p : ℕ → Bool) → p b'\n' ≡ false → (b : ℕ) → p b ≡ true → not (b == b'\n') ≡ true
refuses_newline p h b k = elim (Bool-cases (b == b'\n')) [
  | inl same ↦ let e : b ≡ b'\n' = (==_iff b b'\n').0 same in absurd (ground (arith, h, k, ap p e))
  | inr other ↦ ground (arith, other)
]

-- The search reads a line that has no newline, and then its newline.
section_end-line :
    (begun line : Bytes) (started skip : Bool) (pos : ℕ) (rest : Bytes)
    → no_newline line ≡ true
    → section_end begun started skip pos (line ++ b'\n' ∷ rest) ≡ (
        if blank (begun ++ line) && (started || not skip)
        then some (pos + (length line + 1))
        else section_end []
            (started || not (blank (begun ++ line)))
            skip
            (pos + (length line + 1))
            rest)
unfolding section_end
section_end-line begun [] started skip pos rest h = rw (append-nil begun) refl
section_end-line begun (c ∷ line) started skip pos rest h =
    let other : (c == b'\n') ≡ false = ground (arith, h) in
    let size : pos + 1 + (length line + 1) ≡ pos + (length (c ∷ line) + 1) = omega arith in
    rw other (
      section_end-line (begun ++ c ∷ []) line started skip (pos + 1) rest (ground (arith, h))
      ∙ rw (append_assoc begun (c ∷ []) line, size) refl)

not_blank : (x : ℕ) (xs : Bytes) → blank (x ∷ (xs ++ b'\r' ∷ [])) ≡ false
not_blank x [] = ground arith
not_blank x (y ∷ ys) = ground arith

-- A line with content and its CRLF.
section_end-content :
    (x : ℕ) (xs : Bytes) (started : Bool) (pos : ℕ) (more : Bytes)
    → no_newline (x ∷ xs) ≡ true
    → section_end [] started true pos ((x ∷ xs) ++ (crlf ++ more))
      ≡ section_end [] true true (pos + length ((x ∷ xs) ++ crlf)) more
section_end-content x xs started pos more h =
    let split : (x ∷ xs) ++ (crlf ++ more) ≡ ((x ∷ xs) ++ b'\r' ∷ []) ++ b'\n' ∷ more =
      sym (append_assoc (x ∷ xs) (b'\r' ∷ []) (b'\n' ∷ more)) in
    let clean : no_newline ((x ∷ xs) ++ b'\r' ∷ []) ≡ true =
      no_newline-append (x ∷ xs) (b'\r' ∷ []) h refl in
    let size : pos + (length ((x ∷ xs) ++ b'\r' ∷ []) + 1) ≡ pos + length ((x ∷ xs) ++ crlf) =
      omega (arith, length-append (x ∷ xs) (b'\r' ∷ []), length-append (x ∷ xs) crlf) in
    let begun : (started || true) ≡ true = ground arith in
    rw split (
      section_end-line [] ((x ∷ xs) ++ b'\r' ∷ []) started true pos more clean
      ∙ rw (not_blank x xs) (rw (size, begun) refl))

-- Lines with content and nothing else: the search reads them and goes on behind them.
pub record Whole (out : Bytes) : Type 0 where
  pub goes_on :
      (more : Bytes)
      → section_end [] false true 0 (out ++ more) ≡ section_end [] true true (length out) more

pub start-Whole : (x : ℕ) (xs : Bytes) → no_newline (x ∷ xs) ≡ true → Whole ((x ∷ xs) ++ crlf)
start-Whole x xs h = record {
  goes_on = λ more.
      let size : 0 + length ((x ∷ xs) ++ crlf) ≡ length ((x ∷ xs) ++ crlf) = omega arith in
      rw (append_assoc (x ∷ xs) crlf more) (section_end-content x xs false 0 more h ∙ rw size refl);
}

pub line-Whole :
    (line : Bytes) → is_empty line ≡ false → no_newline line ≡ true → Whole (line ++ crlf)
line-Whole [] some_bytes h = absurd (ground arith)
line-Whole (x ∷ xs) some_bytes h = start-Whole x xs h

pub append-Whole :
    (out : Bytes) (x : ℕ) (xs : Bytes)
    → Whole out
    → no_newline (x ∷ xs) ≡ true
    → Whole (out ++ ((x ∷ xs) ++ crlf))
append-Whole out x xs w h = record {
  goes_on = λ more.
      let size : length (out ++ ((x ∷ xs) ++ crlf)) ≡ length out + length ((x ∷ xs) ++ crlf) =
        length-append out ((x ∷ xs) ++ crlf) in
      rw (append_assoc out ((x ∷ xs) ++ crlf) more, append_assoc (x ∷ xs) crlf more)
        (w.goes_on ((x ∷ xs) ++ (crlf ++ more))
          ∙ section_end-content x xs true (length out) more h
          ∙ rw size refl);
}

-- The empty line ends the section.
pub Whole-ends :
    (out more : Bytes)
    → Whole out
    → section_end [] false true 0 ((out ++ crlf) ++ more) ≡ some (length (out ++ crlf))
unfolding section_end
Whole-ends out more w =
    let size : length out + 1 + 1 ≡ length (out ++ crlf) = omega (arith, length-append out crlf) in
    rw (append_assoc out crlf more) (w.goes_on (crlf ++ more) ∙ rw size refl)
