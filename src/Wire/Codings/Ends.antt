-- ===== src/Wire/Codings/Ends.antt =====
-- crates/h11r/src/wire/fields.rs: the loops of `Codings::read` end for every value.
use h11r.Prelude.{
  ℕ, zero, suc, ◌+◌, ◌-◌, ◌≤◌, ◌<◌, ◌≡◌, refl, arith, inl, inr, Bool, true, false, not, [], ◌∷◌,
  Bytes, length, take, drop, ltb, Bool-cases, Option-cases, if◌then◌else◌, run_while_ends,
}
use h11r.Wire.Elements.{byte_at, is_byte, skip_ows, token_end, parse_quoted_string}
use h11r.Wire.Elements.Bounds.{
  skip_ows-ge, skip_ows-le, token_end-le, token_end-ge, parse_quoted_string-le, byte_at-lt,
  byte_at-ge,
}
use h11r.Wire.Codings.{
  Codings, Parameters, parameter_end, more_parameters, read_parameter, Reading, ends_element,
  read_parameters, finish_coding, read_coding, read_element, read_loop,
}

abbrev Inside : Bytes → ℕ → Parameters → Type 0
Inside value low s = s.valid ≡ true → (low ≤ s.at) × (s.at ≤ length value)

abbrev parameters_left : Bytes → Parameters → ℕ
parameters_left value s = if s.valid then suc (length value) - s.at else 0

parameter_end-le :
    (value : Bytes) (at : ℕ)
    → ltb at (parameter_end value at) ≡ true
    → parameter_end value at ≤ length value
unfolding parameter_end
parameter_end-le value at h = elim (Bool-cases (is_byte (byte_at value at) b'"')) [
  | inl quote ↦ elim (Option-cases (parse_quoted_string value at)) [
    | inl none_found ↦ rw (quote, none_found) (omega (arith, byte_at-lt value at b'"' quote))
    | inr (e, found) ↦
        rw (quote, found) (parse_quoted_string-le value at e (byte_at-lt value at b'"' quote) found)
  ]
  | inr token ↦ rw token (token_end-le value at)
]

read_parameter_steps :
    (value : Bytes) (low : ℕ) (s : Parameters)
    → Inside value low s
    → more_parameters value s ≡ true
    → Inside value low (read_parameter value s)
      × (parameters_left value (read_parameter value s) < parameters_left value s)
unfolding more_parameters read_parameter
read_parameter_steps value low s p more = ground (
  arith,
  skip_ows-ge value (s.at + 1),
  skip_ows-ge value (after_name + 1),
  parameter_end-le value parameter,
  skip_ows-ge value end,
  skip_ows-le value end,
)
  where
    name : ℕ
    name = skip_ows value (s.at + 1)

    after_name : ℕ
    after_name = skip_ows value (token_end value name)

    parameter : ℕ
    parameter = skip_ows value (after_name + 1)

    end : ℕ
    end = parameter_end value parameter

-- The parameters of a coding are read within the value, and the loop over them ends by its test.
parameters_end :
    (value : Bytes) (start : ℕ)
    → start ≤ length value
    → let t = read_parameters value start (token_end value start) in
      Inside value start t × (more_parameters value t ≡ false)
unfolding read_parameters
parameters_end value start h = (loop_end.1, loop_end.0)
  where
    loop_end :
        let t = read_parameters value start (token_end value start) in
        (more_parameters value t ≡ false) × Inside value start t
    loop_end =
        run_while_ends {Holds = Inside value start} (parameters_left value) (more_parameters value)
          (read_parameter value) (read_parameter_steps value start) (length value + 2) _
          (λ v. omega (
            arith,
            token_end-ge value start h,
            token_end-le value start,
            skip_ows-ge value (token_end value start),
            skip_ows-le value (token_end value start),
          ))
          (ground arith)

abbrev Progress : Bytes → Reading → Type 0
Progress value s = s.returned ≡ false → s.at ≤ length value

abbrev elements_left : Bytes → Reading → ℕ
elements_left value s = if s.returned then 0 else length value + 2 - s.at

finish_coding_steps :
    (value : Bytes) (c : Codings) (name : Bytes) (start : ℕ) (read : Parameters)
    → Inside value start read
    → let t = finish_coding value c name read in
      t.returned ≡ false → (start < t.at) × (t.at ≤ length value)
unfolding finish_coding
finish_coding_steps value c name start read p e = ground (arith, byte_at-ge value read.at)

inside_of_byte :
    (value : Bytes) (at : ℕ) → ends_element (byte_at value at) ≡ false → at < length value
inside_of_byte [] at h = cc
inside_of_byte (x ∷ xs) zero h = omega arith
inside_of_byte (x ∷ xs) (suc at) h = omega (arith, inside_of_byte xs at h)

read_element_steps :
    (value : Bytes) (s : Reading)
    → Progress value s
    → not s.returned ≡ true
    → Progress value (read_element value s)
      × (elements_left value (read_element value s) < elements_left value s)
unfolding read_element read_coding
read_element_steps value s p more = ground (
  arith,
  skip_ows-ge value s.at,
  skip_ows-le value s.at,
  inside_of_byte value start,
  parameters_end value start,
  finish_coding_steps value s.codings (take (token_end value start - start) (drop start value))
      start (read_parameters value start (token_end value start)),
)
  where
    start : ℕ
    start = skip_ows value s.at

-- For every value and every flags at the start, the loop of `read` has returned before its fuel
-- runs out.
pub read_returns : (c : Codings) (value : Bytes) → (read_loop c value).returned ≡ true
read_returns c value = not_false _ (loop_end)
  where
    loop_end : not (read_loop c value).returned ≡ false
    loop_end =
        unfold read_loop in
        (run_while_ends {Holds = Progress value} (elements_left value) (λ t. not t.returned)
          (read_element value) (read_element_steps value) (length value + 3)
          (record { codings = c; at = 0; returned = false }) (λ e. omega arith) (omega arith)).0

    not_false : (b : Bool) → not b ≡ false → b ≡ true
    not_false true e = refl
    not_false false e = cc
