-- ===== src/Wire/Head/Copies.antt =====
-- crates/h11r/src/wire/head.rs: fields copied from a parsed section are those the parser found.
use h11r.Prelude.{
  ℕ, zero, suc, ◌+◌, ◌-◌, ◌≤◌, max, ◌≡◌, refl, ap, sym, ◌∙◌, arith, inl, inr, true, false, List, [],
  ◌∷◌, ◌++◌, Bytes, take, drop, any, Bool-cases, append_assoc, drop_add, ◌==◌,
}
use h11r.Headers.{Range, range, slice, Field, Headers, new, push, iter_from, iter}
use h11r.Headers.Entries.{AllInside, IsWellFormed, iter-push, push-IsWellFormed, new-IsWellFormed}
use h11r.Wire.Head.{
  has_fold, normalize_obs_fold, Slices, shifted, all_shifted, first_start, last_end, copy_section,
  value_folded, copy_folded, copy_headers,
}

-- The parser's slices come in the order of the section: none starts before the first name.
abbrev pub AllAfter : ℕ → Slices → Type 0
AllAfter start [] = Unit
AllAfter start ((name, value) ∷ rest) =
    ((start ≤ name.start) × (name.end ≤ value.start)) × AllAfter start rest

-- What the parser found, each value without its line folds.
abbrev pub unfolded : Bytes → Slices → List Field
unfolded section [] = []
unfolded section ((name, value) ∷ rest) =
    (slice section name, normalize_obs_fold (slice section value)) ∷ unfolded section rest

take-take : (n k : ℕ) (xs : Bytes) → n ≤ k → take n (take k xs) ≡ take n xs
take-take zero k xs h = refl
take-take (suc n) zero xs h = absurd (omega arith)
take-take (suc n) (suc k) [] h = refl
take-take (suc n) (suc k) (x ∷ xs) h = ap (◌∷◌ x) (take-take n k xs (omega arith))

drop-take : (n k : ℕ) (xs : Bytes) → drop n (take k xs) ≡ take (k - n) (drop n xs)
drop-take zero k xs = let e : k - zero ≡ k = omega arith in rw e
drop-take (suc n) zero xs = let e : zero - suc n ≡ 0 = omega arith in rw e
drop-take (suc n) (suc k) [] = take_nil (suc k - suc n)
  where
    take_nil : (m : ℕ) → [] ≡ take {A = ℕ} m []
    take_nil zero = refl
    take_nil (suc m) = refl
drop-take (suc n) (suc k) (x ∷ xs) =
    let e : suc k - suc n ≡ k - n = omega arith in rw e (drop-take n k xs)

-- A slice of a piece of the section is a slice of the section.
slice-shifted :
    (section : Bytes) (start end : ℕ) (r : Range)
    → start ≤ r.start
    → r.start ≤ r.end
    → r.end ≤ end
    → slice (slice section (range start end)) (shifted start r) ≡ slice section r
slice-shifted section start end r h i j =
    let size : (r.end - start) - (r.start - start) ≡ r.end - r.start = omega arith in
    let from : start + (r.start - start) ≡ r.start = omega arith in
    rw (size, drop-take (r.start - start) (end - start) (drop start section))
      (take-take (r.end - r.start) ((end - start) - (r.start - start))
          (drop (r.start - start) (drop start section)) (omega arith)
        ∙ ap (take (r.end - r.start))
            (sym (drop_add start (r.start - start) section) ∙ ap (λ n. drop n section) from))

last_end-ge : (end : ℕ) (headers : Slices) → end ≤ last_end end headers
last_end-ge end [] = omega arith
last_end-ge end ((name, value) ∷ rest) = omega (arith, last_end-ge (max end value.end) rest)

shifted_fields :
    (section : Bytes) (start end : ℕ) (from : ℕ) (headers : Slices)
    → AllInside section headers
    → AllAfter start headers
    → last_end from headers ≤ end
    → iter_from (slice section (range start end)) (all_shifted start headers)
      ≡ iter_from section headers
unfolding iter_from
shifted_fields section start end from [] inside after fits = refl
shifted_fields section start end from ((name, value) ∷ rest) inside after fits =
    let within_end : value.end ≤ end = omega (arith, last_end-ge (max from value.end) rest) in
    rw (
      slice-shifted section start end name after.0.0 inside.0.0.0 (omega arith),
      slice-shifted section start end value (omega arith) inside.0.1.0 within_end,
      shifted_fields section start end (max from value.end) rest inside.1 after.1 fits,
    )

copy_section-fields :
    (section : Bytes) (headers : Slices)
    → AllInside section headers
    → AllAfter (first_start headers) headers
    → iter (copy_section section headers) ≡ iter_from section headers
unfolding iter copy_section
copy_section-fields section headers inside after =
    shifted_fields section (first_start headers) (last_end (first_start headers) headers)
      (first_start headers) headers inside after (omega arith)

copy_folded-fields :
    (h : Headers) (section : Bytes) (headers : Slices)
    → IsWellFormed h
    → iter (copy_folded h section headers) ≡ iter h ++ unfolded section headers
unfolding copy_folded
copy_folded-fields h section [] w = sym (append_nil (iter h))
  where
    append_nil : (xs : List Field) → xs ++ [] ≡ xs
    append_nil [] = refl
    append_nil (x ∷ xs) = ap (◌∷◌ x) (append_nil xs)
copy_folded-fields h section ((name, value) ∷ rest) w =
    copy_folded-fields (push h n v) section rest (push-IsWellFormed h n v w)
    ∙ rw (iter-push h n v w) (append_assoc (iter h) ((n, v) ∷ []) (unfolded section rest))
  where
    n : Bytes
    n = slice section name

    v : Bytes
    v = normalize_obs_fold (slice section value)

no_fold : (value : Bytes) → any (λ b. b == b'\n') value ≡ false → has_fold value ≡ false
unfolding has_fold
no_fold [] h = refl
no_fold (b ∷ rest) h = ground (arith, no_fold rest)

unfolded_as_is :
    (section : Bytes) (headers : Slices)
    → value_folded section headers ≡ false
    → unfolded section headers ≡ iter_from section headers
unfolding iter_from
unfolded_as_is section [] h = refl
unfolded_as_is section ((name, value) ∷ rest) h =
    let here : any (λ b. b == b'\n') (slice section value) ≡ false = ground arith in
    rw (unchanged (no_fold (slice section value) here), unfolded_as_is section rest (ground arith))
  where
    unchanged :
        has_fold (slice section value) ≡ false
        → normalize_obs_fold (slice section value) ≡ slice section value
    unchanged e = unfold normalize_obs_fold in rw e

-- Whichever way a section is copied, in one piece or field by field, a response's fields are those the
-- parser found with the folds of their values replaced; the slices lie in the section, in its order.
pub copy_headers-fields :
    (section : Bytes) (headers : Slices)
    → AllInside section headers
    → AllAfter (first_start headers) headers
    → iter (copy_headers section headers true) ≡ unfolded section headers
unfolding copy_headers
copy_headers-fields section headers inside after =
    elim (Bool-cases (value_folded section headers)) [
      | inl some_fold ↦
          rw some_fold
            (copy_folded-fields new section headers new-IsWellFormed ∙ unfold new iter in refl)
      | inr none_folded ↦ rw none_folded (
          copy_section-fields section headers inside after
          ∙ sym (unfolded_as_is section headers none_folded))
    ]
