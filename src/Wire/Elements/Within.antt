-- ===== src/Wire/Elements/Within.antt =====
-- crates/h11r/src/wire/fields.rs: the elements of a value have no bytes but those of the value.
use h11r.Prelude.{
  ℕ, ◌≡◌, refl, arith, inl, inr, Bool, true, false, ◌&&◌, List, [], ◌∷◌, ◌++◌, map, Bytes, all,
  is_empty, Bool-cases,
}
use h11r.Wire.Elements.{
  is_ows, trim_start, trim_end, trim_ows, Quoting, separates, split_elements, elements,
}

pub all-append {ℓ} :
    {A : Type ℓ} (p : A → Bool) (xs ys : List A)
    → all p xs ≡ true
    → all p ys ≡ true
    → all p (xs ++ ys) ≡ true
all-append p [] ys h k = k
all-append p (x ∷ xs) ys h k = ground (arith, h, all-append p xs ys, k)

-- Every byte of every value passes the test.
abbrev pub all_within : (ℕ → Bool) → List Bytes → Bool
all_within p values = all (λ value. all p value) values

trim_start-within :
    (p : ℕ → Bool) (value : Bytes) → all p value ≡ true → all p (trim_start value) ≡ true
unfolding trim_start
trim_start-within p [] h = refl
trim_start-within p (x ∷ xs) h = elim (Bool-cases (is_ows x)) [
  | inl space ↦ rw (trim_start, space) (trim_start-within p xs (ground (arith, h)))
  | inr other ↦ rw (trim_start, other) h
]

trim_end-within :
    (p : ℕ → Bool) (value : Bytes) → all p value ≡ true → all p (trim_end value) ≡ true
unfolding trim_end
trim_end-within p [] h = refl
trim_end-within p (x ∷ xs) h = elim (Bool-cases (is_empty (trim_end xs) && is_ows x)) [
  | inl dropped ↦ rw dropped refl
  | inr kept ↦ rw kept (ground (arith, h, trim_end-within p xs (ground (arith, h))))
]

trim_all-within :
    (p : ℕ → Bool) (values : List Bytes)
    → all_within p values ≡ true
    → all_within p (map trim_ows values) ≡ true
unfolding trim_ows
trim_all-within p [] h = refl
trim_all-within p (value ∷ rest) h =
    let first : all p (trim_ows value) ≡ true =
      trim_end-within p (trim_start value) (trim_start-within p value (ground (arith, h))) in
    ground (arith, first, trim_all-within p rest (ground (arith, h)))

split-within :
    (p : ℕ → Bool) (quoting : Bool) (q : Quoting) (current value : Bytes)
    → all p current ≡ true
    → all p value ≡ true
    → all_within p (split_elements quoting q current value) ≡ true
unfolding split_elements
split-within p quoting q current [] h k = ground (arith, h)
split-within p quoting q current (b ∷ bs) h k = elim (Bool-cases (separates quoting q b).1) [
  | inl ends ↦
      let later = split-within p quoting (separates quoting q b).0 [] bs refl (ground (arith, k)) in
      rw (split_elements, ends) (ground (arith, h, later))
  | inr goes_on ↦
      rw (split_elements, goes_on)
        (split-within p quoting (separates quoting q b).0 (current ++ b ∷ []) bs
          (all-append p current (b ∷ []) h (ground (arith, k))) (ground (arith, k)))
]

-- If every byte of a value passes a test, then so does every byte of each of its elements.
pub elements-within :
    (p : ℕ → Bool) (value : Bytes) (quoting : Bool)
    → all p value ≡ true
    → all_within p (elements value quoting) ≡ true
unfolding elements
elements-within p value quoting h =
    trim_all-within p (split_elements quoting (record { quoted = false; escaped = false }) [] value)
      (split-within p quoting (record { quoted = false; escaped = false }) [] value refl h)
