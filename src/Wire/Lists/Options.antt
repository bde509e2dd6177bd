-- ===== src/Wire/Lists/Options.antt =====
-- crates/h11r/src/wire/fields.rs: a connection option keeps the fields on their lines.
use h11r.Prelude.{
  ℕ, ◌≡◌, refl, arith, inl, inr, Bool, true, false, not, ◌&&◌, List, [], ◌∷◌, ◌++◌, codes, Bytes,
  all, is_empty, Bool-cases,
}
use h11r.Headers.{Headers, Field, push, retain, iter, keep_named, get_all}
use h11r.Wire.Syntax.{eq_ignore_ascii_case}
use h11r.Wire.Elements.{elements}
use h11r.Wire.Elements.Within.{all-append, all_within, elements-within}
use h11r.Wire.Lists.{
  all_elements, is_persistence_option, other_options, join_options, set_connection_option,
}

keep_named-within :
    (p : ℕ → Bool) (name : Bytes) (fields : List Field)
    → all (λ f. all p f.1) fields ≡ true
    → all_within p (keep_named name fields) ≡ true
keep_named-within p name [] h = refl
keep_named-within p name ((field, value) ∷ rest) h =
    let later = keep_named-within p name rest (ground (arith, h)) in
    elim (Bool-cases (eq_ignore_ascii_case field name)) [
      | inl same ↦ rw same (ground (arith, h, later))
      | inr other ↦ rw other later
    ]

all_elements-within :
    (p : ℕ → Bool) (values : List Bytes)
    → all_within p values ≡ true
    → all_within p (all_elements values) ≡ true
all_elements-within p [] h = refl
all_elements-within p (value ∷ rest) h =
    all-append (λ v. all p v) (elements value false) (all_elements rest)
      (elements-within p value false (ground (arith, h)))
      (all_elements-within p rest (ground (arith, h)))

other_options-within :
    (p : ℕ → Bool) (values : List Bytes)
    → all_within p values ≡ true
    → all_within p (other_options values) ≡ true
unfolding other_options
other_options-within p [] h = refl
other_options-within p (value ∷ rest) h =
    let later = other_options-within p rest (ground (arith, h)) in
    elim (Bool-cases (not (is_empty value) && not (is_persistence_option value))) [
      | inl kept ↦ rw kept (ground (arith, h, later))
      | inr left_out ↦ rw left_out later
    ]

join_options-within :
    (p : ℕ → Bool) (values : List Bytes)
    → all p (codes ", ") ≡ true
    → all_within p values ≡ true
    → all p (join_options values) ≡ true
unfolding join_options
join_options-within p [] comma h = refl
join_options-within p (value ∷ []) comma h = ground (arith, h)
join_options-within p (value ∷ (next ∷ rest)) comma h =
    all-append p value (codes ", " ++ join_options (next ∷ rest)) (ground (arith, h)) (
      all-append p (codes ", ") (join_options (next ∷ rest)) comma
        (join_options-within p (next ∷ rest) comma (ground (arith, h))))

-- The connection option is pushed behind the fields of other names, and every byte of its value passes a test
-- that the comma, the option itself and the values of all fields pass.
pub set_connection_option-pushes :
    (p : ℕ → Bool) (h : Headers) (option : Bytes)
    → all p (codes ", ") ≡ true
    → all p option ≡ true
    → all (λ f. all p f.1) (iter h) ≡ true
    → (value : Bytes) × ((set_connection_option h option
          ≡ push
              (retain h (λ name _. not (eq_ignore_ascii_case name (codes "connection"))))
              (codes "Connection")
              value)
        × (all p value ≡ true))
unfolding set_connection_option get_all
set_connection_option-pushes p h option comma is_clean clean = (
  _,
  (
    refl,
    join_options-within p
        (other_options (all_elements (keep_named (codes "connection") (iter h))) ++ option ∷ [])
        comma
        (all-append (λ v. all p v)
          (other_options (all_elements (keep_named (codes "connection") (iter h)))) (option ∷ [])
          (other_options-within p (all_elements (keep_named (codes "connection") (iter h))) (
            all_elements-within p (keep_named (codes "connection") (iter h))
              (keep_named-within p (codes "connection") (iter h) clean)))
          (ground (arith, is_clean))),
  ),
)
