-- ===== src/Wire/Number/Digits.antt =====
-- crates/h11r/src/wire/chunked.rs: `parse_number` reads the digits of a number back.
use native.Mathlib.Nat.{
  div-add-mod', div-div-eq-div-mul, pow-suc, pow-zero, div-one, div-le_self, div-eq_of_lt, mod-lt,
}
use h11r.Prelude.{
  ℕ, zero, suc, ◌+◌, ◌*◌, ◌/◌, ◌%◌, ◌^◌, ◌≤◌, ◌<◌, ◌≡◌, ap, sym, ◌∙◌, arith, true, some, [], ◌∷◌,
  Bytes, leb,
}
use h11r.Wire.Number.{usize_max, to_digit, next_number, fold_digits, parse_number}

-- The digits of `n` in a radix, from the highest of `k`, each written by `byte`.
unfoldable pub digits_from : (ℕ → ℕ) → ℕ → ℕ → ℕ → Bytes
digits_from byte radix zero n = []
digits_from byte radix (suc k) n = byte (n / radix ^ k % radix) ∷ digits_from byte radix k n

next_digit :
    (radix q b : ℕ)
    → 0 < radix
    → q ≤ usize_max
    → to_digit b radix ≡ some (q % radix)
    → next_number radix (q / radix) b ≡ some q
unfolding next_number
next_digit radix q b pos small e =
    let whole : q / radix * radix + q % radix ≡ q = div-add-mod' q radix in
    rw (e, below (q / radix * radix) (omega arith), whole, below q small)
  where
    below : (n : ℕ) → n ≤ usize_max → leb n usize_max ≡ true
    below n h = ground arith

module _ (byte : ℕ → ℕ) (radix : ℕ) (pos : 0 < radix)
    (reads : (d : ℕ) → d < radix → to_digit (byte d) radix ≡ some d) where
  fold_digits_from :
      (k n : ℕ)
      → n ≤ usize_max
      → fold_digits radix (n / radix ^ k) (digits_from byte radix k n) ≡ some n
  unfolding fold_digits digits_from
  fold_digits_from zero n small = ap some (rw pow-zero (div-one n))
  fold_digits_from (suc k) n small =
      let higher : n / radix ^ suc k ≡ n / radix ^ k / radix =
        ap (◌/◌ n) (pow-suc radix k) ∙ sym (div-div-eq-div-mul n (radix ^ k) radix) in
      rw
        (
          higher,
          next_digit radix (n / radix ^ k) _ pos (omega (arith, div-le_self n (radix ^ k)))
              (reads _ (mod-lt _ pos)),
        )
        (fold_digits_from k n small)

  -- A number below `radix ^ k` is read back from its `k` digits, at least one.
  pub parse_number-digits_from :
      (k n : ℕ)
      → n < radix ^ suc k
      → n ≤ usize_max
      → parse_number (digits_from byte radix (suc k) n) radix ≡ some n
  parse_number-digits_from k n fits small =
      let top : n / radix ^ suc k ≡ 0 = div-eq_of_lt fits in
      unfold parse_number digits_from in rw top at (fold_digits_from (suc k) n small)
