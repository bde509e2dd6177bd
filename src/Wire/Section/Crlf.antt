-- ===== src/Wire/Section/Crlf.antt =====
-- crates/h11r/src/wire/chunked.rs: the search for a CRLF goes on where it stopped.
use mathlib.Core.Option
use h11r.Prelude.{
  ℕ, zero, suc, ◌+◌, ◌-◌, ◌≤◌, ◌≡◌, refl, ap, sym, ◌∙◌, arith, Option, none, some, [], ◌∷◌, ◌++◌,
  Bytes, length, drop,
}
use h11r.Wire.Section.{crlf_position, find_crlf}

shifted : ℕ → Option ℕ → Option ℕ
shifted n none = none
shifted n (some at) = some (n + at)

shifted-suc : (n : ℕ) (o : Option ℕ) → Option.map suc (shifted n o) ≡ shifted (suc n) o
unfolding shifted
shifted-suc n none = refl
shifted-suc n (some at) = ap some (omega arith)

shifted_zero : (o : Option ℕ) → o ≡ shifted 0 o
unfolding shifted
shifted_zero none = refl
shifted_zero (some at) = ap some (omega arith)

pair_skipped :
    (x y : ℕ) (rest more : Bytes)
    → crlf_position (x ∷ (y ∷ rest)) ≡ none
    → (crlf_position (y ∷ rest) ≡ none)
      × (crlf_position (x ∷ (y ∷ (rest ++ more)))
          ≡ Option.map suc (crlf_position (y ∷ (rest ++ more))))
unfolding crlf_position
pair_skipped x y rest more h = ground (arith)

-- Data with no CRLF hides none but one that its last byte begins.
position-resume :
    (bytes more : Bytes)
    → crlf_position bytes ≡ none
    → crlf_position (bytes ++ more)
      ≡ shifted (length bytes - 1) (crlf_position (drop (length bytes - 1) (bytes ++ more)))
position-resume [] more h = shifted_zero (crlf_position more)
position-resume (x ∷ []) more h = shifted_zero (crlf_position (x ∷ more))
position-resume (x ∷ (y ∷ rest)) more h =
    let (later, skipped) = pair_skipped x y rest more h in
    let size : suc (suc (length rest)) - 1 ≡ suc (length rest) = omega arith in
    let tail_size : suc (length rest) - 1 ≡ length rest = omega arith in
    let tail_found = rw tail_size at (position-resume (y ∷ rest) more later) in
    rw size (skipped ∙ ap (Option.map suc) tail_found ∙ shifted-suc (length rest) _)

find_of_position :
    (start : ℕ) (o : Option ℕ)
    → Option.map (λ at. start + at + 2) o ≡ Option.map (λ at. 0 + at + 2) (shifted start o)
unfolding shifted
find_of_position start none = refl
find_of_position start (some at) = ap some (omega arith)

-- While the data holds no CRLF the reader may note its length less one, and after any further data
-- the search from that note finds what a search from the start of all the data would find.
pub find_crlf-resume :
    (bytes more : Bytes)
    → find_crlf bytes 0 ≡ none
    → find_crlf (bytes ++ more) (length bytes - 1) ≡ find_crlf (bytes ++ more) 0
unfolding find_crlf
find_crlf-resume bytes more h =
    find_of_position (length bytes - 1) (crlf_position (drop (length bytes - 1) (bytes ++ more)))
    ∙ ap (Option.map (λ at. 0 + at + 2))
        (sym (position-resume bytes more (unmap (crlf_position bytes) h)))
  where
    unmap : (o : Option ℕ) → Option.map (λ at. 0 + at + 2) o ≡ none → o ≡ none
    unmap none e = refl
    unmap (some at) e = cc

drop-[] : (n : ℕ) → drop {A = ℕ} n [] ≡ []
drop-[] zero = refl
drop-[] (suc n) = refl

-- A line that is found ends behind its CRLF, and lies in some bytes.
pub find_crlf-some :
    (bytes : Bytes) (start end : ℕ)
    → find_crlf bytes start ≡ some end
    → (1 ≤ length bytes) × (2 ≤ end)
unfolding find_crlf
find_crlf-some bytes start end h =
    (by_bytes bytes h, by_position (crlf_position (drop start bytes)) h)
  where
    by_position : (o : Option ℕ) → Option.map (λ at. start + at + 2) o ≡ some end → 2 ≤ end
    by_position none e = absurd (cc)
    by_position (some at) e = ground (arith, e)

    by_bytes :
        (bytes : Bytes)
        → Option.map (λ at. start + at + 2) (crlf_position (drop start bytes)) ≡ some end
        → 1 ≤ length bytes
    by_bytes [] e = absurd (cc (rw (drop-[] start) at e))
    by_bytes (x ∷ xs) e = omega arith
