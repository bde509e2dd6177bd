-- ===== src/State/Stable.antt =====
-- crates/h11r/src/state.rs: the loop of `stabilize` ends, and its result is a fixed point.
use h11r.Prelude.{
  ℕ, zero, suc, ◌+◌, ◌≡◌, refl, arith, Bool, true, false, inl, inr, Option, none, some, Bool-cases,
}
use h11r.State.{
  ConnectionState, stabilize_round, stabilize_loop, stabilize_fuel, stabilize, or_unchanged,
  state_unchanged,
}
use h11r.State.Finite.{every_config, every_config_sound, state_unchanged_sound}

abbrev pub IsStable : ConnectionState → Type 0
IsStable c = stabilize_round c ≡ c

abbrev found : Option ConnectionState → Bool
found none = false
found (some _) = true

stabilize_unchanged :
    (every_config λ c. state_unchanged (stabilize_round (stabilize c)) (stabilize c)) ≡ true
unfolding every_config stabilize
stabilize_unchanged = refl

stabilize_found : (every_config λ c. found (stabilize_loop stabilize_fuel c)) ≡ true
unfolding every_config stabilize
stabilize_found = refl

pub stabilize-IsStable : (c : ConnectionState) → IsStable (stabilize c)
stabilize-IsStable c = state_unchanged_sound _ _ (
    every_config_sound (λ d. state_unchanged (stabilize_round (stabilize d)) (stabilize d)) c
      stabilize_unchanged)

-- More fuel leaves a result as it is.
loop_more :
    (n : ℕ) (c d : ConnectionState)
    → stabilize_loop n c ≡ some d
    → stabilize_loop (suc n) c ≡ some d
unfolding stabilize_loop
loop_more zero c d h = cc
loop_more (suc n) c d h = elim (Bool-cases (state_unchanged (stabilize_round c) c)) [
  | inl same ↦ rw (same, stabilize_loop) (rw (same, stabilize_loop) at h)
  | inr moved ↦
      rw (moved, stabilize_loop)
        (loop_more n (stabilize_round c) d (rw (moved, stabilize_loop) at h))
]

some_of_found :
    (c : ConnectionState) (o : Option ConnectionState)
    → found o ≡ true
    → o ≡ some (or_unchanged c o)
unfolding or_unchanged
some_of_found c none h = cc
some_of_found c (some d) h = refl

loop-stabilize : (c : ConnectionState) → stabilize_loop stabilize_fuel c ≡ some (stabilize c)
loop-stabilize c =
    unfold stabilize in
    some_of_found c (stabilize_loop stabilize_fuel c)
      (every_config_sound (λ d. found (stabilize_loop stabilize_fuel d)) c stabilize_found)

-- From every joint state, reachable or not, the loop of `stabilize` ends within four rounds: with
-- that fuel or more it returns the value of `stabilize`, which a further round leaves unchanged.
pub stabilize_terminates :
    (extra : ℕ) (c : ConnectionState)
    → (stabilize_loop (extra + stabilize_fuel) c ≡ some (stabilize c)) × IsStable (stabilize c)
stabilize_terminates extra c = (enough extra, stabilize-IsStable c)
  where
    enough : (k : ℕ) → stabilize_loop (k + stabilize_fuel) c ≡ some (stabilize c)
    enough zero = loop-stabilize c
    enough (suc k) =
        let more : suc k + stabilize_fuel ≡ suc (k + stabilize_fuel) = omega arith in
        rw more (loop_more (k + stabilize_fuel) c (stabilize c) (enough k))
