-- ===== src/Prelude/Loops.antt =====
-- `while` loops on fuel, and the rule that tells when the fuel suffices.
use Prim.Native.Nat.{ℕ, zero, suc, ◌<◌}
use mathlib.Core.Path.{◌≡◌}
use mathlib.Core.Logic.{inl, inr}
use mathlib.Core.Bool.{Bool, true, false}
use native.Mathlib.Omega.{arith}
use h11r.Prelude.Tests.{Bool-cases}

-- `while go_on(s) { s = step(s) }`, or the state at hand once the fuel is used up.
unfoldable pub run_while {ℓ} : {A : Type ℓ} → (A → Bool) → (A → A) → ℕ → A → A
run_while go_on step zero a = a
run_while go_on step (suc left) a = elim (go_on a) [
  | false ↦ a
  | true ↦ run_while go_on step left (step a)
]

-- What one round has to do: it keeps what holds of the state, and makes it smaller.
abbrev pub Shrinks {ℓ κ} : {A : Type ℓ} → (A → ℕ) → (A → A) → (A → Type κ) → A → Type κ
Shrinks size step Holds a = Holds (step a) × (size (step a) < size a)

module _ {ℓ κ} {A : Type ℓ} {Holds : A → Type κ} (size : A → ℕ) (go_on : A → Bool)
    (step : A → A) where
  -- If every round shrinks the state, then with more fuel than its size the loop is left by its test.
  pub run_while_ends :
      ((a : A) → Holds a → go_on a ≡ true → Shrinks size step Holds a)
      → (fuel : ℕ) (a : A) → Holds a
      → size a < fuel
      → (go_on (run_while go_on step fuel a) ≡ false) × Holds (run_while go_on step fuel a)
  unfolding run_while
  run_while_ends round zero a holds small = absurd (omega arith)
  run_while_ends round (suc left) a holds small = elim (Bool-cases (go_on a)) [
    | inr stop ↦ rw (stop, run_while) (stop, holds)
    | inl again ↦
        let (later, smaller) = round a holds again in
        rw (again, run_while) (run_while_ends round left (step a) later (omega arith))
  ]
