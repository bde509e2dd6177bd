-- ===== src/Connection/Gives.antt =====
-- crates/h11r/src/connection/send.rs: what holds of a result whenever it is returned.
use h11r.Prelude.{◌≡◌, refl, subst, Bool, true, false, if◌then◌else◌, Result, ok, err, on_ok}
use h11r.Connection.{Connection, Outcome, and_then, attempt}

-- A result that is `Ok` has the property.
pub record Gives {E A : Type 0} (P : A → Type 0) (r : Result E A) : Type 0 where
  pub gives : (a : A) → r ≡ ok a → P a

module _ {E A : Type 0} (P : A → Type 0) where
  pub Gives-ok : (a : A) → P a → Gives {E = E} P (ok a)
  Gives-ok a p = record { gives = λ b h. subst P (let e : a ≡ b = cc in e) p }

  pub Gives-err : (e : E) → Gives P (err e)
  Gives-err e = record { gives = λ b h. absurd (cc) }

  pub Gives-if :
      (b : Bool) (r s : Result E A) → Gives P r → Gives P s → Gives P (if b then r else s)
  Gives-if true r s g k = g
  Gives-if false r s g k = k

module _ {E A B : Type 0} (P : B → Type 0) where
  pub Gives-on_ok :
      (r : Result E A) (f : A → Result E B)
      → ((a : A) → r ≡ ok a → Gives P (f a))
      → Gives P (on_ok r f)
  Gives-on_ok (ok a) f g = g a refl
  Gives-on_ok (err e) f g = Gives-err P e

  pub Gives-attempt :
      (c : Connection) (r : Result E A) (next : A → Outcome E B)
      → ((a : A) → r ≡ ok a → Gives P (next a).1)
      → Gives P (attempt c r next).1
  Gives-attempt c (ok a) next g = g a refl
  Gives-attempt c (err e) next g = Gives-err P e

  pub Gives-and_then :
      (o : Outcome E A) (next : Connection → A → Outcome E B)
      → ((d : Connection) (a : A) → Gives P (next d a).1)
      → Gives P (and_then o next).1
  Gives-and_then (d, ok a) next g = g d a
  Gives-and_then (d, err e) next g = Gives-err P e

pub Gives-outcome_if :
    {E A : Type 0} (P : A → Type 0) (b : Bool) (o p : Outcome E A)
    → Gives P o.1
    → Gives P p.1
    → Gives P (if b then o else p).1
Gives-outcome_if P true o p g k = g
Gives-outcome_if P false o p g k = k
