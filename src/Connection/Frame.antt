-- ===== src/Connection/Frame.antt =====
-- crates/h11r/src/connection: what every step keeps is kept behind `?`, and by either branch.
use h11r.Prelude.{Bool, true, false, Option, none, some, Result, ok, err, if◌then◌else◌}
use h11r.Connection.{Connection, Outcome, and_then, attempt, require}

module _ (P : Connection → Type 0) {E A B : Type 0} where
  pub and_then-kept :
      (o : Outcome E A) (next : Connection → A → Outcome E B)
      → P o.0
      → ((d : Connection) (a : A) → P d → P (next d a).0)
      → P (and_then o next).0
  and_then-kept (d, ok a) next h k = k d a h
  and_then-kept (d, err e) next h k = h

  pub attempt-kept :
      {d : Connection} (r : Result E A) (next : A → Outcome E B)
      → P d
      → ((a : A) → P (next a).0)
      → P (attempt d r next).0
  attempt-kept (ok a) next h k = k a
  attempt-kept (err e) next h k = h

  pub require-kept :
      {d : Connection} (r : Option A) (e : E) (next : A → Outcome E B)
      → P d
      → ((a : A) → P (next a).0)
      → P (require d r e next).0
  require-kept (some a) e next h k = k a
  require-kept none e next h k = h

module _ (P : Connection → Type 0) where
  pub if-kept :
      {A : Type 0} (b : Bool) (o p : Connection × A) → P o.0 → P p.0 → P (if b then o else p).0
  if-kept true o p h k = h
  if-kept false o p h k = k

  pub choice-kept : (b : Bool) (c d : Connection) → P c → P d → P (if b then c else d)
  choice-kept true c d h k = h
  choice-kept false c d h k = k

module _ (P : Connection → Type 0) {A B : Type 0} where
  pub option-kept :
      (o : Option A) (x : Connection × B) (f : A → Connection × B)
      → P x.0
      → ((a : A) → P (f a).0)
      → P (elim o as (λ _. Connection × B) [ none ↦ x | some a ↦ f a ]).0
  option-kept none x f h k = h
  option-kept (some a) x f h k = k a
