-- ===== src/Wire/Errors.antt =====
-- crates/h11r/src/lib.rs and wire/mod.rs: the errors of the two sides.
use Prim.Native.String.{String}
use h11r.Prelude.{ℕ, Option}

pub record LocalProtocolError : Type 0 where
  pub message : String

pub record RemoteProtocolError : Type 0 where
  pub message : String
  pub suggested_status_code : Option ℕ

abbrev pub local : String → LocalProtocolError
local message = record { message = message }

abbrev pub remote : String → Option ℕ → RemoteProtocolError
remote message status = record { message = message; suggested_status_code = status }
