-- ===== src/Status.antt =====
-- crates/h11r/src/status.rs: status codes in the range 100 to 599.
pub mod Classes
use h11r.Prelude.{ℕ, Bool, true, false, ◌&&◌, ltb, leb, if◌then◌else◌, Result, ok, err}

pub record StatusCode : Type 0 where
  pub as_u16 : ℕ

pub data InvalidStatusCode : Type 0 where
  invalid_status_code : InvalidStatusCode

unfoldable pub from_u16 : ℕ → Result InvalidStatusCode StatusCode
from_u16 value =
    if leb 100 value && leb value 599
    then ok (record { as_u16 = value })
    else err invalid_status_code

unfoldable pub is_informational : StatusCode → Bool
is_informational s = ltb s.as_u16 200

unfoldable pub is_success : StatusCode → Bool
is_success s = leb 200 s.as_u16 && ltb s.as_u16 300

unfoldable pub is_redirection : StatusCode → Bool
is_redirection s = leb 300 s.as_u16 && ltb s.as_u16 400

unfoldable pub is_client_error : StatusCode → Bool
is_client_error s = leb 400 s.as_u16 && ltb s.as_u16 500

unfoldable pub is_server_error : StatusCode → Bool
is_server_error s = leb 500 s.as_u16
