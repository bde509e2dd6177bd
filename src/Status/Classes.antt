-- ===== src/Status/Classes.antt =====
-- crates/h11r/src/status.rs: the classes of the accepted codes.
use h11r.Prelude.{ℕ, ◌/◌, ◌≤◌, ◌≡◌, arith, ok, ◌==◌}
use h11r.Status.{
  StatusCode, from_u16, is_informational, is_success, is_redirection, is_client_error,
  is_server_error,
}

-- A code is accepted only in the range 100 to 599, it is kept as it is, and each class test holds
-- exactly when the first of its three digits is that of the class.
pub from_u16-classes :
    (value : ℕ) {s : StatusCode}
    → from_u16 value ≡ ok s
    → (s.as_u16 ≡ value)
      × (100 ≤ value)
      × (value ≤ 599)
      × (is_informational s ≡ (value / 100 == 1))
      × (is_success s ≡ (value / 100 == 2))
      × (is_redirection s ≡ (value / 100 == 3))
      × (is_client_error s ≡ (value / 100 == 4))
      × (is_server_error s ≡ (value / 100 == 5))
unfolding from_u16 is_informational is_success is_redirection is_client_error is_server_error
from_u16-classes value h = ground arith
