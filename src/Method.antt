-- ===== src/Method.antt =====
-- crates/h11r/src/method.rs: token bytes and request methods.
pub mod Tokens
use h11r.Prelude.{
  ℕ, zero, suc, ◌+◌, Bool, true, false, not, ◌&&◌, ◌||◌, List, [], ◌∷◌, Bytes, codes, all, is_empty,
  within, ◌==◌, if◌then◌else◌, Result, ok, err, bytes_eq,
}

-- RFC 9110 `tchar`
unfoldable pub is_tchar : ℕ → Bool
is_tchar b =
    within b'a' b'z' b
    || within b'A' b'Z' b
    || within b'0' b'9' b
    || b == 0x21
    || within 0x23 0x27 b
    || within 0x2a 0x2b b
    || within 0x2d 0x2e b
    || within 0x5e 0x60 b
    || b == 0x7c
    || b == 0x7e

-- The loop that fills `TOKEN_BYTES`, with the rounds that are left.
fill_table : ℕ → ℕ → List Bool
fill_table zero byte = []
fill_table (suc rounds) byte = is_tchar byte ∷ fill_table rounds (byte + 1)

token_bytes : List Bool
unfolding fill_table is_tchar
token_bytes = fill_table 256 0

look_up : List Bool → ℕ → Bool
look_up [] i = false
look_up (x ∷ xs) zero = x
look_up (x ∷ xs) (suc i) = look_up xs i

unfoldable pub is_token_byte : ℕ → Bool
unfolding token_bytes look_up
is_token_byte byte = look_up token_bytes byte

-- A method owns its bytes or borrows static ones; the bytes are the same.
pub record Method : Type 0 where
  pub as_bytes : Bytes

pub data InvalidMethod : Type 0 where
  invalid_method : InvalidMethod

abbrev pub method_eq : Method → Method → Bool
method_eq m n = bytes_eq m.as_bytes n.as_bytes

abbrev pub named : Bytes → Method
named b = record { as_bytes = b }

unfoldable pub from_bytes : Bytes → Result InvalidMethod Method
unfolding is_token_byte
from_bytes value =
    if is_empty value || not (all is_token_byte value) then err invalid_method else ok (named value)
