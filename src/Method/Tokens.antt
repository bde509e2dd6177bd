-- ===== src/Method/Tokens.antt =====
-- crates/h11r/src/method.rs: the table and the accepted methods.
use h11r.Prelude.{
  ℕ, zero, suc, ◌+◌, ◌<◌, ◌≡◌, ◌≢◌, ◌↔◌, refl, ap, ◌∙◌, arith, true, [], ◌∷◌, Bytes, all, ok,
}
use h11r.Method.{is_tchar, fill_table, look_up, is_token_byte, named, from_bytes}

look_up-fill :
    (rounds byte i : ℕ) → i < rounds → look_up (fill_table rounds byte) i ≡ is_tchar (byte + i)
unfolding look_up fill_table
look_up-fill zero byte i h = elim h [ ]
look_up-fill (suc rounds) byte zero h = ap is_tchar (omega arith)
look_up-fill (suc rounds) byte (suc i) h =
    look_up-fill rounds (byte + 1) i (omega arith) ∙ ap is_tchar (omega arith)

-- The table agrees with the definition of `tchar` at every byte.
pub is_token_byte-eq-is_tchar : (byte : ℕ) → byte < 256 → is_token_byte byte ≡ is_tchar byte
is_token_byte-eq-is_tchar byte h =
    let start : 0 + byte ≡ byte = omega arith in
    unfold is_token_byte in look_up-fill 256 0 byte h ∙ ap is_tchar start

abbrev pub AllTchars : Bytes → Type 0
AllTchars [] = Unit
AllTchars (b ∷ bs) = (is_tchar b ≡ true) × AllTchars bs

abbrev pub AllBytes : Bytes → Type 0
AllBytes [] = Unit
AllBytes (b ∷ bs) = (b < 256) × AllBytes bs

all-AllTchars : (bs : Bytes) → AllBytes bs → (all is_token_byte bs ≡ true) ↔ AllTchars bs
all-AllTchars [] h = (λ _. tt, λ _. refl)
all-AllTchars (b ∷ bs) h = (
  λ e. ground (arith, is_token_byte-eq-is_tchar b, (all-AllTchars bs h.1).0),
  λ t. ground (arith, is_token_byte-eq-is_tchar b, (all-AllTchars bs h.1).1),
)

-- A byte string is accepted as a method exactly when it is not empty and all its bytes are `tchar`,
-- and the method then has these very bytes.
pub from_bytes-AllTchars :
    (value : Bytes)
    → AllBytes value
    → (from_bytes value ≡ ok (named value)) ↔ ((value ≢ []) × AllTchars value)
unfolding from_bytes
from_bytes-AllTchars [] h = (λ e. cc, λ t. absurd (t.0 refl))
from_bytes-AllTchars (b ∷ bs) h = (
  λ e. (λ e. cc, (all-AllTchars (b ∷ bs) h).0 (ground arith)),
  λ t. ground (arith, (all-AllTchars (b ∷ bs) h).1 t.1),
)
