-- ===== src/Wire/Target/Ipv6.antt =====
-- The standard library's `Ipv6Addr` parser, which crates/h11r/src/wire/target.rs applies to the
-- inside of an IP literal. Only whether the text parses is modelled, not the address.
use h11r.Prelude.{
  ℕ, zero, suc, ◌+◌, ◌-◌, ◌*◌, Bool, true, false, ◌&&◌, ◌||◌, Option, none, some, [], ◌∷◌, Bytes,
  is_empty, ltb, leb, ◌==◌, if◌then◌else◌,
}
use h11r.Wire.Number.{to_digit, ◌>>=◌}

-- `read_given_char`: the text behind the byte.
read_byte : ℕ → Bytes → Option Bytes
read_byte b [] = none
read_byte b (x ∷ xs) = if x == b then some xs else none

-- The digits of `read_number`: their number and the text behind them, unless there are too many or
-- the value passes the bound of its type.
read_digits : ℕ → ℕ → ℕ → ℕ → ℕ → Bytes → Option (ℕ × Bytes)
read_digits radix most bound count value [] = some (count, [])
read_digits radix most bound count value (x ∷ xs) = elim (to_digit x radix) [
  | none ↦ some (count, x ∷ xs)
  | some d ↦
      let rest = read_digits radix most bound (count + 1) (value * radix + d) xs in
      if leb (value * radix + d) bound && leb (count + 1) most then rest else none
]

starts_with_zero : Bytes → Bool
starts_with_zero [] = false
starts_with_zero (x ∷ xs) = x == b'0'

accept_digits : Bool → Option (ℕ × Bytes) → Option Bytes
accept_digits no_padding none = none
accept_digits no_padding (some (count, rest)) =
    if count == 0 || (no_padding && ltb 1 count) then none else some rest

read_group : Bytes → Option Bytes
read_group xs = accept_digits false (read_digits 16 4 65535 0 0 xs)

read_octet : Bytes → Option Bytes
read_octet xs = accept_digits (starts_with_zero xs) (read_digits 10 3 255 0 0 xs)

-- `read_separator`
after_separator : ℕ → ℕ → (Bytes → Option Bytes) → Bytes → Option Bytes
after_separator sep zero inner xs = inner xs
after_separator sep (suc index) inner xs = read_byte sep xs >>= inner

read_ipv4 : Bytes → Option Bytes
read_ipv4 xs = do
  a ← read_octet xs
  b ← after_separator b'.' 1 read_octet a
  c ← after_separator b'.' 2 read_octet b
  after_separator b'.' 3 read_octet c

record Groups : Type 0 where
  count : ℕ
  ipv4 : Bool
  rest : Bytes

-- `read_groups` at the group `index` of a slice with `left` groups left.
read_groups : ℕ → ℕ → Bytes → Groups
read_groups zero index xs = record { count = index; ipv4 = false; rest = xs }
read_groups (suc left) index xs =
    elim (if ltb 0 left then after_separator b':' index read_ipv4 xs else none) [
      | some rest ↦ record { count = index + 2; ipv4 = true; rest = rest }
      | none ↦ elim (after_separator b':' index read_group xs) [
        | some rest ↦ read_groups left (index + 1) rest
        | none ↦ record { count = index; ipv4 = false; rest = xs }
      ]
    ]

read_ipv6 : Bytes → Option Bytes
read_ipv6 xs =
    let head = read_groups 8 0 xs in
    if head.count == 8 then some head.rest else if head.ipv4 then none else (do
      one ← read_byte b':' head.rest
      two ← read_byte b':' one
      some (read_groups (8 - (head.count + 1)) 0 two).rest)

-- `value.parse::<Ipv6Addr>().is_ok()`: all of the text must be read.
unfoldable pub parses_as_ipv6 : Bytes → Bool
unfolding read_ipv6 read_groups read_ipv4 after_separator read_octet read_group accept_digits
    read_digits starts_with_zero read_byte to_digit
parses_as_ipv6 value = elim (read_ipv6 value) [ none ↦ false | some rest ↦ is_empty rest ]
