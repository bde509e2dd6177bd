-- ===== src/Wire/Target.antt =====
-- crates/h11r/src/wire/target.rs: request targets and authorities.
pub mod Ipv6
use h11r.Prelude.{
  ℕ, zero, suc, ◌+◌, ◌-◌, ◌*◌, Bool, true, false, not, ◌&&◌, ◌||◌, Option, none, some, List, [],
  ◌∷◌, Bytes, codes, length, take, drop, all, is_empty, within, ltb, leb, ◌==◌, if◌then◌else◌,
  bytes_eq,
}
use h11r.Wire.Elements.{position}
use h11r.Wire.Target.Ipv6.{parses_as_ipv6}

abbrev pub is_ascii_digit : ℕ → Bool
is_ascii_digit b = within b'0' b'9' b

abbrev pub is_ascii_alphabetic : ℕ → Bool
is_ascii_alphabetic b = within b'a' b'z' b || within b'A' b'Z' b

abbrev pub is_ascii_hexdigit : ℕ → Bool
is_ascii_hexdigit b = within b'0' b'9' b || within b'a' b'f' b || within b'A' b'F' b

unfoldable pub is_unreserved : ℕ → Bool
is_unreserved b =
    is_ascii_alphabetic b || is_ascii_digit b || b == b'-' || b == b'.' || b == b'_' || b == b'~'

unfoldable pub is_sub_delim : ℕ → Bool
is_sub_delim b = b == b'!' || b == b'$' || within 0x26 0x2c b || b == b';' || b == b'='

unfoldable pub split_at_byte : Bytes → ℕ → Option (Bytes × Bytes)
unfolding position
split_at_byte value needle = elim (position (λ b. b == needle) value) [
  | none ↦ none
  | some at ↦ some (take at value, drop (at + 1) value)
]

-- The loop of `valid_percent_encoded`, over the bytes that are left.
valid_percent_encoded : (ℕ → Bool) → Bytes → Bool
valid_percent_encoded allowed [] = true
valid_percent_encoded allowed (b ∷ []) = not (b == b'%') && allowed b
valid_percent_encoded allowed (b ∷ (c ∷ [])) =
    let plain = valid_percent_encoded allowed (c ∷ []) in not (b == b'%') && (allowed b && plain)
valid_percent_encoded allowed (b ∷ (c ∷ (d ∷ rest))) =
    let escaped = valid_percent_encoded allowed rest in
    let plain = valid_percent_encoded allowed (c ∷ (d ∷ rest)) in
    if b == b'%'
    then is_ascii_hexdigit c && (is_ascii_hexdigit d && escaped)
    else allowed b && plain

unfoldable pub valid_reg_name : Bytes → Bool
unfolding valid_percent_encoded is_unreserved is_sub_delim
valid_reg_name value = valid_percent_encoded (λ b. is_unreserved b || is_sub_delim b) value

-- `"v" 1*HEXDIG "." 1*( unreserved / sub-delims / ":" )` with the dot at `dot`
valid_ip_future : Bytes → Option ℕ → Bool
valid_ip_future value none = false
valid_ip_future value (some dot) =
    ltb 1 dot
    && (all is_ascii_hexdigit (take (dot - 1) (drop 1 value))
        && (not (is_empty (drop (dot + 1) value))
            && all (λ b. is_unreserved b || is_sub_delim b || b == b':') (drop (dot + 1) value)))

first_is_v : Bytes → Bool
first_is_v [] = false
first_is_v (b ∷ bs) = b == b'v' || b == b'V'

unfoldable pub valid_ip_literal : Bytes → Bool
unfolding valid_ip_future first_is_v is_unreserved is_sub_delim position
valid_ip_literal value =
    parses_as_ipv6 value
    || (first_is_v value && valid_ip_future value (position (λ b. b == b'.') value))

-- `port.is_none_or(all digits).then_some(port)`
digits_or_none : Option Bytes → Option (Option Bytes)
digits_or_none none = some none
digits_or_none (some port) = if all is_ascii_digit port then some (some port) else none

-- What follows the closing bracket.
bracket_port : Bytes → Option (Option Bytes)
bracket_port [] = some none
bracket_port (b ∷ rest) = if b == b':' then digits_or_none (some rest) else none

ip_port : Bytes → Option ℕ → Option (Option Bytes)
ip_port value none = none
ip_port value (some close) =
    if valid_ip_literal (take (close - 1) (drop 1 value))
    then bracket_port (drop (close + 1) value)
    else none

count_byte : ℕ → Bytes → ℕ
count_byte needle [] = 0
count_byte needle (b ∷ bs) = (if b == needle then 1 else 0) + count_byte needle bs

name_port : Bytes → Option (Bytes × Bytes) → Option (Option Bytes)
name_port value none = if valid_reg_name value then some none else none
name_port value (some (host, port)) =
    if valid_reg_name host then digits_or_none (some port) else none

starts_with_byte : ℕ → Bytes → Bool
starts_with_byte needle [] = false
starts_with_byte needle (b ∷ bs) = b == needle

unfoldable pub authority_port : Bytes → Option (Option Bytes)
unfolding ip_port name_port bracket_port digits_or_none count_byte starts_with_byte valid_ip_literal
    valid_reg_name split_at_byte position
authority_port value =
    if starts_with_byte b'[' value
    then ip_port value (position (λ b. b == b']') value)
    else if ltb 1 (count_byte b':' value)
    then none
    else name_port value (split_at_byte value b':')

-- `port.parse::<u16>()` of digits, one at a time with its overflow checks
parse_u16 : ℕ → Bytes → Option ℕ
parse_u16 acc [] = some acc
parse_u16 acc (b ∷ bs) =
    let next = acc * 10 + (b - b'0') in
    let rest = parse_u16 next bs in if is_ascii_digit b && leb next 65535 then rest else none

-- The sign that an unsigned number may have, if digits follow it.
strip_plus : Bytes → Bytes
strip_plus [] = []
strip_plus (b ∷ []) = b ∷ []
strip_plus (b ∷ (c ∷ cs)) = if b == b'+' then c ∷ cs else b ∷ (c ∷ cs)

unfoldable pub valid_tcp_port : Bytes → Bool
unfolding parse_u16 strip_plus
valid_tcp_port port =
    not (is_empty port)
    && elim (parse_u16 0 (strip_plus port)) [ none ↦ false | some n ↦ not (n == 0) ]

valid_scheme : Option (Bytes × Bytes) → Bool
valid_scheme none = false
valid_scheme (some (scheme, _)) =
    all (λ b. is_ascii_alphabetic b || is_ascii_digit b || b == b'+' || b == b'-' || b == b'.')
      scheme

first_alphabetic : Bytes → Bool
first_alphabetic [] = false
first_alphabetic (b ∷ bs) = is_ascii_alphabetic b

unfoldable pub has_scheme : Bytes → Bool
unfolding valid_scheme first_alphabetic split_at_byte
has_scheme target = first_alphabetic target && valid_scheme (split_at_byte target b':')

abbrev pub is_target_byte : ℕ → Bool
is_target_byte b = within 0x21 0x7e b && not (b == b'#')

tunnel_port : Option (Option Bytes) → Bool
tunnel_port none = false
tunnel_port (some none) = false
tunnel_port (some (some port)) = valid_tcp_port port

unfoldable pub valid_request_target : Bytes → Bytes → Bool
unfolding tunnel_port valid_tcp_port authority_port has_scheme starts_with_byte
valid_request_target method target =
    if is_empty target || not (all is_target_byte target)
    then false
    else if bytes_eq method (codes "CONNECT")
    then tunnel_port (authority_port target)
    else if bytes_eq target (codes "*")
    then bytes_eq method (codes "OPTIONS")
    else starts_with_byte b'/' target || has_scheme target
