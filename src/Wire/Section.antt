-- ===== src/Wire/Section.antt =====
-- crates/h11r/src/wire/buffer.rs: the resumable search for the empty line that ends a field section;
-- crates/h11r/src/wire/chunked.rs: the resumable search for a CRLF.
pub mod Resume
pub mod Lines
pub mod Crlf
use mathlib.Core.Option
use h11r.Prelude.{
  ℕ, zero, suc, ◌+◌, ◌-◌, ◌*◌, min, Bool, true, false, not, ◌&&◌, ◌||◌, Option, none, some, List,
  [], ◌∷◌, ◌++◌, Bytes, length, take, drop, all, is_empty, leb, ◌==◌, if◌then◌else◌, bytes_eq,
}

-- `usize::MAX` on a 64-bit target
abbrev pub usize_max : ℕ
usize_max = 18446744073709551615

abbrev pub saturating_mul : ℕ → ℕ → ℕ
saturating_mul a b = min (a * b) usize_max

pub record SectionProgress : Type 0 where
  pub at : ℕ
  pub line_start : ℕ
  pub started : Bool
  pub parsed : ℕ

unfoldable pub fresh : SectionProgress
fresh = record { at = 0; line_start = 0; started = false; parsed = 0 }

-- `data[index] == b'\n'`, for an index within the data
abbrev pub is_newline_at : Bytes → ℕ → Bool
is_newline_at [] i = false
is_newline_at (x ∷ xs) zero = x == b'\n'
is_newline_at (x ∷ xs) (suc i) = is_newline_at xs i

-- `line.is_empty() || line == b"\r"`
abbrev pub blank : Bytes → Bool
blank line = is_empty line || bytes_eq line (b'\r' ∷ [])

-- A line of `data[line_start..at - 1]` has ended; whether the loop returns.
end_line : SectionProgress → Bool → Bool → SectionProgress × Bool
end_line p true skip = (record p { line_start = p.at }, p.started || not skip)
end_line p false skip = (record p { line_start = p.at; started = true }, false)

-- The body of the loop of `poll`.
poll_step : SectionProgress → Bytes → Bool → SectionProgress × Bool
unfolding end_line
poll_step q bytes skip =
    let p = record q { at = q.at + 1 } in
    if is_newline_at bytes (p.at - 1)
    then end_line p (blank (take (p.at - 1 - p.line_start) (drop p.line_start bytes))) skip
    else (p, false)

-- The loop, with the rounds that are left, `data.len() - self.at`.
poll_loop : ℕ → SectionProgress → Bytes → Bool → SectionProgress × Option ℕ
poll_loop zero p bytes skip = (p, none)
poll_loop (suc rounds) p bytes skip =
    let (q, stop) = poll_step p bytes skip in
    elim stop [ true ↦ (q, some q.at) | false ↦ poll_loop rounds q bytes skip ]

unfoldable pub poll : SectionProgress → Bytes → Bool → SectionProgress × Option ℕ
unfolding poll_loop poll_step
poll p bytes skip = poll_loop (length bytes - p.at) p bytes skip

abbrev is_found : Option ℕ → Bool
is_found none = false
is_found (some _) = true

mark_parsed : SectionProgress → ℕ → Bool → SectionProgress × Bool
mark_parsed p len due = (if due then record p { parsed = len } else p, due)

unfoldable pub due : SectionProgress → Bytes → Bool → SectionProgress × Bool
unfolding mark_parsed poll
due p bytes skip =
    if leb (saturating_mul p.parsed 2) (length bytes)
    then mark_parsed p (length bytes) true
    else (let (q, end) = poll p bytes skip in mark_parsed q (length bytes) (is_found end))

-- `split_inclusive(b'\n')`: the lines with their newline, the bytes of the open line being held.
split_lines : Bytes → Bytes → List Bytes
split_lines line [] = if is_empty line then [] else line ∷ []
split_lines line (c ∷ cs) = elim (c == b'\n') [
  | true ↦ (line ++ c ∷ []) ∷ split_lines [] cs
  | false ↦ split_lines (line ++ c ∷ []) cs
]

abbrev empty_line : Bytes → Bool
empty_line line = bytes_eq line (b'\n' ∷ []) || bytes_eq line (b'\r' ∷ b'\n' ∷ [])

unfoldable pub only_empty_lines : Bytes → Bool
unfolding split_lines
only_empty_lines bytes = all empty_line (split_lines [] bytes)

ends_open : Bytes → Bool
ends_open [] = true
ends_open (c ∷ []) = not (c == b'\n')
ends_open (c ∷ (d ∷ ds)) = ends_open (d ∷ ds)

-- `find` the first line that is not empty, and see whether it ends in a newline.
first_open : List Bytes → Bool
first_open [] = false
first_open (line ∷ rest) = if empty_line line then first_open rest else ends_open line

unfoldable pub start_line_unfinished : Bytes → Bool
unfolding split_lines first_open ends_open
start_line_unfinished bytes = first_open (split_lines [] bytes)

-- `windows(2).position(|pair| pair == b"\r\n")`
crlf_position : Bytes → Option ℕ
crlf_position [] = none
crlf_position (x ∷ []) = none
crlf_position (x ∷ (y ∷ rest)) =
    let later = crlf_position (y ∷ rest) in
    if x == b'\r' && y == b'\n' then some 0 else Option.map suc later

unfoldable pub find_crlf : Bytes → ℕ → Option ℕ
unfolding crlf_position
find_crlf bytes start = Option.map (λ at. start + at + 2) (crlf_position (drop start bytes))

last_is_cr : Bytes → Bool
last_is_cr [] = false
last_is_cr (c ∷ []) = c == b'\r'
last_is_cr (c ∷ (d ∷ ds)) = last_is_cr (d ∷ ds)

unfoldable pub incomplete_line_len : Bytes → ℕ
unfolding last_is_cr
incomplete_line_len bytes = length bytes - (if last_is_cr bytes then 1 else 0)
