-- ===== src/Wire/Buffer.antt =====
-- crates/h11r/src/wire/buffer.rs: message framing and the receive buffer.
pub mod Queue
use h11r.Prelude.{
  ℕ, ◌+◌, ◌-◌, Bool, true, false, ◌&&◌, List, [], ◌++◌, Bytes, length, take, drop, ltb, leb,
  if◌then◌else◌,
}

pub data Framing : Type 0 where
  fixed : ℕ → Framing
  chunked close_delimited : Framing

pub data Chunk : Type 0 where
  size : ℕ → Chunk
  payload : ℕ → Bool → Chunk
  payload_end trailers : Chunk

pub data Reader : Type 0 where
  head : Reader
  fixed : ℕ → Reader
  chunked : Chunk → Reader
  close_delimited : Reader

unfoldable pub reader : Framing → Reader
reader (Framing.fixed n) = Reader.fixed n
reader Framing.chunked = Reader.chunked (size 0)
reader Framing.close_delimited = Reader.close_delimited

pub record Buffer : Type 0 where
  pub bytes : Bytes
  pub start : ℕ

unfoldable pub new : Buffer
new = record { bytes = []; start = 0 }

unfoldable pub as_slice : Buffer → Bytes
as_slice b = drop b.start b.bytes

-- `copy_within(start.., 0)`, then `truncate(live)`
abbrev moved_down : Bytes → ℕ → ℕ → Bytes
moved_down bytes start live = take live (drop start bytes ++ drop live bytes)

compact : Buffer → Buffer
compact b =
    let live = length b.bytes - b.start in
    if ltb 0 b.start && leb live b.start
    then record { bytes = moved_down b.bytes b.start live; start = 0 }
    else b

append_bytes : Buffer → Bytes → Buffer
append_bytes b added = record b { bytes = b.bytes ++ added }

unfoldable pub extend : Buffer → Bytes → Buffer
unfolding compact append_bytes
extend b added = append_bytes (compact b) added

unfoldable pub consume : Buffer → ℕ → Buffer
consume b count = record b { start = b.start + count }

-- The new buffer, and the bytes that `take` returns.
unfoldable pub take_front : Buffer → ℕ → Buffer × Bytes
unfolding consume
take_front b count =
    let start = b.start in
    let next = consume b count in (next, take (start + count - start) (drop start next.bytes))
