-- ===== src/Wire/Buffer/Queue.antt =====
-- crates/h11r/src/wire/buffer.rs: the buffer refines a queue of bytes.
use h11r.Prelude.{
  ℕ, ◌+◌, ◌-◌, ◌≤◌, ◌<◌, ◌≡◌, ap, ◌∙◌, ◌⊎◌, arith, ◌++◌, Bytes, length, take, drop, length-append,
  length-drop, drop_add, drop-append_le, take_append, length-take, ltb, leb, ◌&&◌, Bool-cases, inl,
  inr,
}
use h11r.Wire.Buffer.{Buffer, as_slice, moved_down, compact, extend, consume, take_front}

-- The consumed part lies within the bytes.
abbrev pub IsWellFormed : Buffer → Type 0
IsWellFormed b = b.start ≤ length b.bytes

moved_down-eq-drop :
    (bytes : Bytes) (start live : ℕ)
    → live ≡ length bytes - start
    → moved_down bytes start live ≡ drop start bytes
moved_down-eq-drop bytes start live e =
    let size : live ≡ length (drop start bytes) = omega (arith, length-drop start bytes) in
    ap (λ n. take n (drop start bytes ++ drop live bytes)) size
    ∙ take_append (drop start bytes) (drop live bytes)

-- Compaction keeps the live bytes, and moves them only where it discards at least as many.
compact_lem :
    (b : Buffer)
    → IsWellFormed b
    → (as_slice (compact b) ≡ as_slice b)
      × IsWellFormed (compact b)
      × ((compact b).start ≤ b.start)
      × ((compact b).start ≡ 0 ⊎ (compact b).start < length (as_slice b))
unfolding compact as_slice
compact_lem b w = ground (
  arith,
  moved_down-eq-drop b.bytes b.start (length b.bytes - b.start),
  length-drop b.start b.bytes,
)

-- On a well-formed buffer, and for a count of no more bytes than it holds: `extend` appends at
-- the back, `consume` drops from the front, `take` hands out the bytes that it drops, and the
-- buffer stays well formed.
pub queue_refined :
    (b : Buffer) (added : Bytes) (count : ℕ)
    → IsWellFormed b
    → count ≤ length (as_slice b)
    → (as_slice (extend b added) ≡ as_slice b ++ added)
      × (as_slice (consume b count) ≡ drop count (as_slice b))
      × (take_front b count ≡ (consume b count, take count (as_slice b)))
      × IsWellFormed (extend b added)
      × IsWellFormed (consume b count)
queue_refined b added count w fits = (extended, consumed, taken, extended_well, consumed_well)
  where
    packed : Buffer
    packed = compact b

    extended : as_slice (extend b added) ≡ as_slice b ++ added
    extended =
        unfold extend as_slice in
        drop-append_le packed.start packed.bytes added (compact_lem b w).1
        ∙ ap (λ xs. xs ++ added) (unfold as_slice in (compact_lem b w).0)

    extended_well : IsWellFormed (extend b added)
    extended_well =
        unfold extend in omega (arith, length-append packed.bytes added, (compact_lem b w).1)

    consumed : as_slice (consume b count) ≡ drop count (as_slice b)
    consumed = unfold consume as_slice in drop_add b.start count b.bytes

    consumed_well : IsWellFormed (consume b count)
    consumed_well = unfold consume as_slice in omega (arith, length-drop b.start b.bytes)

    taken : take_front b count ≡ (consume b count, take count (as_slice b))
    taken =
        let e : b.start + count - b.start ≡ count = omega arith in
        unfold take_front as_slice in rw e

-- Whatever the buffer, `extend` adds no more than the bytes given.
pub length-extend :
    (b : Buffer) (added : Bytes)
    → length (as_slice (extend b added)) ≤ length (as_slice b) + length added
unfolding extend compact as_slice
length-extend b added = elim (Bool-cases (ltb 0 b.start && leb live b.start)) [
  | inl moves ↦ rw moves (
      omega (
        arith,
        length-append (moved_down b.bytes b.start live) added,
        length-take live (drop b.start b.bytes ++ drop live b.bytes),
        length-drop b.start b.bytes,
      ))
  | inr stays ↦
      let within : b.start ≤ length b.bytes = ground (arith, stays) in
      rw stays (
        omega (
          arith,
          within,
          length-drop b.start (b.bytes ++ added),
          length-append b.bytes added,
          length-drop b.start b.bytes,
        ))
]
  where
    live : ℕ
    live = length b.bytes - b.start
