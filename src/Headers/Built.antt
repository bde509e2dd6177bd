-- ===== src/Headers/Built.antt =====
-- crates/h11r/src/headers.rs: the sections that the operations build, and their cached flag.
use h11r.Prelude.{◌≡◌, Bool, List, Bytes, all}
use h11r.Headers.{
  Range, Field, Headers, new, from_section, field_valid, push, iter, is_valid, retain, extend,
}
use h11r.Headers.Entries.{
  AllInside, IsWellFormed, new-IsWellFormed, from_section-IsWellFormed, push-IsWellFormed,
  retain-IsWellFormed, iter-extend, is_valid-eq-all,
}

-- The sections that the operations build: from nothing, or from the ranges that a parser found in its bytes.
pub data Built : Headers → Type 0 where
  empty : Built new
  parsed :
      (section : Bytes) (fields : List (Range × Range))
      → AllInside section fields
      → Built (from_section section fields)
  pushed : {h : Headers} (name value : Bytes) → Built h → Built (push h name value)
  retained : {h : Headers} (keep : Bytes → Bytes → Bool) → Built h → Built (retain h keep)
  extended : {h : Headers} (fields : List Field) → Built h → Built (extend h fields)

pub Built-IsWellFormed : {h : Headers} → Built h → IsWellFormed h
Built-IsWellFormed empty = new-IsWellFormed
Built-IsWellFormed (parsed section fields h) = from_section-IsWellFormed section fields h
Built-IsWellFormed (pushed {h} name value b) = push-IsWellFormed h name value (Built-IsWellFormed b)
Built-IsWellFormed (retained {h} keep b) = retain-IsWellFormed h keep (Built-IsWellFormed b)
Built-IsWellFormed (extended {h} fields b) = (iter-extend h fields (Built-IsWellFormed b)).1

-- Whatever pushes, extensions and removals built a section, in any order, from nothing or from ranges that a
-- parser found within its bytes, the flag that they cache never changes the answer: `is_valid` holds
-- exactly when every field that is there has a name and a value that may be sent.
pub Built-is_valid : {h : Headers} → Built h → is_valid h ≡ all field_valid (iter h)
Built-is_valid {h} b = is_valid-eq-all h (Built-IsWellFormed b)
