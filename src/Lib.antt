-- ===== src/Lib.antt =====
-- h11r: an HTTP/1.1 connection without I/O, modelled from the Rust crate crates/h11r.
--
-- The program. A `Connection` (crates/h11r/src/connection) turns received bytes into events and local
-- events into bytes. It keeps the joint state of the two actors (state.rs), a receive buffer and the
-- framing of the message in each direction (wire/buffer.rs), and what one request/response cycle needs.
-- Field sections are searched for their end (wire/buffer.rs), parsed by the httparse crate (wire/head.rs,
-- wire/chunked.rs), and read for their framing and connection fields in one pass (wire/fields.rs);
-- targets and authorities are checked by wire/target.rs.
-- The Python classes (crates/h11r-python/src/api) read their arguments from Python objects, call the
-- connection, and queue received `bytes` that it counts as body instead of copying them.
--
-- The files. Each module has the functions of its Rust file under their names; its children hold proofs.
--   State, with State/Stable, Invariant, Contract, Finite, Peer, Bodies and Lasting: crates/h11r/src/state.rs
--   Method, Status, Headers, Events: method.rs, status.rs, headers.rs and the types of lib.rs
--   Wire/Buffer, Wire/Section: wire/buffer.rs, and the line searches of wire/chunked.rs and wire/head.rs
--   Wire/Number, Wire/Chunked: numbers, `DataPrefix` (lib.rs) and chunk-size lines (wire/chunked.rs)
--   Wire/Syntax, Elements, Codings, Fields, Lists: wire/fields.rs
--   Wire/Target: wire/target.rs; Wire/Head, Wire/Parse: wire/head.rs and `parse_trailers`
--   Connection: connection/mod.rs; Connection/Send, Connection/Body: connection/send.rs
--   Connection/Receive, with Payload, Accept and Events: connection/receive.rs
--   Connection/Frame, Keeps, Sound, Calls, Later, Unchanged: what calls keep, in any order, and on an
--   error
--   Connection/Gives, OnLines, Heads: what is written, by whatever branch; Lifecycle, Lengths, Chunks,
--   Complete: reuse, announced bodies, chunks, and whole messages that fail
--   Binding/Buffers, Fields, Events, Connection: the files buffers.rs, headers.rs, events.rs and
--   connection.rs of crates/h11r-python/src/api, with mod.rs; Binding/Python: what they ask of Python
--   Connection/Receive/Progress: what a poll leaves to do, as a number; Fuel/Calm: it does not panic
--   Fuzz, Fuzz/Runs: the files common/mod.rs, h11r_fragmentation.rs and h11r_receive.rs of
--   fuzz/fuzz_targets; Fuzz/Polls, Start, Bounded, Holding and Returns: their loops end,
--   and do not panic
--   Prelude: shared names, byte strings, `Result`, and loops that run while a test holds
--   Tests: the theorems at concrete inputs
--
-- How code becomes definitions. A byte is a number below 256 and a slice or vector a list of bytes; a
-- `usize` is a native number, with the checked and saturating operations of the source written out at
-- 64 bits. A method on `&mut self` takes the connection and returns the connection with its result, so
-- that what an error leaves behind is part of the value; `?` is `and_then`, `attempt` or `require`.
-- A poll that would panic in an `expect` is a failure of its own. The other panics of Rust are not modelled:
-- a slice out of range is cut short, and the bytes held are added up without the overflow of a `usize`,
-- which the bytes of real buffers do not reach.
--
-- Fuel. `stabilize` gets 4 rounds, `next_event_inner` 3 calls, `Codings::read` three rounds more than the
-- value has bytes (two more for the parameters of one coding), the loop over chunk extensions one more
-- than the line has, the bits and decimal digits of a `usize` 64 and 20.
--
-- Parameters. The httparse crate is the record `HeadParser`: its three parsers, which return the ranges of
-- the names and values that they found. A theorem on copied fields supposes, as httparse documents, that
-- these ranges lie in the section, in its order; those on polling, that a head ends within the bytes given
-- and behind the first, and that a method is a token. The Python runtime is the record `Python`: the
-- casts, buffers, attributes and iterators that the binding asks for; some theorems suppose what
-- `IsLawful` says of exact `bytes` and tuples. Iterators are finite, and a new Python object is its bytes
-- or fields.
--
-- Not modelled: what the Python classes pass on to a tuple or to `repr`, the registration
-- of the module, shared objects other than by their bytes; the comparison of runs in
-- h11r_fragmentation.rs, the other two fuzz targets, benchmarks and examples;
-- `Debug`, `Display` and hashing; the capacity of vectors other than as a length.
pub mod Prelude
pub mod State
pub mod Method
pub mod Status
pub mod Headers
pub mod Wire
pub mod Events
pub mod Connection
pub mod Fuzz
pub mod Binding
pub mod Tests
