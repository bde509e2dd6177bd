-- ===== src/Wire.antt =====
-- crates/h11r/src/wire: buffering, framing, field syntax and serialization.
pub mod Syntax
pub mod Buffer
pub mod Section
pub mod Number
pub mod Elements
pub mod Codings
pub mod Errors
pub mod Fields
pub mod Lists
pub mod Chunked
pub mod Target
pub mod Head
pub mod Parse
