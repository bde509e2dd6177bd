-- ===== src/Binding.antt =====
-- crates/h11r-python/src/api: the Python classes over the core connection.
pub mod Python
pub mod Buffers
pub mod Fields
pub mod Events
pub mod Connection
pub mod Extract
pub mod Rebuild
pub mod Parts
pub mod Queue
pub mod Ready
pub mod Raises
pub mod Sending
pub mod Calls
pub mod Unchanged
