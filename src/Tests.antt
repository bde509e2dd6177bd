-- ===== src/Tests.antt =====
-- The theorems at concrete inputs, by the part of the crate that they are about.
mod Machine
mod Messages
mod Syntax
mod Exchange
mod Runtime
mod Calls
mod Binding
mod Fuzz
