-- ===== src/Queue.antt =====
-- queue.py
pub mod Tables
pub mod Text
pub mod Rows
pub mod Batches
pub mod ResultError
pub mod Leases
pub mod Kv
pub mod Tokens
pub mod Shape
pub mod Ready
pub mod Prepare
pub mod Claim
pub mod Policy
pub mod Submit
pub mod Valid
pub mod Finish
pub mod Frame
pub mod Loops
pub mod Passes
pub mod Cancel
pub mod Expire
pub mod Steps
pub mod Samples
pub mod Tests
