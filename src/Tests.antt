-- ===== src/Tests.antt =====
-- The definitions on known inputs, and the theorems on them.
mod Digests
mod Scans
mod Batches
mod Vectors
mod Blocks
mod Runs
mod Targets
mod Texts
mod Queues
mod Times
mod Parsing
mod Requests
mod Transfers
mod Messages
mod Calls
