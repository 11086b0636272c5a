-- ===== src/Agent.antt =====
-- cmd/scomp: what the agent does with the relay's messages, and what it sends.
pub mod Policy
pub mod Snapshot
pub mod Handler
pub mod Catalog
pub mod Pairing
mod Tests
