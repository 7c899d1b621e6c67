-- ===== src/Raft.antt =====
-- core/Raft.go: a member of a replicated group, its types, log, elections, replication and histories.
pub mod Types
pub mod Log
pub mod Core
pub mod Vote
pub mod Append
pub mod Commit
pub mod Member
pub mod Advance
mod Witnesses
