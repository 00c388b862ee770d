-- ===== src/Repository.antt =====
-- The repositories of internal/repository: the interface with its contract, the merge rule, and
-- the storage in memory.
pub mod Merge
pub mod Contract
pub mod Memory
