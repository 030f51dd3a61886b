-- ===== src/Tests.antt =====
-- Runs of the theorems at concrete inputs, over small storages in memory.
mod Memory
mod Unchanged
mod Pools
mod Repositories
mod Services
mod Files
mod Creation
mod Disk
mod Ciphers
