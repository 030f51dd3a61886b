-- ===== src/Snapshot.antt =====
-- internal/domain/snapshot: manifests, their files and chunks, and the services over them.
pub mod Model
pub mod Listing
pub mod Key
pub mod Restore
pub mod Verify
pub mod Rekey
pub mod Hashing
pub mod Create
