-- ===== src/Storage.antt =====
-- Storage on a local disk: internal/infra/object, internal/infra/chunkio and internal/infra/disk.
pub mod Files
pub mod Paths
pub mod Hashes
pub mod Chunking
pub mod Sections
pub mod Objects
pub mod Encoding
