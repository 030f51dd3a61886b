-- ===== src/Repository.antt =====
-- internal/domain/repository: the configuration of a repository and the services over it.
pub mod Compression
pub mod Config
pub mod Init
pub mod Rewrap
pub mod Location
