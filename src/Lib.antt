-- ===== src/Lib.antt =====
-- Stowmark is a backup program: it stores the files of a directory, or their chunks, as objects
-- that are named by the SHA-256 of their (compressed) bytes, optionally encrypted, and keeps a
-- manifest for each snapshot.
--
-- Parts of the program, and the files that model them:
-- - internal/domain/encryption: Encryption.antt has the configuration (EncryptionConfig) and the
--   interfaces of the key storages; Encryption/Create.antt the service CreateEncryptionConfig,
--   Encryption/Decrypt.antt DecryptSymmetricKey with the key that it keeps; Encryption/Keys.antt
--   what is relied on of RSA.
-- - internal/domain/repository: Repository/Compression.antt (compression.go), Repository/Config.antt
--   (config.go, format_version.go, update_config.go, folder_repository.go), Repository/Location.antt
--   (repository.go, repository_type.go), Repository/Init.antt (init.go), Repository/Rewrap.antt
--   (rewrap.go). Repository/Config/Stored.antt is what the services rely on of a folder repository:
--   a configuration that a document can hold is read back with everything but its time of creation.
-- - The worker pool that verifier.go, create.go and rekey.go of internal/domain/snapshot each write
--   out: Pool.antt. A pool is a state (Pool); a move is one step of some goroutine; a run is any list
--   of moves, and then whatever is left until the pool is done. Each job runs as one step, so what is
--   said of all lists of moves is said of all orders of the jobs and of all moments at which
--   contexts become done, with jobs that do not share more than the storage.
-- - internal/domain/snapshot: Snapshot/Model.antt has the data and the interfaces,
--   Snapshot/Listing.antt listing.go, Snapshot/Key.antt symmetric_key.go, Snapshot/Hashing.antt
--   hash_calculator_factory.go, Snapshot/Create.antt create.go, Snapshot/Verify.antt verifier.go,
--   Snapshot/Restore.antt restore.go and restore_file.go, Snapshot/Rekey.antt rekey.go.
-- - internal/infra/codec and internal/infra/model: Document.antt, the JSON documents of
--   configurations and manifests.
-- - internal/infra/object, internal/infra/chunkio and internal/infra/disk: Storage/Paths.antt
--   (destination.go, encrypted_generation_path.go), Storage/Hashes.antt (hash.go, objectHashes),
--   Storage/Chunking.antt (CalculateHash and CalculateChunks of source_explorer.go),
--   Storage/Sections.antt (source.go) and Storage/Encoding.antt (encoder.go).
-- - internal/infra/encrypt: Cipher.antt (aesgc_handler.go), Cipher/Stream.antt (its writeFull) and
--   Cipher/SymmetricKeys.antt (symmetric_repository.go). internal/infra/compression: Codec.antt.
-- - internal/infra/disk/object_repository.go: Storage/Objects.antt (ReadEncryptedObject, ReadObject,
--   AlreadyExists) and below it Listing (ListEncryptedObjects), Rekeyed (SaveRekeyedObject,
--   DeleteEncryptedGeneration, AbortRekey), Save, SaveChunk, Restore (RestoreObject) and Repository,
--   the whole as the domain's interface; Reads is internal/infra/model/reader.go. They stand on
--   Storage/Files.antt, a file system as what its files hold: each call of it may fail, a write or
--   a removal after a part of it was done.
-- - Tests.antt and the files below it apply the theorems to small storages in memory.
--
-- How the code is modelled: a call that reads or changes the outside world is a function of the
-- state (Base/Exec.antt) whose outcome is a value, an error or a panic; a context is what it answers
-- at each of its checks. The interfaces of the domain are records of such functions over an unknown
-- state. A text is the list of its bytes, an int64 or uint64 a bit pattern below 2^64 with
-- the wrap-around written out. A function has the names of the code in snake_case; Report is Result
-- of result.go.
--
-- Bounds and fuel: a pool is run on with as many moves as its measure says (twice the jobs that are
-- not offered, the jobs in progress, and one for the loop that offers), which is enough since a move
-- of each kind lowers it. The loop over a file's chunks has one more round than the file has bytes,
-- which is enough since a round passes over at least one. writeFull has a round for each byte, and
-- a copy one more than the text has bytes, since a round that goes on takes at least one of them.
--
-- Not modelled: the walk over a source directory; the configuration, the manifests and the RSA keys
-- on disk; the remote storages (S3, GCS, SMB, SSH, WebDAV), which call network clients behind the
-- same interfaces; AES-GCM, RSA, base64, SHA-256 and the packages that compress, which are
-- parameters with what they document; and the command line, configuration and observability, which
-- are input and output. In create.go the append to the shared slice of saved files is one step. The
-- reads and writes of one copy are not interleaved: all reads come first. The operations of the
-- disk run one at a time. The source of a rekeyed object is its bytes, so that the path on which
-- reading it fails is left out; a walk fails with no error of a file that is missing, and
-- offset and size of encode_chunk are numbers, as its callers check. The write of a configuration
-- is a call of the folder repository, of which nothing is assumed where it fails.
pub mod Base
pub mod Encryption
pub mod Repository
pub mod Pool
pub mod Snapshot
pub mod Document
pub mod Storage
pub mod Cipher
pub mod Codec
pub mod Tests
