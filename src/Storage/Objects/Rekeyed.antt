-- ===== src/Storage/Objects/Rekeyed.antt =====
-- `SaveRekeyedObject`, `DeleteEncryptedGeneration` and `AbortRekey` of
-- internal/infra/disk/object_repository.go. The source is the bytes that it gives.
pub mod Steps
pub mod Saved
pub mod Atomic
use stowmark.Base.{
  ℕ, Bytes, codes, Bool, true, false, not, same, List, [], ◌∷◌, ◌++◌, Err, length, ltb, take, drop,
}
use stowmark.Base.Exec.{Exec, Ctx, ◌>>=◌, ◌>>◌, pure, wrapping, ctx_err}
use stowmark.Cipher.{new_encoder, finish}
use stowmark.Storage.Files.{
  Fs, ◌/-◌, mkdir_all, create_excl, close, sync, rename, remove, remove_all, unless_ok,
}
use stowmark.Storage.Objects.{
  Setting, generation_path, object_path, refuse_if, is_empty, invalid_hash, key_required,
}

abbrev pub directory_path : Setting → Bytes → ℕ → Bytes
directory_path o hash g = generation_path o g /- take 2 hash

-- The name that `os.CreateTemp` chose at the n-th draw.
abbrev pub temp_path : Setting → Bytes → ℕ → ℕ → Bytes
temp_path o hash g n =
    directory_path o hash g /- (codes "." ++ drop 2 hash ++ codes ".rekey-" ++ o.temp_suffix n)

-- The temporary file is written, checked and renamed.
unfoldable pub committed : Setting → Ctx → Bytes → Bytes → ℕ → Bytes → Bytes → Exec Fs (Unit {0})
unfolding finish close sync rename
committed o ctx hash source g key temp = do
  wrapping "create encryption encoder" (new_encoder o.aead key)
  wrapping "close encryption encoder" (finish o.aead temp key source)
  refuse_if (not (same (o.sha256_hex source) hash)) (Err.failure "rekey object hash mismatch")
  ctx_err ctx 1
  wrapping "sync temporary encrypted object" sync
  wrapping "close temporary encrypted object" close
  wrapping "commit rekeyed object" (rename temp (object_path o hash g))

-- `defer`: if it was not committed, the file is closed and removed.
abbrev pub discard : Bytes → Exec Fs (Unit {0})
discard temp s = remove temp (close s).1

-- From `os.CreateTemp` on.
abbrev pub into_temp : Setting → Ctx → Bytes → Bytes → ℕ → Bytes → Exec Fs (Unit {0})
into_temp o ctx hash source g key s =
    let temp = temp_path o hash g s.draws in
    (wrapping "create temporary encrypted object" (create_excl temp)
        >> unless_ok (committed o ctx hash source g key temp) (discard temp))
      s

unfoldable pub save_rekeyed_object : Setting → Ctx → Bytes → Bytes → ℕ → Bytes → Exec Fs (Unit {0})
unfolding committed mkdir_all create_excl remove
save_rekeyed_object o ctx hash source g key = do
  ctx_err ctx 0
  refuse_if (ltb (length hash) 3) invalid_hash
  refuse_if (is_empty key) key_required
  wrapping "create encrypted object directory" (mkdir_all (directory_path o hash g))
  into_temp o ctx hash source g key

unfoldable pub delete_encrypted_generation : Setting → Ctx → ℕ → Exec Fs (Unit {0})
unfolding remove_all
delete_encrypted_generation o ctx g = do
  ctx_err ctx 0
  wrapping "delete encrypted generation" (remove_all (generation_path o g))
  ctx_err ctx 1

unfoldable pub abort_rekey : Setting → Ctx → ℕ → Exec Fs (Unit {0})
unfolding delete_encrypted_generation
abort_rekey o ctx g = wrapping "abort rekey" (delete_encrypted_generation o ctx g)
