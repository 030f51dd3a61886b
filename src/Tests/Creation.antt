-- ===== src/Tests/Creation.antt =====
-- A snapshot that is created in a repository in memory.
use stowmark.Base.{
  Bytes, codes, Bool, true, false, Option, none, some, [], ◌∷◌, Result, ok, err, Err,
}
use stowmark.Base.Exec.{Exec, Ctx, background, pure, ctx_err}
use stowmark.Pool.{feed}
use stowmark.Snapshot.Model.{CreateResult, SourceRepository, ManifestRepository, new_file}
use stowmark.Snapshot.Create.{Settings, create}
use stowmark.Tests.Memory.{Memory, folder, objects, find}
use stowmark.Tests.Repositories.{plain, path, memory}

abbrev is_some : Option Bytes → Bool
is_some none = false
is_some (some t) = true

abbrev present : Settings → Memory → Bytes → Bool
present s w h = is_some (find s.key h (w.entries s.generation))

abbrev source : SourceRepository Memory
source = record {
  explore = λ ctx p. pure (record { absolute_path = p; files = new_file (codes "abc") 3 ∷ [] });
  calculate_hash = λ ctx p comp. pure p;
  calculate_chunks = λ ctx p n comp. pure [];
}

abbrev manifests : ManifestRepository Memory
manifests = record {
  save = λ ctx m. ctx_err ctx 0;
  list = λ ctx. pure [];
  get = λ ctx id w. (err Err.not_exist, w);
}

abbrev the_bool : Result Bool → Bool
the_bool (ok b) = b
the_bool _ = false

abbrev no_decrypt : Ctx → Bytes → Bytes → Exec Memory Bytes
no_decrypt ctx p k = pure k

abbrev created : Result CreateResult × Memory
created =
    create objects source manifests folder no_decrypt 4 2 (feed ∷ []) (codes "s1") 5 background
      background path (codes "/src") none (memory plain)
