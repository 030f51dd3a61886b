-- ===== src/Snapshot/Create/Present.antt =====
-- What a snapshot relies on of the storage: which objects are there, with the key and in the
-- generation of the snapshot, and that no call of the service takes one away.
use stowmark.Base.{
  ℕ, Bytes, ◌≡◌, ◌≢◌, refl, ap, subst, Bool, true, false, Option, List, [], ◌∷◌, Result, ok, err,
  panics, if◌then◌else◌, map,
}
use stowmark.Base.Exec.{Exec, Ctx, ◌>>=◌, ◌>>◌, pure, continue, bind-ok}
use stowmark.Base.Perms.{all_pass}
use stowmark.Repository.Compression.{Compression}
use stowmark.Snapshot.Model.{
  Chunk, File, Manifest, SourceRepository, ManifestRepository, ObjectRepository,
}
use stowmark.Snapshot.Hashing.{
  Calculator, one_format_version, two_format_version, calculate, calculate_one, calculate_two,
  calculate_split, calculate_whole,
}
use stowmark.Snapshot.Create.{
  Settings, save_object, save_chunk, save_chunks, save_parts, save_file_objects,
}
use stowmark.Storage.Hashes.{parts, parts_in}

module _ {W : Type 0} (present : W → Bytes → Bool) where
  -- A call that takes no object away, whatever its outcome.
  pub record Grows {A : Type 0} (m : Exec W A) : Type 0 where
    pub at : (w : W) (h : Bytes) → present w h ≡ true → present (m w).1 h ≡ true

  pub Grows-pure : {A : Type 0} (a : A) → Grows (pure a)
  Grows-pure a = record { at = λ w h p. p }

  Grows-continue :
      {A B : Type 0} (r : Result A) (f : A → Exec W B) (w : W) (h : Bytes)
      → ((a : A) → Grows (f a))
      → present w h ≡ true
      → present (continue r f w).1 h ≡ true
  Grows-continue (ok a) f w h g p = (g a).at w h p
  Grows-continue (err e) f w h g p = p
  Grows-continue (panics s) f w h g p = p

  pub Grows-bind :
      {A B : Type 0} (m : Exec W A) (f : A → Exec W B)
      → Grows m
      → ((a : A) → Grows (f a))
      → Grows (m >>= f)
  Grows-bind m f gm gf = record {
    at = λ w h p. Grows-continue (m w).0 f (m w).1 h gf (gm.at w h p);
  }

-- The documented behaviour of the interfaces, for one key and generation.
pub record Keeping {W Reader : Type 0} (present : W → Bytes → Bool)
    (objects : ObjectRepository W Reader) (source : SourceRepository W)
    (manifests : ManifestRepository W) (s : Settings) : Type 0 where
  pub exists_ok :
      (c : Ctx) (h : Bytes) (w : W) {v : W}
      → objects.already_exists c h s.key s.generation w ≡ (ok true, v)
      → present v h ≡ true
  pub save_ok :
      (c : Ctx) (path h : Bytes) (w : W) {x : Unit {0}} {v : W}
      → objects.save c path h s.compression s.key s.generation w ≡ (ok x, v)
      → present v h ≡ true
  pub save_chunk_ok :
      (c : Ctx) (path h : Bytes) (offset size : ℕ) (w : W) {x : Unit {0}} {v : W}
      → objects.save_chunk c path h offset size s.compression s.key s.generation w ≡ (ok x, v)
      → present v h ≡ true
  pub exists_grows :
      (c : Ctx) (h : Bytes) → Grows present (objects.already_exists c h s.key s.generation)
  pub save_grows :
      (c : Ctx) (path h : Bytes)
      → Grows present (objects.save c path h s.compression s.key s.generation)
  pub save_chunk_grows :
      (c : Ctx) (path h : Bytes) (offset size : ℕ)
      → Grows present (objects.save_chunk c path h offset size s.compression s.key s.generation)
  pub hash_grows :
      (c : Ctx) (path : Bytes) (comp : Option Compression)
      → Grows present (source.calculate_hash c path comp)
  pub chunks_grows :
      (c : Ctx) (path : Bytes) (n : ℕ) (comp : Option Compression)
      → Grows present (source.calculate_chunks c path n comp)
  pub manifest_grows : (c : Ctx) (m : Manifest) → Grows present (manifests.save c m)
  -- under a context that is done no manifest is saved
  pub manifest_done :
      (c : Ctx) (m : Manifest) (w : W) {x : Unit {0}} {v : W}
      → manifests.save c m w ≡ (ok x, v)
      → c 0 ≢ true

module _ {W Reader : Type 0} (present : W → Bytes → Bool) (objects : ObjectRepository W Reader)
    (source : SourceRepository W) (manifests : ManifestRepository W) (s : Settings)
    (law : Keeping present objects source manifests s) where
  choose-Grows :
      {A : Type 0} (b : Bool) (m n : Exec W A)
      → Grows present m
      → Grows present n
      → Grows present (if b then m else n)
  choose-Grows true m n gm gn = gm
  choose-Grows false m n gm gn = gn

  save_object-Grows : (c : Ctx) (f : File) → Grows present (save_object objects s c f)
  unfolding save_object
  save_object-Grows c f = Grows-bind present _ _ (law.exists_grows c f.hash) λ b.
      choose-Grows b (pure 0) _ (Grows-pure present 0)
        (Grows-bind present _ _ (law.save_grows c f.path f.hash) λ _. Grows-pure present f.size)

  save_chunk-Grows :
      (c : Ctx) (path : Bytes) (k : Chunk) → Grows present (save_chunk objects s c path k)
  unfolding save_chunk
  save_chunk-Grows c path k = Grows-bind present _ _ (law.exists_grows c k.hash) λ b.
      choose-Grows b (pure 0) _ (Grows-pure present 0) (
        Grows-bind present _ _ (law.save_chunk_grows c path k.hash k.offset k.size)
          λ _. Grows-pure present k.size)

  save_chunks-Grows :
      (c : Ctx) (path : Bytes) (ks : List Chunk) (n : ℕ)
      → Grows present (save_chunks objects s c path ks n)
  unfolding save_chunks
  save_chunks-Grows c path [] n = Grows-pure present n
  save_chunks-Grows c path (k ∷ ks) n =
      Grows-bind present _ _ (save_chunk-Grows c path k) λ m. save_chunks-Grows c path ks _

  parts-Grows : (c : Ctx) (f : File) (ks : List Chunk) → Grows present (save_parts objects s c f ks)
  unfolding save_parts
  parts-Grows c f [] = save_object-Grows c f
  parts-Grows c f (k ∷ ks) = save_chunks-Grows c f.path (k ∷ ks) 0

  pub save_file_objects-Grows :
      (c : Ctx) (f : File) → Grows present (save_file_objects objects s c f)
  unfolding save_file_objects
  save_file_objects-Grows c f = parts-Grows c f f.chunks

  pub calculate-Grows :
      (k : Calculator) (c : Ctx) (f : File) (comp : Option Compression)
      → Grows present (calculate source k c f comp)
  unfolding calculate calculate_one calculate_two calculate_split calculate_whole
  calculate-Grows one_format_version c f comp =
      Grows-bind present _ _ (law.hash_grows c f.path comp) λ h. Grows-pure present _
  calculate-Grows two_format_version c f comp =
      choose-Grows _ _ _
        (Grows-bind present _ _ (law.chunks_grows c f.path _ comp) λ h. Grows-pure present _)
        (Grows-bind present _ _ (law.hash_grows c f.path comp) λ h. Grows-pure present _)

  -- What was saved is there.
  save_object-ok :
      (c : Ctx) (f : File) (w : W) {n : ℕ} {v : W}
      → save_object objects s c f w ≡ (ok n, v)
      → present v f.hash ≡ true
  unfolding save_object
  save_object-ok c f w h =
      bind-ok (objects.already_exists c f.hash s.key s.generation) _ w h λ b u e t. branch b u e t
    where
      branch :
          (b : Bool) (u : W) {n : ℕ} {v : W}
          → objects.already_exists c f.hash s.key s.generation w ≡ (ok b, u)
          → (if b
                then pure 0
                else (objects.save c f.path f.hash s.compression s.key s.generation >> pure f.size))
              u
            ≡ (ok n, v)
          → present v f.hash ≡ true
      branch true u e t =
          subst (λ x. present x f.hash ≡ true) (ap (λ z. z.1) t) (law.exists_ok c f.hash w e)
      branch false u e t =
          bind-ok (objects.save c f.path f.hash s.compression s.key s.generation) _ u t
            λ x u' e' t'.
              subst (λ x. present x f.hash ≡ true) (ap (λ z. z.1) t')
                (law.save_ok c f.path f.hash u e')

  save_chunk-ok :
      (c : Ctx) (path : Bytes) (k : Chunk) (w : W) {n : ℕ} {v : W}
      → save_chunk objects s c path k w ≡ (ok n, v)
      → present v k.hash ≡ true
  unfolding save_chunk
  save_chunk-ok c path k w h =
      bind-ok (objects.already_exists c k.hash s.key s.generation) _ w h λ b u e t. branch b u e t
    where
      branch :
          (b : Bool) (u : W) {n : ℕ} {v : W}
          → objects.already_exists c k.hash s.key s.generation w ≡ (ok b, u)
          → (if b
                then pure 0
                else (objects.save_chunk c path k.hash k.offset k.size s.compression s.key
                      s.generation
                    >> pure k.size))
              u
            ≡ (ok n, v)
          → present v k.hash ≡ true
      branch true u e t =
          subst (λ x. present x k.hash ≡ true) (ap (λ z. z.1) t) (law.exists_ok c k.hash w e)
      branch false u e t =
          bind-ok
            (objects.save_chunk c path k.hash k.offset k.size s.compression s.key s.generation) _ u
            t
            λ x u' e' t'.
              subst (λ x. present x k.hash ≡ true) (ap (λ z. z.1) t')
                (law.save_chunk_ok c path k.hash k.offset k.size u e')

  -- What a list of hashes names is there.
  chunks-ok :
      (c : Ctx) (path : Bytes) (ks : List Chunk) (m : ℕ) (w : W) {n : ℕ} {v : W}
      → save_chunks objects s c path ks m w ≡ (ok n, v)
      → all_pass (present v) (map (λ (k : Chunk). k.hash) ks) ≡ true
  unfolding save_chunks
  chunks-ok c path [] m w h = refl
  chunks-ok c path (k ∷ ks) m w h = bind-ok (save_chunk objects s c path k) _ w h λ a u e t.
      let grown = (save_chunks-Grows c path ks _).at u k.hash (save_chunk-ok c path k w e) in
      let first = subst (λ x. present x k.hash ≡ true) (ap (λ z. z.1) t) grown in
      rw first (chunks-ok c path ks _ u t)

  parts-ok :
      (c : Ctx) (f : File) (ks : List Chunk) (w : W) {n : ℕ} {v : W}
      → save_parts objects s c f ks w ≡ (ok n, v)
      → all_pass (present v) (parts_in f ks) ≡ true
  unfolding save_parts
  parts-ok c f [] w h = rw (save_object-ok c f w h) refl
  parts-ok c f (k ∷ ks) w h = chunks-ok c f.path (k ∷ ks) 0 w h

  -- Where the objects of a file are saved without an error, all of them are there.
  pub save_file_objects-ok :
      (c : Ctx) (f : File) (w : W) {n : ℕ} {v : W}
      → save_file_objects objects s c f w ≡ (ok n, v)
      → all_pass (present v) (parts f) ≡ true
  unfolding save_file_objects
  save_file_objects-ok c f w h = parts-ok c f f.chunks w h
