-- ===== src/Storage/Objects/Lawful.antt =====
-- The objects on a disk of internal/infra/disk/object_repository.go keep what a key rotation relies on.
use mathlib.Core.List.{Mem}
use stowmark.Base.{
  ℕ, ◌≤◌, Bytes, ◌≡◌, ◌≢◌, refl, sym, ap, ◌∙◌, false, ltb, same, same_refl, same→eq, lookup,
  Bool-cases, inl, inr, Option, none, some, List, length, ok, arith,
}
use stowmark.Base.Exec.{Exec, Ctx, bind-ok, wrapping, wrapping-ok, ctx_err}
use stowmark.Cipher
use stowmark.Cipher.{Aead, IsAead, plain, opened, is_aes_key, nonce_size}
use stowmark.Repository.Config.{Config}
use stowmark.Snapshot.Rekey.Store.{View, Touches, LawfulObjects}
use stowmark.Storage.Files.{Fs, call, open_file}
use stowmark.Storage.Files.Keeps.{Keeps, Keeps-call, Keeps-close}
use stowmark.Storage.Objects.{
  Setting, object_path, read_encrypted_object, refuse_if, is_empty, invalid_hash, key_required,
}
use stowmark.Storage.Objects.Listing.{list_encrypted_objects}
use stowmark.Storage.Objects.Listing.Complete.{list_encrypted_objects-Mem}
use stowmark.Storage.Objects.Kept.{
  Keeps-list_encrypted_objects, Keeps-read_encrypted_object, Keeps-save_rekeyed_object,
  Keeps-abort_rekey, Keeps-delete_encrypted_generation,
}
use stowmark.Storage.Objects.Places.{
  AreNumerals, object_outside, object_path_injective, config_outside,
}
use stowmark.Storage.Objects.Rekeyed.{save_rekeyed_object}
use stowmark.Storage.Objects.Rekeyed.Saved.{save_rekeyed_object-Sealed}
use stowmark.Storage.Objects.Rekeyed.Steps.{refuse-ok}
use stowmark.Storage.Objects.Repository.{object_repository}
use stowmark.Storage.Objects.View.{
  plain_in, config_path, disk_view, config-eq, generation-view, everywhere, Quiet-Keeps, outside_of,
  outside_right, outside_left, decode-ok, closed-ok, content-ok,
}

module _ (o : Setting) (parse : Bytes → Option Config) (sealing : IsAead o.aead)
    (numerals : AreNumerals o.format_uint) where
  abbrev view : View Fs
  view = disk_view o parse

  Touches-Keeps :
      {A : Type 0} (g : ℕ) (m : Exec Fs A) → Keeps (outside_of o parse g) m → Touches view g m
  Touches-Keeps g m q = record {
    at = λ w. record {
      config =
          config-eq o parse w (m w).1
            (q.at w (config_path o) (outside_left o parse g (config_path o) (config_outside o g)));
      others = λ h n. generation-view o parse h w (m w).1 λ hash.
          q.at w (object_path o hash h)
            (outside_left o parse g (object_path o hash h) (object_outside o numerals g h hash n));
    };
  }

  read-ok :
      (ctx : Ctx) (hash : Bytes) (g : ℕ) (key : Bytes) (w : Fs) {r : Bytes} {v : Fs}
      → read_encrypted_object o ctx hash g key w ≡ (ok r, v)
      → view.content w g key hash ≡ some r
  unfolding read_encrypted_object open_file everywhere
  read-ok ctx hash g key w h = bind-ok (ctx_err ctx 0) _ w h λ _ w1 e1 h1.
      bind-ok (refuse_if (ltb (length hash) 3) invalid_hash) _ w1 h1 λ _ w2 e2 h2.
        bind-ok (refuse_if (is_empty key) key_required) _ w2 h2 λ _ w3 e3 h3.
          bind-ok (wrapping "open encrypted object" (open_file (object_path o hash g))) _ w3 h3
            λ source w4 e4 h4.
              let path = object_path o hash g in
              let opened = wrapping-ok "open encrypted object" (open_file path) w3 e4 in
              bind-ok call _ w3 opened λ _ w5 e5 h5.
                let run = Cipher.decode o.aead source key in
                let d =
                  decode-ok o parse source key w4
                    (ap (λ r. (r, (run w4).1)) (closed-ok o parse (run w4).0 (run w4).1 h4)) in
                let before : lookup path w5.files ≡ lookup path w.files =
                  ap (λ z. lookup path z.1.files) (sym e5)
                  ∙ (Keeps-call (everywhere o parse)).at w3 path refl
                  ∙ ap (λ z. lookup path z.files)
                      (sym (refuse-ok (is_empty key) key_required w2 e3).1)
                  ∙ ap (λ z. lookup path z.files)
                      (sym (refuse-ok (ltb (length hash) 3) invalid_hash w1 e2).1)
                  ∙ ap (λ z. lookup path z.1.files) (sym e1) in
                let found = content-ok (lookup path w5.files) (ap (λ z. z.0) h5) in
                rw (refuse-ok (ltb (length hash) 3) invalid_hash w1 e2).0
                  (ap (plain_in o.aead key) (sym before ∙ found) ∙ d)

  listed :
      (ctx : Ctx) (g : ℕ) (w : Fs) {hashes : List Bytes} {v : Fs}
      → list_encrypted_objects o ctx g w ≡ (ok hashes, v)
      → (key hash text : Bytes) → view.content w g key hash ≡ some text
      → Mem hash hashes
  listed ctx g w {hashes = hashes} h key hash text c = elim (Bool-cases (ltb (length hash) 3)) [
    | inl e ↦ absurd (none_some (rw e at c))
    | inr e ↦ go (lookup (object_path o hash g) w.files) refl e (rw e at c)
  ]
    where
      none_some : {x : Bytes} → none ≡ some x → ⊥
      none_some h = cc

      long : (n : ℕ) → ltb n 3 ≡ false → 2 ≤ n
      long n h = ground arith

      go :
          (z : Option Bytes)
          → lookup (object_path o hash g) w.files ≡ z
          → ltb (length hash) 3 ≡ false
          → plain_in o.aead key z ≡ some text
          → Mem hash hashes
      go none l e c = cc
      go (some b) l e c = list_encrypted_objects-Mem o ctx g hash w (long (length hash) e) l h

  saved :
      (ctx : Ctx) (hash r : Bytes) (g : ℕ) (key : Bytes) (w : Fs) {x : Unit {0}} {v : Fs}
      → save_rekeyed_object o ctx hash r g key w ≡ (ok x, v)
      → (view.content v g key hash ≡ some r)
        × ((j : Bytes) → j ≢ hash → view.content v g key j ≡ view.content w g key j)
  saved ctx hash r g key w {v = v} h =
      let (size, sum, sealed) = save_rekeyed_object-Sealed o sealing ctx hash r g key w h in
      let path = object_path o hash g in
      let there : lookup path v.files ≡ some sealed.0 = sealed.2 path ∙ rw (same_refl path) refl in
      (
        rw size (ap (plain_in o.aead key) there ∙ sealed.1),
        λ j n. elim (Bool-cases (ltb (length j) 3)) [
          | inl e ↦ rw e refl
          | inr e ↦
              let kept : lookup (object_path o j g) v.files ≡ lookup (object_path o j g) w.files =
                sealed.2 (object_path o j g) ∙ rw (apart j e n size) refl in
              rw e (ap (plain_in o.aead key) kept)
        ],
      )
    where
      long : (n : ℕ) → ltb n 3 ≡ false → 2 ≤ n
      long n h = ground arith

      apart :
          (j : Bytes)
          → ltb (length j) 3 ≡ false
          → j ≢ hash
          → ltb (length hash) 3 ≡ false
          → same (object_path o hash g) (object_path o j g) ≡ false
      apart j e n size = elim (Bool-cases (same (object_path o hash g) (object_path o j g))) [
        | inl f ↦ absurd (
            n (
              object_path_injective o g j hash (long (length j) e) (long (length hash) size)
                (sym (same→eq _ _ f))))
        | inr f ↦ f
      ]

  -- The objects on a disk keep what a key rotation relies on, if AES-GCM opens what it sealed and the
  -- numerals of generations differ: reading and listing change nothing, a listing misses no object
  -- that a key opens, an object that is saved opens to the source, and a write of one generation
  -- changes no other, and no configuration.
  pub object_repository-LawfulObjects : LawfulObjects view (object_repository o)
  object_repository-LawfulObjects = record {
    list_quiet =
        λ c g. Quiet-Keeps o parse _ (Keeps-list_encrypted_objects (everywhere o parse) o c g);
    read_quiet = λ c h g k.
        Quiet-Keeps o parse _ (Keeps-read_encrypted_object (everywhere o parse) o c h g k);
    close_quiet = λ r. Quiet-Keeps o parse _ (Keeps-close (everywhere o parse));
    list_ok = listed;
    source = λ r. r;
    read_ok = read-ok;
    save_ok = saved;
    save_frame = λ c h r g k.
        Touches-Keeps g _
          (Keeps-save_rekeyed_object (outside_of o parse g) o g (outside_right o parse g) c h r k);
    abort_frame = λ c g.
        Touches-Keeps g _
          (Keeps-abort_rekey (outside_of o parse g) o g (outside_right o parse g) c);
    delete_frame = λ c g.
        Touches-Keeps g _ (
          Keeps-delete_encrypted_generation (outside_of o parse g) o g (outside_right o parse g) c);
  }
