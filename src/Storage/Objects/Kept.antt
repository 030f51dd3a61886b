-- ===== src/Storage/Objects/Kept.antt =====
-- The paths that the calls of internal/infra/disk/object_repository.go keep.
use stowmark.Base.{
  ℕ, suc, Bytes, ◌≡◌, refl, ap, ◌∙◌, Bool, true, false, ltb, lookup, Bool-cases, inl, inr, List, [],
  ◌∷◌, ◌++◌, length, Result, ok, err, panics, if◌then◌else◌,
}
use stowmark.Base.Exec.{Exec, Ctx, ◌>>◌}
use stowmark.Cipher
use stowmark.Cipher.{Aead, opened, is_aes_key, nonce_size, new_encoder, finish}
use stowmark.Cipher.Laws.{Keeps-finish}
use stowmark.Storage.Files.{Fs, is_within, is_dir, paths, call}
use stowmark.Storage.Files.Keeps.{
  Kept, Keeps, Keeps-bind, Keeps-then, Keeps-lift, Keeps-wrapping, Keeps-ctx_err, Keeps-call,
  Keeps-open_file, Keeps-close, Keeps-mkdir_all, Keeps-create_excl, Keeps-remove_all,
  Keeps-unless_ok, Keeps-sync, Keeps-rename, Keeps-after_call,
}
use stowmark.Storage.Objects.{
  Setting, generation_path, object_path, read_encrypted_object, decode_or_close, decoded_or_closed,
  is_empty, invalid_hash, key_required,
}
use stowmark.Storage.Objects.Listing.{
  list_encrypted_objects, walk, walked, visit, files_below, root_found, hash_of_parts, split,
  relative,
}
use stowmark.Storage.Objects.Listing.Complete.{walk-eq, walk_on}
use stowmark.Storage.Objects.Places.{object_within, temp_within}
use stowmark.Storage.Objects.Rekeyed.{
  save_rekeyed_object, committed, into_temp, delete_encrypted_generation, abort_rekey,
  directory_path, temp_path,
}
use stowmark.Storage.Objects.Rekeyed.Atomic.{Keeps-refuse_if, Keeps-new_encoder, Keeps-discard}

module _ (P : Bytes → Bool) where
  Keeps-if :
      {A : Type 0} (b : Bool) (m n : Exec Fs A)
      → Keeps P m
      → Keeps P n
      → Keeps P (if b then m else n)
  Keeps-if true m n p q = p
  Keeps-if false m n p q = q

  pub Keeps-decode : (aead : Aead) (source key : Bytes) → Keeps P (Cipher.decode aead source key)
  unfolding Cipher.decode
  Keeps-decode aead source key =
      Keeps-if (is_aes_key key) _ _
        (Keeps-then P _ _
          (Keeps-then P _ _
            (Keeps-then P _ _ (Keeps-wrapping P "read nonce" _ (Keeps-call P)) (Keeps-lift P _))
            (Keeps-wrapping P "read encrypted data" _ (Keeps-call P)))
          (Keeps-lift P _))
        (Keeps-lift P _)

  module _ (o : Setting) where
    Kept-closed : (r : Result Bytes) (s : Fs) → Kept P s (decoded_or_closed o r s).1
    Kept-closed (ok text) s k p = refl
    Kept-closed (err e) s k p = (Keeps-call P).at s k p
    Kept-closed (panics x) s k p = refl

    Keeps-decode_or_close : (source key : Bytes) → Keeps P (decode_or_close o source key)
    Keeps-decode_or_close source key = record {
      at = λ s k p.
          Kept-closed (Cipher.decode o.aead source key s).0 (Cipher.decode o.aead source key s).1 k
            p
          ∙ (Keeps-decode o.aead source key).at s k p;
    }

    pub Keeps-read_encrypted_object :
        (ctx : Ctx) (hash : Bytes) (g : ℕ) (key : Bytes)
        → Keeps P (read_encrypted_object o ctx hash g key)
    unfolding read_encrypted_object
    Keeps-read_encrypted_object ctx hash g key = Keeps-then P _ _ (Keeps-ctx_err P ctx 0) (
        Keeps-then P _ _ (Keeps-refuse_if P (ltb (length hash) 3) invalid_hash) (
          Keeps-then P _ _ (Keeps-refuse_if P (is_empty key) key_required) (
            Keeps-bind P _ _ (Keeps-wrapping P _ _ (Keeps-open_file P (object_path o hash g)))
              λ source. Keeps-decode_or_close source key)))

    Keeps-visit : (ctx : Ctx) (n : ℕ) (dir path : Bytes) → Keeps P (visit ctx n dir path)
    Keeps-visit ctx n dir path = Keeps-then P _ _ (Keeps-call P) (
        Keeps-then P _ _ (Keeps-ctx_err P ctx n)
          (Keeps-lift P (hash_of_parts (split (relative dir path)))))

    Kept-walk :
        (ctx : Ctx) (dir : Bytes) (n : ℕ) (acc ps : List Bytes) (s : Fs)
        → Kept P s (walk ctx n dir acc ps s).1
    Kept-walk ctx dir n acc [] s k p = refl
    Kept-walk ctx dir n acc (q ∷ ps) s k p =
        ap (λ z. lookup k z.1.files) (walk-eq ctx dir n acc q ps s)
        ∙ go (visit ctx n dir q s).0 (visit ctx n dir q s).1
            (λ h t. Kept-walk ctx dir (suc n) (acc ++ h ∷ []) ps t k p)
        ∙ (Keeps-visit ctx n dir q).at s k p
      where
        go :
            (r : Result Bytes) (t : Fs)
            → ((h : Bytes) (t : Fs)
                → lookup k (walk ctx (suc n) dir (acc ++ h ∷ []) ps t).1.files ≡ lookup k t.files)
            → lookup k (walk_on ctx dir n acc ps r t).1.files ≡ lookup k t.files
        go (ok h) t q = q h t
        go (err e) t q = refl
        go (panics e) t q = refl

    Kept-walked :
        (ctx : Ctx) (dir : Bytes) (r : Result (Unit {0})) (s : Fs) → Kept P s (walked ctx dir r s).1
    Kept-walked ctx dir (ok _) s k p =
        Kept-walk ctx dir 1 [] (files_below dir (paths s.files)) s k p
    Kept-walked ctx dir (err e) s k p = refl
    Kept-walked ctx dir (panics e) s k p = refl

    pub Keeps-list_encrypted_objects :
        (ctx : Ctx) (g : ℕ) → Keeps P (list_encrypted_objects o ctx g)
    unfolding list_encrypted_objects
    Keeps-list_encrypted_objects ctx g = Keeps-then P _ _ (Keeps-ctx_err P ctx 0) (record {
      at = λ s k p.
          let dir = generation_path o g in
          let root : Exec Fs (Unit {0}) =
            call >> λ u. (root_found (is_dir dir u) (lookup dir u.files), u) in
          Kept-walked ctx dir (root s).0 (root s).1 k p
          ∙ (Keeps-after_call P (λ u. (root_found (is_dir dir u) (lookup dir u.files), u))
                (λ t q f. refl)).at
              s k p;
    })

    -- The calls of a generation, where no path within it is kept.
    module _ (g : ℕ)
        (far : (k : Bytes) → P k ≡ true → is_within (generation_path o g) k ≡ false) where
      free : (k : Bytes) → is_within (generation_path o g) k ≡ true → P k ≡ false
      free k w = elim (Bool-cases (P k)) [ inl e ↦ absurd (clash w (far k e)) | inr e ↦ e ]
        where
          clash : {b : Bool} → b ≡ true → b ≡ false → ⊥
          clash a b = cc

      Keeps-committed :
          (ctx : Ctx) (hash source key temp : Bytes)
          → P temp ≡ false
          → Keeps P (committed o ctx hash source g key temp)
      unfolding committed
      Keeps-committed ctx hash source key temp f =
          Keeps-then P _ _ (Keeps-wrapping P _ _ (Keeps-new_encoder P o key)) (
            Keeps-then P _ _ (Keeps-wrapping P _ _ (Keeps-finish o.aead P temp f key source)) (
              Keeps-then P _ _ (Keeps-refuse_if P _ _) (
                Keeps-then P _ _ (Keeps-ctx_err P ctx 1) (
                  Keeps-then P _ _ (Keeps-wrapping P _ _ (Keeps-sync P)) (
                    Keeps-then P _ _ (Keeps-wrapping P _ _ (Keeps-close P)) (
                      Keeps-wrapping P _ _ (
                        Keeps-rename P temp (object_path o hash g) f
                          (free (object_path o hash g) (object_within o g hash)))))))))

      Keeps-into_temp :
          (ctx : Ctx) (hash source key : Bytes) → Keeps P (into_temp o ctx hash source g key)
      Keeps-into_temp ctx hash source key = record {
        at = λ s.
            let temp = temp_path o hash g s.draws in
            let f = free temp (temp_within o g s.draws hash) in
            (Keeps-then P _ _
                (Keeps-wrapping P "create temporary encrypted object" _
                  (Keeps-create_excl P temp f))
                (Keeps-unless_ok P _ _ (Keeps-committed ctx hash source key temp f)
                  (Keeps-discard P temp f))).at
              s;
      }

      pub Keeps-save_rekeyed_object :
          (ctx : Ctx) (hash source key : Bytes)
          → Keeps P (save_rekeyed_object o ctx hash source g key)
      unfolding save_rekeyed_object
      Keeps-save_rekeyed_object ctx hash source key = Keeps-then P _ _ (Keeps-ctx_err P ctx 0) (
          Keeps-then P _ _ (Keeps-refuse_if P (ltb (length hash) 3) invalid_hash) (
            Keeps-then P _ _ (Keeps-refuse_if P (is_empty key) key_required) (
              Keeps-then P _ (into_temp o ctx hash source g key)
                (Keeps-wrapping P "create encrypted object directory" _
                  (Keeps-mkdir_all P (directory_path o hash g)))
                (Keeps-into_temp ctx hash source key))))

      pub Keeps-delete_encrypted_generation :
          (ctx : Ctx) → Keeps P (delete_encrypted_generation o ctx g)
      unfolding delete_encrypted_generation
      Keeps-delete_encrypted_generation ctx = Keeps-then P _ _ (Keeps-ctx_err P ctx 0) (
          Keeps-then P _ _ (Keeps-wrapping P _ _ (Keeps-remove_all P (generation_path o g) far))
            (Keeps-ctx_err P ctx 1))

      pub Keeps-abort_rekey : (ctx : Ctx) → Keeps P (abort_rekey o ctx g)
      unfolding abort_rekey
      Keeps-abort_rekey ctx = Keeps-wrapping P _ _ (Keeps-delete_encrypted_generation ctx)
