-- ===== src/Repository/Init/Laws.antt =====
-- What an initialisation that succeeds leaves in the repository.
use stowmark.Base.{
  ℕ, Bytes, ◌≡◌, ◌⊎◌, inl, inr, sym, ◌∙◌, ap, same_refl, Bool, true, false, Option, some, [], ok,
  Result, subst, arith,
}
use stowmark.Base.Exec.{Ctx, bind-ok, pure}
use stowmark.Repository.Config.{Config, FolderRepository, InitResult, update_config}
use stowmark.Repository.Config.Stored.{Stored, IsReadable, timeless, update_config-IsReadable}
use stowmark.Repository.Location.{Repository, objects_path, snapshots_path}
use stowmark.Repository.Init.{init, init_config}

abbrev pub no_result : InitResult
no_result = record { id = []; warnings = [] }

module _ {W : Type 0} (repo : FolderRepository W) (uuid_string : Bytes → Bytes) (now : ℕ)
    (held : Stored repo) where
  open held use {stored}

  -- Where the configuration that is written comes from.
  abbrev pub Chosen : Ctx → Repository → Bool → W → Config → Type 0
  Chosen ctx r force w c =
      (((repo.exists ctx r.path w).0 ≡ ok false) × (c ≡ r.config))
      ⊎ (((repo.exists ctx r.path w).0 ≡ ok true)
          × ((previous : Config) × (stored w r.path ≡ some (timeless previous))
              × (c ≡ (update_config now previous r.config force no_result).0)))

  first : {a b : Config × InitResult} {u v : W} → pure a u ≡ (ok b, v) → a.0 ≡ b.0
  first {a} h = ap (λ z. (config_of a z.0).0) h
    where
      config_of : Config × InitResult → Result (Config × InitResult) → Config × InitResult
      config_of d (ok x) = x
      config_of d _ = d

  chosen :
      (ctx : Ctx) (r : Repository) (force ex : Bool) (w w1 w2 : W) {c : Config} {res : InitResult}
      {w3 : W}
      → repo.exists ctx r.path w ≡ (ok ex, w1)
      → stored w2 ≡ stored w
      → init_config repo uuid_string now ex ctx r force no_result w2 ≡ (ok (c, res), w3)
      → IsReadable r.config
      → Chosen ctx r force w c × (stored w3 ≡ stored w2) × IsReadable c
  unfolding init
  chosen ctx r force true w w1 w2 e same_w h fine =
      bind-ok (repo.get_config ctx r.path) _ w2 h λ previous u g t. (
        inr (
          ap (λ p. p.0) e,
          (
            previous,
            ap (λ (f : Bytes → Option Config). f r.path) (sym same_w)
                ∙ (held.get_config_ok ctx r.path w2 g).0,
            ground arith,
          ),
        ),
        ground (arith, held.get_config_keeps ctx r.path w2 g),
        subst IsReadable (first t) (
            update_config-IsReadable now previous r.config force no_result
              (held.get_config_ok ctx r.path w2 g).1 fine),
      )
  chosen ctx r force false w w1 w2 e same_w h fine =
      (inl (ap (λ p. p.0) e, ground arith), ground arith, subst IsReadable (first h) fine)

  -- After an initialisation with a configuration that a document can hold, if it succeeds, the
  -- repository holds the configuration whose identity is reported, but for its time of creation,
  -- which a reading stamps anew: the given one where the folder did not exist, and otherwise the
  -- update of the one that was held there before.
  pub init-Chosen :
      (ctx : Ctx) (r : Repository) (force : Bool) (w : W) (res : InitResult) (v : W)
      → IsReadable r.config
      → init repo uuid_string now ctx r force w ≡ (ok res, v)
      → (c : Config) × (stored v r.path ≡ some (timeless c))
        × (res.id ≡ uuid_string c.id)
        × Chosen ctx r force w c
  unfolding init
  init-Chosen ctx r force w res v fine h = bind-ok (repo.exists ctx r.path) _ w h λ ex w1 e1 h1.
      bind-ok (repo.create_folder ctx r.path) _ w1 h1 λ _ w2 e2 h2.
        bind-ok (init_config repo uuid_string now ex ctx r force no_result) _ w2 h2 λ cr w3 e3 h3.
          bind-ok (repo.create_config ctx r.path cr.0) _ w3 h3 λ _ w4 e4 h4.
            bind-ok (repo.create_folder ctx (objects_path r)) _ w4 h4 λ _ w5 e5 h5.
              bind-ok (repo.create_folder ctx (snapshots_path r)) _ w5 h5 λ _ w6 e6 h6.
                let kept : stored w2 ≡ stored w =
                  held.create_folder_keeps ctx r.path w1 e2 ∙ held.exists_keeps ctx r.path w e1 in
                let after : stored w6 ≡ stored w4 =
                  held.create_folder_keeps ctx (snapshots_path r) w5 e6
                  ∙ held.create_folder_keeps ctx (objects_path r) w4 e5 in
                let (from, _, readable) = chosen ctx r force ex w w1 w2 e1 kept e3 fine in
                let written : stored w4 r.path ≡ some (timeless cr.0) =
                  rw (same_refl r.path) at
                    (held.create_config_ok ctx r.path cr.0 w3 readable e4 r.path) in
                (
                  cr.0,
                  ground (arith, ap (λ (f : Bytes → Option Config). f r.path) after),
                  ground arith,
                  from,
                )
