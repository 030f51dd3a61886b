-- ===== src/Snapshot/Rekey/Outcome.antt =====
-- What the deferred part of rekey.go leaves, from the workers to the removal of the old generation.
-- The write of the configuration is not atomic: it is the one step whose failure can touch the
-- configuration.
use mathlib.Core.List.{Mem, not-mem-nil}
use mathlib.Core.List.Perm
use stowmark.Base.{
  ℕ, ◌<◌, Bytes, ◌≡◌, ◌≢◌, ◌⊎◌, inl, inr, refl, sym, subst, ◌∙◌, ap, same_refl, Bool, true, false,
  Option, some, List, [], ◌∷◌, Err, Result, ok, err, panics, arith, add64, word_size,
}
use stowmark.Base.Exec.{Exec, Ctx}
use stowmark.Encryption.{EncryptionConfig, AsymmetricKeyPairRepository, SymmetricKeyRepository}
use stowmark.Document.Laws.{AllDefaults}
use stowmark.Repository.Config.{Config, FolderRepository}
use stowmark.Repository.Config.Stored.{IsReadable, timeless}
use stowmark.Snapshot.Model.{ObjectRepository}
use stowmark.Snapshot.Rekey.{
  Plan, Contexts, commit, rekey_objects, rekey_job, rekey_workers, new_generation, changed_config,
  after_rekey, after_create, clean_up, join, later,
}
use stowmark.Snapshot.Rekey.Store.{View, Same, SameBut, Lawful, SameBut-refl, SameBut-trans}
use stowmark.Snapshot.Rekey.Objects.{serial-SameBut, renewed}
use stowmark.Pool.{Pool, Move, start, run_pool}
use stowmark.Pool.Settle.{run_pool-Completed}

join-ne-ok : (e : Err) (c : Result (Unit {0})) → join (err e) c ≢ ok tt
join-ne-ok e (ok x) h = cc
join-ne-ok e (err f) h = cc
join-ne-ok e (panics p) h = cc

pub generation_apart : (g : ℕ) → g < word_size → g ≢ add64 g 1
generation_apart g h = omega arith

module _ {W Reader PublicKey PrivateKey : Type 0} (view : View W)
    (objects : ObjectRepository W Reader) (folder : FolderRepository W)
    (symmetric : SymmetricKeyRepository W PublicKey PrivateKey)
    (asymmetric : AsymmetricKeyPairRepository W PublicKey PrivateKey) (base64 : Bytes → Bytes)
    (law : Lawful view objects folder symmetric asymmetric) where
  open view use {stored, content}

  -- The old configuration, and every object of its generation, under every key.
  pub record Intact (path : Bytes) (e : EncryptionConfig) (w v : W) : Type 0 where
    pub config : stored v path ≡ stored w path
    pub contents : content v e.generation ≡ content w e.generation

  -- The new configuration, and in its generation, under the new key, the content of every object
  -- that the old key could read in the old generation.
  pub record Renewed (path : Bytes) (plan : Plan) (w v : W) : Type 0 where
    pub config :
        stored v path
        ≡ some (timeless (changed_config objects folder symmetric asymmetric base64 plan))
    pub contents :
        (hash found : Bytes)
        → content w plan.encryption.generation plan.old_key hash ≡ some found
        → content v (new_generation plan.encryption) plan.new_key hash ≡ some found

  -- The write of the new configuration failed: every object of the old generation is as it was, and
  -- the configuration is what that write left, which began on the old one.
  pub record Unswitched (path : Bytes) (plan : Plan) (w v : W) : Type 0 where
    pub contents : content v plan.encryption.generation ≡ content w plan.encryption.generation
    pub ctx : Ctx
    pub before : W
    pub was_held : stored before ≡ stored w
    pub refused :
        (folder.create_config ctx path
          (changed_config objects folder symmetric asymmetric base64 plan)
          before).0
        ≢ ok tt
    pub left :
        stored v
        ≡ stored
            (folder.create_config ctx path
              (changed_config objects folder symmetric asymmetric base64 plan)
              before).1

  module _ (plan : Plan) (apart : plan.encryption.generation ≢ new_generation plan.encryption)
      (readable : IsReadable plan.conf)
      (encrypted : plan.conf.encryption ≡ some (plan.encryption)) where
    abbrev current : ℕ
    current = plan.encryption.generation

    abbrev new : ℕ
    new = new_generation plan.encryption

    abbrev job : Ctx → Bytes → Exec W (Unit {0})
    job = rekey_job objects plan.old_key plan.new_key current new

    -- What the pool leaves.
    record Moved (hashes : List Bytes) (w : W) (p : Pool Bytes W) : Type 0 where
      frame : SameBut view new w p.acc
      complete :
          p.status ≡ ok tt
          → p.interrupted ≡ false
          → (h : Bytes) → Mem h hashes
          → content p.acc new plan.new_key h ≡ content w current plan.old_key h

    pool-Moved :
        (hashes : List Bytes) (moves : List Move) (w : W)
        → plan.hashes ≡ hashes
        → Moved hashes w (rekey_objects objects moves plan w)
    unfolding rekey_objects
    pool-Moved [] moves w e =
        rw (e, rekey_objects)
          (record { frame = SameBut-refl view new w; complete = λ s i h m. absurd (not-mem-nil m) })
    pool-Moved (h ∷ hs) moves w e =
        let c =
          run_pool-Completed (rekey_workers objects (h ∷ hs)) job (h ∷ hs) w moves (ground arith) in
        let p = run_pool (rekey_workers objects (h ∷ hs)) job moves (start (h ∷ hs) w) in
        rw (e, rekey_objects)
          (record {
            frame =
                subst (λ (x : Result (Unit {0}) × W). SameBut view new w x.1) c.effect
                  (serial-SameBut view objects folder symmetric asymmetric law plan.old_key
                    plan.new_key current new c.order (ok tt) w);
            complete = λ s i j m.
                let (perm, _) = c.complete s i in
                renewed view objects folder symmetric asymmetric law plan.old_key plan.new_key
                  current new apart (content w current plan.old_key) c.order (ok tt) w p.acc
                  (λ k. refl) (c.effect ∙ ap (λ r. (r, p.acc)) s) j (inr ((Perm.mem_iff perm).1 m));
          })

    abbrev pub Outcome : Bytes → W → Result (Unit {0}) × W → Type 0
    Outcome path w (r, v) =
        (Intact path plan.encryption w v × (r ≢ ok tt))
        ⊎ ((Unswitched path plan w v × (r ≢ ok tt)) ⊎ Renewed path plan w v)

    abbrev new_config : Config
    new_config = changed_config objects folder symmetric asymmetric base64 plan

    new_config-IsReadable : IsReadable new_config
    new_config-IsReadable =
        let d : AllDefaults (some (plan.encryption)) =
          subst AllDefaults encrypted readable.defaults in
        record {
          comp = readable.comp;
          has_compression = readable.has_compression;
          storable = readable.storable;
          defaults = record { type_default = d.type_default; key_default = d.key_default };
        }

    abbrev cleaned : Contexts → Result (Unit {0}) → W → Result (Unit {0}) × W
    cleaned ctxs r u = clean_up objects ctxs.cleanup new r u

    -- What only wrote the new generation left everything intact.
    intact : (path : Bytes) {w v : W} → SameBut view new w v → Intact path plan.encryption w v
    intact path s = record {
      config = ap (λ (f : Bytes → Option Config). f path) s.config;
      contents = s.others current apart;
    }

    cleaned-Outcome :
        (ctxs : Contexts) (path : Bytes) (r : Result (Unit {0})) (w u : W)
        → r ≢ ok tt
        → SameBut view new w u
        → Outcome path w (cleaned ctxs r u)
    unfolding clean_up
    cleaned-Outcome ctxs path (ok x) w u n s = absurd (n refl)
    cleaned-Outcome ctxs path (err e) w u n s = inl (
      intact path (SameBut-trans view s ((law.kept_objects.abort_frame ctxs.cleanup new).at u)),
      join-ne-ok e _,
    )
    cleaned-Outcome ctxs path (panics p) w u n s = inl (
      intact path (SameBut-trans view s ((law.kept_objects.abort_frame ctxs.cleanup new).at u)),
      λ h. cc,
    )

    not_later : (i : Bool) (ctx : Ctx) → later i ctx 0 ≢ true → i ≡ false
    not_later true ctx h = absurd (h refl)
    not_later false ctx h = refl

    -- What the clean-up leaves after a failed write.
    abbrev Failed : Bytes → W → Result (Unit {0}) × W → Type 0
    Failed path w (r, v) = Unswitched path plan w v × (r ≢ ok tt)

    unswitched :
        (ctxs : Contexts) (ctx : Ctx) (path : Bytes) (r : Result (Unit {0})) (w u v : W)
        → SameBut view new w u
        → folder.create_config ctx path new_config u ≡ (r, v)
        → r ≢ ok tt
        → SameBut view new v (objects.abort_rekey ctxs.cleanup new v).1
        → Unswitched path plan w (objects.abort_rekey ctxs.cleanup new v).1
    unswitched ctxs ctx path r w u v s e n k = record {
      contents =
          k.others current apart
          ∙ ap (λ (f : ℕ → Bytes → Bytes → Option Bytes). f current)
              (ap content (sym (ap (λ z. z.1) e)) ∙ law.create_config_objects ctx path new_config u)
          ∙ s.others current apart;
      ctx = ctx;
      before = u;
      was_held = s.config;
      refused = λ h. n (sym (ap (λ z. z.0) e) ∙ h);
      left = k.config ∙ ap stored (sym (ap (λ z. z.1) e));
    }

    refused-Outcome :
        (ctxs : Contexts) (ctx : Ctx) (path : Bytes) (r : Result (Unit {0})) (w u v : W)
        → SameBut view new w u
        → folder.create_config ctx path new_config u ≡ (r, v)
        → r ≢ ok tt
        → Failed path w (cleaned ctxs r v)
    unfolding clean_up
    refused-Outcome ctxs ctx path (ok x) w u v s e n = absurd (n refl)
    refused-Outcome ctxs ctx path (err f) w u v s e n = (
      unswitched ctxs ctx path (err f) w u v s e n
          ((law.kept_objects.abort_frame ctxs.cleanup new).at v),
      join-ne-ok f _,
    )
    refused-Outcome ctxs ctx path (panics p) w u v s e n = (
      unswitched ctxs ctx path (panics p) w u v s e n
          ((law.kept_objects.abort_frame ctxs.cleanup new).at v),
      λ h. cc,
    )

    created-Outcome :
        (ctxs : Contexts) (path : Bytes) (i : Bool) (w u : W) (r : Result (Unit {0})) (v : W)
        → SameBut view new w u
        → (i ≡ false
            → (h found : Bytes) → content w current plan.old_key h ≡ some found
            → content u new plan.new_key h ≡ some found)
        → folder.create_config
            (later i ctxs.create)
            path
            (changed_config objects folder symmetric asymmetric base64 plan)
            u
          ≡ (r, v)
        → Outcome path w (after_create objects folder symmetric asymmetric base64 ctxs i plan r v)
    unfolding after_create
    created-Outcome ctxs path i w u (ok x) v s moved e =
        let q =
          law.create_config_ok (later i ctxs.create) path new_config u new_config-IsReadable e in
        let d = (law.kept_objects.delete_frame (later i ctxs.delete) current).at v in
        inr (
          inr (record {
            config =
                ap (λ (f : Bytes → Option Config). f path) d.config
                ∙ (rw (same_refl path) at (q.1 path));
            contents = λ h found m.
                ap (λ (f : Bytes → Bytes → Option Bytes). f plan.new_key h)
                  (d.others new (λ g. apart (sym g)))
                ∙ ap (λ (f : ℕ → Bytes → Bytes → Option Bytes). f new plan.new_key h)
                    (ap content (sym (ap (λ z. z.1) e))
                      ∙ law.create_config_objects (later i ctxs.create) path new_config u)
                ∙ moved (not_later i ctxs.create q.0) h found m;
          }))
    created-Outcome ctxs path i w u (err f) v s moved e =
        inr (inl (refused-Outcome ctxs (later i ctxs.create) path (err f) w u v s e (λ h. cc)))
    created-Outcome ctxs path i w u (panics p) v s moved e =
        inr (inl (refused-Outcome ctxs (later i ctxs.create) path (panics p) w u v s e (λ h. cc)))

    rekeyed-Outcome :
        (ctxs : Contexts) (path : Bytes) (i : Bool) (w u : W) (r : Result (Unit {0}))
        → SameBut view new w u
        → (r ≡ ok tt
            → i ≡ false
            → (h found : Bytes) → content w current plan.old_key h ≡ some found
            → content u new plan.new_key h ≡ some found)
        → Outcome path w
            (after_rekey objects folder symmetric asymmetric base64 ctxs path i plan r u)
    unfolding after_rekey
    rekeyed-Outcome ctxs path i w u (ok tt) s moved =
        created-Outcome ctxs path i w u _ _ s (moved refl) refl
    rekeyed-Outcome ctxs path i w u (err e) s moved =
        cleaned-Outcome ctxs path (err e) w u (λ h. cc) s
    rekeyed-Outcome ctxs path i w u (panics p) s moved =
        cleaned-Outcome ctxs path (panics p) w u (λ h. cc) s

    pub commit-Outcome :
        (ctxs : Contexts) (moves : List Move) (path : Bytes) (w : W)
        → ((key hash found : Bytes)
            → content w current key hash ≡ some found
            → Mem hash plan.hashes)
        → Outcome path w (commit objects folder symmetric asymmetric base64 ctxs moves path plan w)
    unfolding commit
    commit-Outcome ctxs moves path w listed =
        let p = rekey_objects objects moves plan w in
        let m = pool-Moved plan.hashes moves w refl in
        rekeyed-Outcome ctxs path p.interrupted w p.acc p.status m.frame
          λ s i h found c. m.complete s i h (listed plan.old_key h found c) ∙ c

    pub from_Same :
        (path : Bytes) (w u : W) (x : Result (Unit {0}) × W)
        → Same view w u
        → Outcome path u x
        → Outcome path w x
    from_Same path w u (r, v) k (inl (a, n)) = inl (
      record {
        config = a.config ∙ ap (λ (f : Bytes → Option Config). f path) k.config;
        contents =
            a.contents
            ∙ ap (λ (f : ℕ → Bytes → Bytes → Option Bytes). f plan.encryption.generation) k.objects;
      },
      n,
    )
    from_Same path w u (r, v) k (inr (inl (a, n))) = inr (
        inl (
          record {
            contents =
                a.contents
                ∙ ap (λ (f : ℕ → Bytes → Bytes → Option Bytes). f plan.encryption.generation)
                    k.objects;
            ctx = a.ctx;
            before = a.before;
            was_held = a.was_held ∙ k.config;
            refused = a.refused;
            left = a.left;
          },
          n,
        ))
    from_Same path w u (r, v) k (inr (inr b)) = inr (
        inr (record {
          config = b.config;
          contents = λ h found m. b.contents h found (
              ap (λ (f : ℕ → Bytes → Bytes → Option Bytes). f current plan.old_key h) k.objects
              ∙ m);
        }))
