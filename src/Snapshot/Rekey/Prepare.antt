-- ===== src/Snapshot/Rekey/Prepare.antt =====
-- The calls before the clean-up is deferred: they read, and what they give fits together.
use mathlib.Core.List.{Mem}
use stowmark.Base.{ℕ, Bytes, ◌≡◌, subst, ap, ◌∙◌, Option, none, some, Result, ok, arith}
use stowmark.Base.Exec.{Exec, Ctx, background, pure, bind-ok}
use stowmark.Encryption.{EncryptionConfig, AsymmetricKeyPairRepository, SymmetricKeyRepository}
use stowmark.Encryption.Keys.{Keys}
use stowmark.Repository.Config.{FolderRepository}
use stowmark.Repository.Config.Stored.{IsReadable, timeless}
use stowmark.Snapshot.Model.{ObjectRepository}
use stowmark.Snapshot.Key.{required_encryption}
use stowmark.Snapshot.Rekey.{Plan, prepare}
use stowmark.Snapshot.Rekey.Store.{
  View, Same, Quiet, Quiet-bind, Quiet-pure, Quiet-raise, Lawful, Same-trans,
}

module _ {W Reader PublicKey PrivateKey : Type 0} (view : View W)
    (objects : ObjectRepository W Reader) (folder : FolderRepository W)
    (symmetric : SymmetricKeyRepository W PublicKey PrivateKey)
    (asymmetric : AsymmetricKeyPairRepository W PublicKey PrivateKey) (base64 : Bytes → Bytes)
    (law : Lawful view objects folder symmetric asymmetric) where
  required-Quiet : (o : Option EncryptionConfig) → Quiet view (required_encryption {W = W} o)
  required-Quiet none = Quiet-raise view _
  required-Quiet (some e) = Quiet-pure view e

  pub prepare-Quiet :
      (ctx : Ctx) (path private public : Bytes)
      → Quiet view (prepare objects folder symmetric asymmetric base64 ctx path private public)
  unfolding prepare
  prepare-Quiet ctx path private public = Quiet-bind view _ _ (law.get_config_quiet ctx path) λ c.
      Quiet-bind view _ _ (required-Quiet c.encryption) λ e.
        Quiet-bind view _ _ (law.private_key_quiet ctx private) λ p.
          Quiet-bind view _ _ (law.decrypt_quiet ctx p e.encrypted_key) λ k.
            Quiet-bind view _ _ (law.public_key_quiet ctx public) λ q.
              Quiet-bind view _ _ (law.generate_quiet ctx) λ n.
                Quiet-bind view _ _ (law.encrypt_quiet ctx q n) λ x.
                  Quiet-bind view _ _ (law.fingerprint_quiet ctx q) λ f.
                    Quiet-bind view _ _ (law.kept_objects.list_quiet ctx e.generation)
                      λ hs. Quiet-pure view _

  -- What is known of a plan.
  pub record Prepared (Pair : PublicKey → PrivateKey → Type 0) (path public : Bytes) (w : W)
      (plan : Plan) : Type 0 where
    pub held : view.stored w path ≡ some (timeless (plan.conf))
    pub readable : IsReadable plan.conf
    pub encrypted : plan.conf.encryption ≡ some (plan.encryption)
    pub listed :
        (key hash found : Bytes)
        → view.content w plan.encryption.generation key hash ≡ some found
        → Mem hash plan.hashes
    pub old_key :
        (c : Ctx) × (p : PrivateKey) × (u : W) × ((symmetric.decode_and_decrypt_symmetric_key c p
            plan.encryption.encrypted_key u).0
          ≡ ok plan.old_key)
    pub new_key :
        (c : Ctx) × (q : PublicKey) × ((u : W) × ((asymmetric.read_rsa_public_key c public u).0
            ≡ ok q))
        × ((p : PrivateKey) (u : W)
            → Pair q p
            → (symmetric.decode_and_decrypt_symmetric_key background p
                (base64 plan.encrypted_key)
                u).0
              ≡ ok plan.new_key)

  required-ok :
      (o : Option EncryptionConfig) (w : W) {e : EncryptionConfig} {v : W}
      → required_encryption o w ≡ (ok e, v)
      → (o ≡ some e) × (w ≡ v)
  required-ok none w h = ground arith
  required-ok (some e) w h = ground arith

  -- a call that only reads, by its outcome
  read :
      {A : Type 0} {m : Exec W A} {w : W} {r : Result A} {v : W}
      → Quiet view m
      → m w ≡ (r, v)
      → Same view w v
  read {w = w} q e = subst (λ u. Same view w u) (ap (λ x. x.1) e) (q.at w)

  result : {A : Type 0} {a b : A} {u v : W} → pure a u ≡ (ok b, v) → a ≡ b
  result h = ground arith

  pub prepare-Prepared :
      (Pair : PublicKey → PrivateKey → Type 0)
      → Keys symmetric base64 Pair
      → (ctx : Ctx) (path private public : Bytes) (w : W) {plan : Plan} {v : W}
      → prepare objects folder symmetric asymmetric base64 ctx path private public w ≡ (ok plan, v)
      → Prepared Pair path public w plan
  unfolding prepare
  prepare-Prepared Pair keys ctx path private public w {plan} h =
      bind-ok (folder.get_config ctx path) _ w h λ c w1 e1 h1.
        bind-ok (required_encryption c.encryption) _ w1 h1 λ e w2 e2 h2.
          bind-ok (asymmetric.read_rsa_private_key ctx private) _ w2 h2 λ p w3 e3 h3.
            bind-ok (symmetric.decode_and_decrypt_symmetric_key ctx p e.encrypted_key) _ w3 h3
              λ k w4 e4 h4.
                bind-ok (asymmetric.read_rsa_public_key ctx public) _ w4 h4 λ q w5 e5 h5.
                  bind-ok (symmetric.generate_symmetric_key ctx) _ w5 h5 λ n w6 e6 h6.
                    bind-ok (symmetric.encrypt_symmetric_key ctx q n) _ w6 h6 λ x w7 e7 h7.
                      bind-ok (asymmetric.public_key_finger_print ctx q) _ w7 h7 λ f w8 e8 h8.
                        bind-ok (objects.list_encrypted_objects ctx e.generation) _ w8 h8
                          λ hs w9 e9 h9.
                            let early : Same view w w4 =
                              Same-trans view (read (law.get_config_quiet ctx path) e1) (
                                Same-trans view (read (required-Quiet c.encryption) e2) (
                                  Same-trans view (read (law.private_key_quiet ctx private) e3)
                                    (read (law.decrypt_quiet ctx p e.encrypted_key) e4))) in
                            let late : Same view w4 w8 =
                              Same-trans view (read (law.public_key_quiet ctx public) e5) (
                                Same-trans view (read (law.generate_quiet ctx) e6) (
                                  Same-trans view (read (law.encrypt_quiet ctx q n) e7)
                                    (read (law.fingerprint_quiet ctx q) e8))) in
                            let kept : Same view w w8 = Same-trans view early late in
                            subst (λ pl. Prepared Pair path public w pl) (result h9)
                              (record {
                                held = (law.get_config_ok ctx path w e1).0;
                                readable = (law.get_config_ok ctx path w e1).1;
                                encrypted = (required-ok c.encryption w1 e2).0;
                                listed = λ key hash found m.
                                    law.kept_objects.list_ok ctx e.generation w8 e9 key hash found (
                                      ap
                                        (λ (g : ℕ → Bytes → Bytes → Option Bytes).
                                          g e.generation key hash)
                                        kept.objects
                                      ∙ m);
                                old_key = (ctx, p, w3, ap (λ z. z.0) e4);
                                new_key = (
                                  ctx,
                                  q,
                                  (w4, ap (λ z. z.0) e5),
                                  λ s u pair.
                                      keys.decrypts ctx q s n x w6 w7 u pair
                                        (keys.generated_size ctx w5 e6) e7,
                                );
                              })
