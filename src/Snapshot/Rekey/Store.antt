-- ===== src/Snapshot/Rekey/Store.antt =====
-- What a key rotation relies on of the storage: the configuration at each path, the content that
-- each key gives of each object of a generation, and what each call leaves as it was.
use mathlib.Core.List.{Mem}
use stowmark.Base.{
  ℕ, Bytes, ◌≡◌, ◌≢◌, refl, ◌∙◌, ap, String, same, true, Option, some, List, Err, Result, ok, err,
  panics, if◌then◌else◌,
}
use stowmark.Base.Exec.{Exec, Ctx, ◌>>=◌, pure, raise, lift, attempt, wrapping, continue}
use stowmark.Encryption.{AsymmetricKeyPairRepository, SymmetricKeyRepository}
use stowmark.Repository.Config.{Config, FolderRepository}
use stowmark.Repository.Config.Stored.{IsReadable, timeless}
use stowmark.Snapshot.Model.{ObjectRepository}

-- What is seen of a state.
pub record View (W : Type 0) : Type 0 where
  -- what a reading gives at each path, but for the time of creation
  pub stored : W → Bytes → Option Config
  -- what decrypting the object of the generation, with the key and of the hash, gives
  pub content : W → ℕ → Bytes → Bytes → Option Bytes

module _ {W : Type 0} (view : View W) where
  open view use {stored, content}

  -- Nothing that is seen changes.
  pub record Same (w v : W) : Type 0 where
    pub config : stored v ≡ stored w
    pub objects : content v ≡ content w

  -- Nothing changes but objects of the generation `g`.
  pub record SameBut (g : ℕ) (w v : W) : Type 0 where
    pub config : stored v ≡ stored w
    pub others : (h : ℕ) → h ≢ g → content v h ≡ content w h

  pub Same-refl : (w : W) → Same w w
  Same-refl w = record { config = refl; objects = refl }

  pub Same-trans : {u v w : W} → Same u v → Same v w → Same u w
  Same-trans a b = record { config = b.config ∙ a.config; objects = b.objects ∙ a.objects }

  pub SameBut-refl : (g : ℕ) (w : W) → SameBut g w w
  SameBut-refl g w = record { config = refl; others = λ h n. refl }

  pub SameBut-trans : {g : ℕ} {u v w : W} → SameBut g u v → SameBut g v w → SameBut g u w
  SameBut-trans a b = record {
    config = b.config ∙ a.config;
    others = λ h n. b.others h n ∙ a.others h n;
  }

  pub Same-SameBut : (g : ℕ) {w v : W} → Same w v → SameBut g w v
  Same-SameBut g a = record {
    config = a.config;
    others = λ h n. ap (λ (f : ℕ → Bytes → Bytes → Option Bytes). f h) a.objects;
  }

  -- A call that only reads.
  pub record Quiet {A : Type 0} (m : Exec W A) : Type 0 where
    pub at : (w : W) → Same w (m w).1

  Quiet-continue :
      {A B : Type 0} (r : Result A) (f : A → Exec W B) (w : W)
      → ((a : A) → Quiet (f a))
      → Same w (continue r f w).1
  Quiet-continue (ok a) f w q = (q a).at w
  Quiet-continue (err e) f w q = Same-refl w
  Quiet-continue (panics p) f w q = Same-refl w

  pub Quiet-bind :
      {A B : Type 0} (m : Exec W A) (f : A → Exec W B)
      → Quiet m
      → ((a : A) → Quiet (f a))
      → Quiet (m >>= f)
  Quiet-bind m f qm qf = record {
    at = λ w. Same-trans (qm.at w) (Quiet-continue (m w).0 f (m w).1 qf);
  }

  pub Quiet-pure : {A : Type 0} (a : A) → Quiet (pure a)
  Quiet-pure a = record { at = Same-refl }

  pub Quiet-raise : {A : Type 0} (e : Err) → Quiet (raise {A = A} e)
  Quiet-raise e = record { at = Same-refl }

module _ {W : Type 0} (view : View W) (g : ℕ) where
  -- A call that writes nothing but objects of the generation `g`.
  pub record Touches {A : Type 0} (m : Exec W A) : Type 0 where
    pub at : (w : W) → SameBut view g w (m w).1

  Touches-continue :
      {A B : Type 0} (r : Result A) (f : A → Exec W B) (w : W)
      → ((a : A) → Touches (f a))
      → SameBut view g w (continue r f w).1
  Touches-continue (ok a) f w t = (t a).at w
  Touches-continue (err e) f w t = SameBut-refl view g w
  Touches-continue (panics p) f w t = SameBut-refl view g w

  pub Touches-bind :
      {A B : Type 0} (m : Exec W A) (f : A → Exec W B)
      → Touches m
      → ((a : A) → Touches (f a))
      → Touches (m >>= f)
  Touches-bind m f tm tf = record {
    at = λ w. SameBut-trans view (tm.at w) (Touches-continue (m w).0 f (m w).1 tf);
  }

  pub Touches-lift : {A : Type 0} (r : Result A) → Touches (lift r)
  Touches-lift r = record { at = SameBut-refl view g }

  pub Touches-attempt : {A : Type 0} (m : Exec W A) → Touches m → Touches (attempt m)
  Touches-attempt m t = record { at = t.at }

  pub Touches-wrapping :
      {A : Type 0} (s : String) (m : Exec W A) → Touches m → Touches (wrapping s m)
  Touches-wrapping s m t = record { at = t.at }

  pub Touches-Quiet : {A : Type 0} (m : Exec W A) → Quiet view m → Touches m
  Touches-Quiet m q = record { at = λ w. Same-SameBut view g (q.at w) }

-- The documented behaviour of the objects of a repository.
pub record LawfulObjects {W Reader : Type 0} (view : View W) (objects : ObjectRepository W Reader)
    : Type 0 where
  pub list_quiet : (c : Ctx) (g : ℕ) → Quiet view (objects.list_encrypted_objects c g)
  pub read_quiet :
      (c : Ctx) (h : Bytes) (g : ℕ) (k : Bytes) → Quiet view (objects.read_encrypted_object c h g k)
  pub close_quiet : (r : Reader) → Quiet view (objects.close r)
  -- a listing holds every object that a key can read
  pub list_ok :
      (c : Ctx) (g : ℕ) (w : W) {hashes : List Bytes} {v : W}
      → objects.list_encrypted_objects c g w ≡ (ok hashes, v)
      → (key hash data' : Bytes) → view.content w g key hash ≡ some data'
      → Mem hash hashes
  -- what a reader gives is the content of the object; and what is saved is what the reader gives,
  -- readable with the key, while the other objects stay
  pub source : Reader → Bytes
  pub read_ok :
      (c : Ctx) (h : Bytes) (g : ℕ) (k : Bytes) (w : W) {r : Reader} {v : W}
      → objects.read_encrypted_object c h g k w ≡ (ok r, v)
      → view.content w g k h ≡ some (source r)
  pub save_ok :
      (c : Ctx) (h : Bytes) (r : Reader) (g : ℕ) (k : Bytes) (w : W) {x : Unit {0}} {v : W}
      → objects.save_rekeyed_object c h r g k w ≡ (ok x, v)
      → (view.content v g k h ≡ some (source r))
        × ((j : Bytes) → j ≢ h → view.content v g k j ≡ view.content w g k j)
  pub save_frame :
      (c : Ctx) (h : Bytes) (r : Reader) (g : ℕ) (k : Bytes)
      → Touches view g (objects.save_rekeyed_object c h r g k)
  pub abort_frame : (c : Ctx) (g : ℕ) → Touches view g (objects.abort_rekey c g)
  pub delete_frame : (c : Ctx) (g : ℕ) → Touches view g (objects.delete_encrypted_generation c g)

-- The documented behaviour of the interfaces of a key rotation.
pub record Lawful {W Reader PublicKey PrivateKey : Type 0} (view : View W)
    (objects : ObjectRepository W Reader) (folder : FolderRepository W)
    (symmetric : SymmetricKeyRepository W PublicKey PrivateKey)
    (asymmetric : AsymmetricKeyPairRepository W PublicKey PrivateKey) : Type 0 where
  pub kept_objects : LawfulObjects view objects
  -- reading changes nothing
  pub get_config_quiet : (c : Ctx) (p : Bytes) → Quiet view (folder.get_config c p)
  pub private_key_quiet : (c : Ctx) (p : Bytes) → Quiet view (asymmetric.read_rsa_private_key c p)
  pub public_key_quiet : (c : Ctx) (p : Bytes) → Quiet view (asymmetric.read_rsa_public_key c p)
  pub fingerprint_quiet :
      (c : Ctx) (k : PublicKey) → Quiet view (asymmetric.public_key_finger_print c k)
  pub decrypt_quiet :
      (c : Ctx) (k : PrivateKey) (e : Bytes)
      → Quiet view (symmetric.decode_and_decrypt_symmetric_key c k e)
  pub generate_quiet : (c : Ctx) → Quiet view (symmetric.generate_symmetric_key c)
  pub encrypt_quiet :
      (c : Ctx) (k : PublicKey) (e : Bytes) → Quiet view (symmetric.encrypt_symmetric_key c k e)
  -- a configuration that is read is the one that is held, but for its time of creation, which
  -- every reading stamps anew
  pub get_config_ok :
      (ctx : Ctx) (path : Bytes) (w : W) {c : Config} {v : W}
      → folder.get_config ctx path w ≡ (ok c, v)
      → (view.stored w path ≡ some (timeless c)) × IsReadable c
  -- writing a configuration changes no object; under a context that is done it does not succeed;
  -- and where it succeeds, and a document can hold the configuration, that one is held, while a
  -- write that fails may leave anything at the path
  pub create_config_objects :
      (c : Ctx) (p : Bytes) (conf : Config) (w : W)
      → view.content (folder.create_config c p conf w).1 ≡ view.content w
  pub create_config_ok :
      (c : Ctx) (path : Bytes) (conf : Config) (w : W) {x : Unit {0}} {v : W}
      → IsReadable conf
      → folder.create_config c path conf w ≡ (ok x, v)
      → (c 0 ≢ true)
        × ((p : Bytes)
            → view.stored v p ≡ (if same path p then some (timeless conf) else view.stored w p))
