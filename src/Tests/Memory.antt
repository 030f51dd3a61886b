-- ===== src/Tests/Memory.antt =====
-- A repository in memory: the documents of configurations by their path, each stamped anew when it is
-- read, and objects by their generation.
use mathlib.Core.List.{Mem, mem-cons_self, mem-cons_of_mem}
use stowmark.Base.{
  ℕ, zero, suc, Bytes, same, same_refl, same→eq, ◌≡◌, ◌≢◌, refl, subst, sym, ap, ◌∙◌, inl, inr,
  Bool, true, false, ◌&&◌, ◌==◌, ==_iff, Bool-cases, Option, none, some, List, [], ◌∷◌, map, Err,
  Result, ok, err, panics, length, codes, if◌then◌else◌, arith,
}
use stowmark.Base.Exec.{Exec, pure, raise, lift}
use stowmark.Encryption.{AsymmetricKeyPairRepository, SymmetricKeyRepository}
use stowmark.Encryption.Keys.{Keys}
use stowmark.Repository.Config.{Config, FolderRepository}
use stowmark.Repository.Config.Stored.{Stored, IsReadable, timeless}
use stowmark.Document.{ConfigDocument, then_result, config_document, build_config_domain}
use stowmark.Document.Laws.{config_round_trip}
use stowmark.Document.Readable.{build_config_domain-IsReadable}
use stowmark.Snapshot.Model.{ObjectRepository}
use stowmark.Snapshot.Rekey.Store.{View, Quiet, Touches, Lawful, LawfulObjects}

pub record Entry : Type 0 where
  pub hash : Bytes
  pub key : Bytes
  pub text : Bytes

pub record Memory : Type 0 where
  pub configs : Bytes → Option ConfigDocument
  -- every write of a configuration fails, after the document was truncated
  pub full : Bool
  pub entries : ℕ → List Entry

abbrev pub find : Bytes → Bytes → List Entry → Option Bytes
find key hash [] = none
find key hash (e ∷ es) =
    if same e.hash hash && same e.key key then some e.text else find key hash es

-- The document of a configuration, and a reading at a time.
abbrev pub document : Config → Result ConfigDocument
document c = config_document (λ id. id) (λ t. []) c

abbrev read_at : ℕ → Option ConfigDocument → Result Config
read_at now none = err Err.not_exist
read_at now (some d) = build_config_domain (λ id. some id) now d

abbrev pub the_value : {A : Type 0} → Result A → Option A
the_value (ok a) = some a
the_value _ = none

abbrev stored_at : Option ConfigDocument → Option Config
stored_at o = the_value (read_at 0 o)

abbrev pub view : View Memory
view = record {
  stored = λ w p. stored_at (w.configs p);
  content = λ w g k h. find k h (w.entries g);
}

abbrev pub found : {A : Type 0} → Option A → Result A
found none = err Err.not_exist
found (some a) = ok a

abbrev put_document : Bytes → Option ConfigDocument → Memory → Memory
put_document path o w = record w { configs = λ p. if same path p then o else w.configs p }

abbrev write_document : Bool → Bytes → Result ConfigDocument → Exec Memory (Unit {0})
write_document true path _ w = (err (Err.failure "no space"), put_document path none w)
write_document false path (ok d) w = (ok tt, put_document path (some d) w)
write_document false path (err e) w = (err e, w)
write_document false path (panics p) w = (panics p, w)

abbrev pub write_config : Bool → Bytes → Config → Exec Memory (Unit {0})
write_config true path c w = (err Err.context_done, w)
write_config false path c w = write_document w.full path (document c) w

abbrev pub folder : FolderRepository Memory
folder = record {
  exists = λ ctx path w. (ok (elim (w.configs path) [ none ↦ false | some c ↦ true ]), w);
  create_folder = λ ctx path w. (ok tt, w);
  create_config = λ ctx path c w. write_config (ctx 0) path c w;
  -- a reading stamps its own time
  get_config = λ ctx path w. (read_at 99 (w.configs path), w);
}

abbrev pub put : ℕ → Entry → Memory → Memory
put g e w = record w { entries = λ i. if g == i then e ∷ w.entries g else w.entries i }

abbrev pub clear : ℕ → Memory → Memory
clear g w = record w { entries = λ i. if g == i then [] else w.entries i }

abbrev pub objects : ObjectRepository Memory Bytes
objects = record {
  save = λ ctx path hash comp key g w.
      (ok tt, put g (record { hash = hash; key = key; text = path }) w);
  already_exists = λ ctx hash key g w.
      (ok (elim (find key hash (w.entries g)) [ none ↦ false | some t ↦ true ]), w);
  read_object = λ ctx hash key g w. (found (find key hash (w.entries g)), w);
  restore_object = λ ctx comp f key g w. (ok tt, w);
  save_chunk = λ ctx path hash offset size comp key g w.
      (ok tt, put g (record { hash = hash; key = key; text = path }) w);
  list_encrypted_objects = λ ctx g w. (ok (map (λ (e : Entry). e.hash) (w.entries g)), w);
  read_encrypted_object = λ ctx hash g key w. (found (find key hash (w.entries g)), w);
  save_rekeyed_object = λ ctx hash reader g key w.
      (ok tt, put g (record { hash = hash; key = key; text = reader }) w);
  delete_encrypted_generation = λ ctx g w. (ok tt, clear g w);
  abort_rekey = λ ctx g w. (ok tt, clear g w);
  read_all = λ ctx reader w. (ok reader, w);
  close = λ reader w. (ok tt, w);
}

abbrev pub the_bytes : Result Bytes → Bytes
the_bytes (ok b) = b
the_bytes _ = []

-- Keys of 32 bytes that are encrypted as themselves.
abbrev pub checked_key : Bytes → Result Bytes
checked_key k = if length k == 32 then ok k else err (Err.failure "key size")

abbrev pub repeat : ℕ → ℕ → Bytes
repeat zero b = []
repeat (suc n) b = b ∷ repeat n b

abbrev pub symmetric : SymmetricKeyRepository Memory Unit Unit
symmetric = record {
  generate_symmetric_key = λ ctx w. (ok (repeat 32 7), w);
  encrypt_symmetric_key = λ ctx public_key k w. (ok k, w);
  decode_and_decrypt_symmetric_key = λ ctx private_key k w. (checked_key k, w);
}

abbrev pub asymmetric : AsymmetricKeyPairRepository Memory Unit Unit
asymmetric = record {
  create_private_key = λ ctx path k w. (ok tt, w);
  create_public_key = λ ctx path k w. (ok tt, w);
  read_rsa_public_key = λ ctx path w. (ok tt, w);
  read_rsa_private_key = λ ctx path w. (ok tt, w);
  public_key_finger_print = λ ctx k w. (ok (codes "print"), w);
}

abbrev pub base64 : Bytes → Bytes
base64 k = k

abbrev pub Pair : Unit {0} → Unit {0} → Type 0
Pair a b = Unit {0}

checked_size :
    (k : Bytes) {c : Bytes} {u v : Memory} → lift (checked_key k) u ≡ (ok c, v) → length c ≡ 32
checked_size k h = elim (Bool-cases (length k == 32)) [
  | inl e ↦ size_of k (rw e at h) ((==_iff (length k) 32).0 e)
  | inr e ↦ absurd (raised (rw e at h))
]
  where
    size_of :
        (k : Bytes) {c : Bytes} {u v : Memory}
        → pure k u ≡ (ok c, v)
        → length k ≡ 32
        → length c ≡ 32
    size_of k h e = ground (arith, e)

    raised : {c : Bytes} {e : Err} {u v : Memory} → raise e u ≡ (ok c, v) → ⊥
    raised h = ground arith

accepted_key :
    (k c : Bytes) {u v : Memory} → length k ≡ 32 → pure k u ≡ (ok c, v) → checked_key c ≡ ok k
accepted_key k c size h =
    let e : k ≡ c = ap (λ z. the_bytes z.0) h in
    subst (λ x. checked_key x ≡ ok k) e (rw ((==_iff (length k) 32).1 size) refl)

pub keys : Keys symmetric base64 Pair
keys = record {
  decrypted_size = λ ctx private_key k w h. checked_size k h;
  generated_size = λ ctx w h. ap (λ z. length (the_bytes z.0)) (sym h);
  decrypts = λ ctx public_key private_key k c w v u pair size h. accepted_key k c size h;
}

stored_back : (c : Config) → IsReadable c → stored_at (the_value (document c)) ≡ some (timeless c)
stored_back c r = go (document c) (
    config_round_trip (λ id. id) (λ t. []) (λ id. some id) 0 c r.comp refl r.has_compression
      r.storable r.defaults)
  where
    go :
        (d : Result ConfigDocument)
        → then_result d (build_config_domain (λ id. some id) 0) ≡ ok (timeless c)
        → stored_at (the_value d) ≡ some (timeless c)
    go (ok d) h = ap the_value h
    go (err e) h = cc
    go (panics p) h = cc

written_document :
    (full : Bool) (path : Bytes) (d : Result ConfigDocument) (w : Memory) {x : Unit {0}}
    {v : Memory}
    → write_document full path d w ≡ (ok x, v)
    → v.configs ≡ (λ p. if same path p then the_value d else w.configs p)
written_document true path d w h = ground arith
written_document false path (ok d) w h = ap (λ z. z.1.configs) (sym h)
written_document false path (err e) w h = ground arith
written_document false path (panics p) w h = ground arith

written :
    (b : Bool) (path : Bytes) (c : Config) (w : Memory) {x : Unit {0}} {v : Memory}
    → IsReadable c
    → write_config b path c w ≡ (ok x, v)
    → (b ≢ true)
      × ((p : Bytes)
          → stored_at (v.configs p)
            ≡ (if same path p then some (timeless c) else stored_at (w.configs p)))
written true path c w r h = ground arith
written false path c w r h = (
  λ e. ground arith,
  λ p. ap (λ f. stored_at (f p)) (written_document w.full path (document c) w h) ∙ pick p,
)
  where
    pick :
        (p : Bytes)
        → stored_at (if same path p then the_value (document c) else w.configs p)
          ≡ (if same path p then some (timeless c) else stored_at (w.configs p))
    pick p = elim (Bool-cases (same path p)) [ inl e ↦ rw e (stored_back c r) | inr e ↦ rw e refl ]

read_ok :
    (o : Option ConfigDocument) {c : Config} {u v : Memory}
    → lift (read_at 99 o) u ≡ (ok c, v)
    → (stored_at o ≡ some (timeless c)) × IsReadable c
read_ok none h = ground arith
read_ok (some d) {c} h =
    let r = build_config_domain-IsReadable (λ id. some id) 99 d c (ap (λ z. z.0) h) in
    (ap the_value r.0, r.1)

found_ok :
    {A : Type 0} (o : Option A) {a : A} {u v : Memory} → lift (found o) u ≡ (ok a, v) → o ≡ some a
found_ok none h = ground arith
found_ok (some b) h = ground arith

pub held : Stored folder
held = record {
  stored = λ w p. stored_at (w.configs p);
  create_config_ok = λ ctx path c w r h. (written (ctx 0) path c w r h).1;
  get_config_ok = λ ctx path w h. read_ok (w.configs path) h;
  get_config_keeps = λ ctx path w h. ap (λ z. λ p. stored_at (z.1.configs p)) (sym h);
  exists_keeps = λ ctx path w h. ap (λ z. λ p. stored_at (z.1.configs p)) (sym h);
  create_folder_keeps = λ ctx path w h. ap (λ z. λ p. stored_at (z.1.configs p)) (sym h);
}

quiet : {A : Type 0} (f : Memory → Result A) → Quiet view (λ w. (f w, w))
quiet f = record { at = λ w. record { config = refl; objects = refl } }

not-same : (g h : ℕ) → h ≢ g → g == h ≡ false
not-same g h n = elim (Bool-cases (g == h)) [
  | inl e ↦ absurd (n (sym ((==_iff g h).0 e)))
  | inr e ↦ e
]

touches :
    {A : Type 0} (f : Memory → Result A) (g : ℕ) (e : Memory → List Entry)
    → Touches view g (λ w. (f w, record w { entries = λ i. if g == i then e w else w.entries i }))
touches f g e = record {
  at = λ w. record {
    config = refl;
    others = λ i n.
        let pick : (if g == i then e w else w.entries i) ≡ w.entries i = rw (not-same g i n) refl in
        ap {B = Bytes → Bytes → Option Bytes} (λ es. λ k h. find k h es) pick;
  };
}

abbrev the_list : Result (List Bytes) → List Bytes
the_list (ok l) = l
the_list _ = []

find-Mem :
    (key hash : Bytes) (es : List Entry) {text : Bytes}
    → find key hash es ≡ some text
    → Mem hash (map (λ (e : Entry). e.hash) es)
find-Mem key hash [] m = absurd (no_text m)
  where
    no_text : {text : Bytes} → Option.none ≡ some text → ⊥
    no_text h = cc
find-Mem key hash (e ∷ es) m = elim (Bool-cases (same e.hash hash)) [
  | inl s ↦
      subst (λ h. Mem h (map (λ (x : Entry). x.hash) (e ∷ es))) (same→eq e.hash hash s)
        mem-cons_self
  | inr s ↦ mem-cons_of_mem e.hash (find-Mem key hash es (rw s at m))
]

abbrev Saved : ℕ → Bytes → Bytes → Bytes → Memory → Memory → Type 0
Saved g k h r w v =
    (find k h (v.entries g) ≡ some r)
    × ((j : Bytes) → j ≢ h → find k j (v.entries g) ≡ find k j (w.entries g))

put-Saved :
    (g : ℕ) (k h r : Bytes) (w : Memory)
    → Saved g k h r w (put g (record { hash = h; key = k; text = r }) w)
put-Saved g k h r w = (
  rw ((==_iff g g).1 refl) (rw (same_refl h) (rw (same_refl k) refl)),
  λ j n. rw ((==_iff g g).1 refl) (rw (different h j n) refl),
)
  where
    different : (h j : Bytes) → j ≢ h → same h j ≡ false
    different h j n = elim (Bool-cases (same h j)) [
      | inl e ↦ absurd (n (sym (same→eq h j e)))
      | inr e ↦ e
    ]

write_objects :
    (b : Bool) (path : Bytes) (c : Config) (w : Memory)
    → view.content (write_config b path c w).1 ≡ view.content w
write_objects true path c w = refl
write_objects false path c w = go w.full (document c)
  where
    go :
        (full : Bool) (d : Result ConfigDocument)
        → view.content (write_document full path d w).1 ≡ view.content w
    go true d = refl
    go false (ok d) = refl
    go false (err e) = refl
    go false (panics p) = refl

pub lawful_objects : LawfulObjects view objects
lawful_objects = record {
  list_quiet = λ c g. quiet (λ w. ok (map (λ (e : Entry). e.hash) (w.entries g)));
  read_quiet = λ c h g k. quiet (λ w. found (find k h (w.entries g)));
  close_quiet = λ r. quiet (λ w. ok tt);
  list_ok = λ c g w h key hash text m.
      subst (λ l. Mem hash l) (ap (λ z. the_list z.0) h) (find-Mem key hash (w.entries g) m);
  source = λ r. r;
  read_ok = λ c h g k w e. found_ok (find k h (w.entries g)) e;
  save_ok = λ c h r g k w e.
      subst (λ (u : Memory). Saved g k h r w u) (ap (λ z. z.1) e) (put-Saved g k h r w);
  save_frame = λ c h r g k.
      touches (λ w. ok tt) g (λ w. record { hash = h; key = k; text = r } ∷ w.entries g);
  abort_frame = λ c g. touches (λ w. ok tt) g (λ w. []);
  delete_frame = λ c g. touches (λ w. ok tt) g (λ w. []);
}

pub lawful : Lawful view objects folder symmetric asymmetric
lawful = record {
  kept_objects = lawful_objects;
  get_config_quiet = λ c p. quiet (λ w. read_at 99 (w.configs p));
  private_key_quiet = λ c p. quiet (λ w. ok tt);
  public_key_quiet = λ c p. quiet (λ w. ok tt);
  fingerprint_quiet = λ c k. quiet (λ w. ok (codes "print"));
  decrypt_quiet = λ c k e. quiet (λ w. checked_key e);
  generate_quiet = λ c. quiet (λ w. ok (repeat 32 7));
  encrypt_quiet = λ c k e. quiet (λ w. ok e);
  get_config_ok = λ ctx path w h. read_ok (w.configs path) h;
  create_config_objects = λ ctx p c w. write_objects (ctx 0) p c w;
  create_config_ok = λ ctx path c w r h. written (ctx 0) path c w r h;
}
