-- ===== src/Storage/Hashes.antt =====
-- `GetHashes` of internal/infra/object/hash.go and `objectHashes` of
-- internal/infra/disk/object_repository.go: the objects of a file that is restored.
use stowmark.Base.{
  Bytes, ◌≡◌, ◌≤◌, ◌∙◌, ◌↔◌, sym, refl, ap, false, Bool-cases, inl, inr, Option, none, some, List,
  [], ◌∷◌, ◌++◌, map, Result, ok, err, Err, length, All, ltb, if◌then◌else◌, arith,
}
use stowmark.Snapshot.Model.{Chunk, File}

abbrev pub invalid_chunk_hash : Err
invalid_chunk_hash = Err.failure "invalid hash for chunk"

abbrev pub invalid_object_hash : Err
invalid_object_hash = Err.failure "invalid object hash"

-- The loop over the chunks, with the hashes so far.
pub chunk_hashes : List Chunk → List Bytes → Result (List Bytes)
chunk_hashes [] hashes = ok hashes
chunk_hashes (c ∷ cs) hashes =
    let rest = chunk_hashes cs (hashes ++ c.hash ∷ []) in
    if ltb (length c.hash) 3 then err invalid_chunk_hash else rest

abbrev hashes_of : File → List Chunk → Result (List Bytes)
hashes_of f [] = if ltb (length f.hash) 3 then err invalid_object_hash else ok (f.hash ∷ [])
hashes_of f (c ∷ cs) = chunk_hashes (c ∷ cs) []

unfoldable pub object_hashes : File → Result (List Bytes)
unfolding chunk_hashes
object_hashes f = hashes_of f f.chunks

unfoldable pub get_hashes : Option File → Result (List Bytes)
unfolding object_hashes
get_hashes none = err (Err.failure "snapshot object is required")
get_hashes (some f) = object_hashes f

-- The hashes that a file's content is made of: those of its chunks, or its own if it has none.
abbrev pub parts_in : File → List Chunk → List Bytes
parts_in f [] = f.hash ∷ []
parts_in f (c ∷ cs) = map (λ (x : Chunk). x.hash) (c ∷ cs)

abbrev pub parts : File → List Bytes
parts f = parts_in f f.chunks

abbrev pub IsLong : Bytes → Type 0
IsLong hash = 3 ≤ length hash

append_assoc :
    {A : Type 0} (xs : List A) (y : A) (zs : List A) → (xs ++ y ∷ []) ++ zs ≡ xs ++ y ∷ zs
append_assoc [] y zs = refl
append_assoc (x ∷ xs) y zs = ap (λ r. x ∷ r) (append_assoc xs y zs)

append_nil : {A : Type 0} (xs : List A) → xs ++ [] ≡ xs
append_nil [] = refl
append_nil (x ∷ xs) = ap (λ r. x ∷ r) (append_nil xs)

abbrev hashes : List Chunk → List Bytes
hashes cs = map (λ (x : Chunk). x.hash) cs

result : {A : Type 0} {a b : A} → ok a ≡ ok b → b ≡ a
result h = ground arith

chunk_hashes_ok :
    (cs : List Chunk) (before out : List Bytes)
    → chunk_hashes cs before ≡ ok out
    → (out ≡ before ++ hashes cs) × All IsLong (hashes cs)
unfolding chunk_hashes
chunk_hashes_ok [] before out h = (result h ∙ sym (append_nil before), tt)
chunk_hashes_ok (c ∷ cs) before out h = elim (Bool-cases (ltb (length c.hash) 3)) [
  | inl e ↦ ground (arith, rw e at h)
  | inr e ↦
      let (p, q) = chunk_hashes_ok cs (before ++ c.hash ∷ []) out (rw e at h) in
      (p ∙ append_assoc before c.hash (hashes cs), (ground arith, q))
]

chunk_hashes_long :
    (cs : List Chunk) (before : List Bytes)
    → All IsLong (hashes cs)
    → chunk_hashes cs before ≡ ok (before ++ hashes cs)
unfolding chunk_hashes
chunk_hashes_long [] before l = ap ok (sym (append_nil before))
chunk_hashes_long (c ∷ cs) before (l, ls) =
    let short : ltb (length c.hash) 3 ≡ false = ground arith in
    rw short (
      chunk_hashes_long cs (before ++ c.hash ∷ []) ls
      ∙ ap ok (append_assoc before c.hash (hashes cs)))

of_file_lem :
    (f : File) (cs : List Chunk) (out : List Bytes)
    → (hashes_of f cs ≡ ok out) ↔ ((out ≡ parts_in f cs) × All IsLong (parts_in f cs))
of_file_lem f [] out = (
  λ h. elim (Bool-cases (ltb (length f.hash) 3)) [
    | inl e ↦ ground (arith, rw e at h)
    | inr e ↦ (result (rw e at h), (ground arith, tt))
  ],
  λ h. let short : ltb (length f.hash) 3 ≡ false = ground arith in rw short (ap ok (sym h.0)),
)
of_file_lem f (c ∷ cs) out = (
  λ h. chunk_hashes_ok (c ∷ cs) [] out h,
  λ h. chunk_hashes_long (c ∷ cs) [] h.1 ∙ ap ok (sym h.0),
)

-- The objects of a file are found exactly when each of the hashes that its content is made of has
-- at least three bytes, and then they are those hashes in their order.
pub object_hashes_lem :
    (f : File) (out : List Bytes)
    → (object_hashes f ≡ ok out) ↔ ((out ≡ parts f) × All IsLong (parts f))
unfolding object_hashes
object_hashes_lem f out = of_file_lem f f.chunks out
