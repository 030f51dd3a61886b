-- ===== src/Storage/Objects/Listing.antt =====
-- `ListEncryptedObjects` of internal/infra/disk/object_repository.go. `filepath.WalkDir` visits the
-- files below the generation; a call for one that cannot be visited gets the error.
pub mod Parts
pub mod Complete
use stowmark.Base.{
  ℕ, zero, suc, Bytes, Bool, true, false, ◌==◌, ltb, Option, none, some, List, [], ◌∷◌, ◌++◌, Err,
  Result, ok, err, panics, drop, length, lookup, is_not_exist, if◌then◌else◌,
}
use stowmark.Base.Exec.{Exec, Ctx, ◌>>=◌, ◌>>◌, pure, raise, lift, ctx_err}
use stowmark.Storage.Files.{Fs, is_below, is_dir, paths, call}
use stowmark.Storage.Objects.{Setting, generation_path}

abbrev pub add_to_first : ℕ → List Bytes → List Bytes
add_to_first b [] = (b ∷ []) ∷ []
add_to_first b (p ∷ ps) = (b ∷ p) ∷ ps

-- `strings.Split(path, "/")`
abbrev pub split : Bytes → List Bytes
split [] = [] ∷ []
split (b ∷ bs) = let rest = split bs in if b == 47 then [] ∷ rest else add_to_first b rest

abbrev pub invalid_path : Result Bytes
invalid_path = err (Err.failure "invalid encrypted object path")

abbrev pub hash_of_parts : List Bytes → Result Bytes
hash_of_parts (p ∷ (b ∷ rest) ∷ []) = if length p == 2 then ok (p ++ b ∷ rest) else invalid_path
hash_of_parts _ = invalid_path

-- `filepath.Rel` of a path that is below the directory
abbrev pub relative : Bytes → Bytes → Bytes
relative dir path = drop (suc (length dir)) path

-- `sort.Strings`
abbrev pub less_equal : Bytes → Bytes → Bool
less_equal [] ys = true
less_equal (x ∷ xs) [] = false
less_equal (x ∷ xs) (y ∷ ys) =
    let rest = less_equal xs ys in if ltb x y then true else (if x == y then rest else false)

abbrev pub insert : Bytes → List Bytes → List Bytes
insert h [] = h ∷ []
insert h (x ∷ xs) = let rest = insert h xs in if less_equal h x then h ∷ x ∷ xs else x ∷ rest

abbrev pub sort : List Bytes → List Bytes
sort [] = []
sort (x ∷ xs) = insert x (sort xs)

abbrev pub files_below : Bytes → List Bytes → List Bytes
files_below dir [] = []
files_below dir (p ∷ ps) =
    let rest = files_below dir ps in if is_below dir p then p ∷ rest else rest

-- The call of the walk for a file: the n-th check of the context.
abbrev pub visit : Ctx → ℕ → Bytes → Bytes → Exec Fs Bytes
visit ctx n dir path = call >> (ctx_err ctx n >> lift (hash_of_parts (split (relative dir path))))

-- The walk, and the hashes that it had gathered at its end.
abbrev pub walk :
    Ctx → ℕ → Bytes → List Bytes → List Bytes → Fs → (Result (Unit {0}) × List Bytes) × Fs
walk ctx n dir hashes [] s = ((ok tt, hashes), s)
walk ctx n dir hashes (p ∷ ps) s =
    let (r, t) = visit ctx n dir p s in
    elim r [
      | ok hash ↦ walk ctx (suc n) dir (hashes ++ hash ∷ []) ps t
      | err e ↦ ((err e, hashes), t)
      | panics e ↦ ((panics e, hashes), t)
    ]

-- A directory that is not there gives the hashes so far, and no error.
abbrev pub listed : Result (Unit {0}) → List Bytes → Result (List Bytes)
listed (ok _) hashes = ok (sort hashes)
listed (err e) hashes =
    if is_not_exist e then ok hashes else err (Err.wrapped "list encrypted objects" e)
listed (panics p) hashes = panics p

abbrev pub root_found : Bool → Option Bytes → Result (Unit {0})
root_found true o = ok tt
root_found false none = err Err.not_exist
root_found false (some c) = err (Err.failure "invalid encrypted object path")

abbrev pub walked : Ctx → Bytes → Result (Unit {0}) → Fs → Result (List Bytes) × Fs
walked ctx dir (ok _) s =
    let (r, t) = walk ctx 1 dir [] (files_below dir (paths s.files)) s in (listed r.0 r.1, t)
walked ctx dir (err e) s = (listed (err e) [], s)
walked ctx dir (panics p) s = (panics p, s)

unfoldable pub list_encrypted_objects : Setting → Ctx → ℕ → Exec Fs (List Bytes)
list_encrypted_objects o ctx g = ctx_err ctx 0 >> λ s.
    let dir = generation_path o g in
    let (r, t) = (call >> λ u. (root_found (is_dir dir u) (lookup dir u.files), u)) s in
    walked ctx dir r t
