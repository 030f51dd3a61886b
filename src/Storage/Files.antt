-- ===== src/Storage/Files.antt =====
-- The calls of Go's `os` and `path/filepath` that the storage on disk makes: a file system is its
-- regular files with their bytes, and its directories. A path is a text whose parts a slash
-- separates. Each call takes the next entry of `trouble`, which may be a fault: an error that is not
-- about whether a path exists, after which some bytes were written or some files removed.
pub mod Laws
pub mod Keeps
use stowmark.Base.{
  ℕ, zero, suc, ◌+◌, ◌-◌, Bytes, codes, same, lookup, Bool, true, false, not, ◌&&◌, ◌||◌, Option,
  none, some, List, [], ◌∷◌, ◌++◌, map, String, Err, Result, ok, err, panics, length, ltb, take,
  drop, if◌then◌else◌,
}
use stowmark.Base.Exec.{Exec, ◌>>=◌, ◌>>◌, pure, raise, lift}
use stowmark.Base.Replace.{starts_with}

pub record Fault : Type 0 where
  pub done : ℕ
  pub reason : String

pub record Fs : Type 0 where
  pub files : List (Bytes × Bytes)
  pub dirs : List Bytes
  pub trouble : List (Option Fault)
  -- how many times the random source was read
  pub draws : ℕ

-- `filepath.Join` of clean parts
infixr 66 ◌/-◌
abbrev pub ◌/-◌ : Bytes → Bytes → Bytes
a /- b = a ++ 47 ∷ b

-- A path is below a directory.
abbrev pub is_below : Bytes → Bytes → Bool
is_below dir path = starts_with (dir ++ 47 ∷ []) path

-- The tree at a path: the path itself and what is below.
abbrev pub is_within : Bytes → Bytes → Bool
is_within dir path = same dir path || is_below dir path

abbrev pub delete : Bytes → List (Bytes × Bytes) → List (Bytes × Bytes)
delete p [] = []
delete p ((q, c) ∷ m) = let rest = delete p m in if same q p then rest else (q, c) ∷ rest

abbrev pub put : Bytes → Bytes → List (Bytes × Bytes) → List (Bytes × Bytes)
put p c m = (p, c) ∷ delete p m

-- What is left when at most `n` of the files within a directory were removed.
abbrev pub prune : ℕ → Bytes → List (Bytes × Bytes) → List (Bytes × Bytes)
prune n dir [] = []
prune n dir ((q, c) ∷ m) = elim (is_within dir q && ltb 0 n) [
  | true ↦ prune (n - 1) dir m
  | false ↦ (q, c) ∷ prune n dir m
]

-- What is left when all of them were.
abbrev pub clear : Bytes → List (Bytes × Bytes) → List (Bytes × Bytes)
clear dir [] = []
clear dir ((q, c) ∷ m) = let rest = clear dir m in if is_within dir q then rest else (q, c) ∷ rest

abbrev pub any_within : Bytes → List Bytes → Bool
any_within p [] = false
any_within p (d ∷ ds) = is_within p d || any_within p ds

abbrev pub paths : List (Bytes × Bytes) → List Bytes
paths m = map (λ (e : Bytes × Bytes). e.0) m

abbrev pub any_below : Bytes → List Bytes → Bool
any_below p [] = false
any_below p (q ∷ qs) = is_below p q || any_below p qs

-- A directory exists if it was made, or has something below it.
abbrev pub is_dir : Bytes → Fs → Bool
is_dir p s = any_within p s.dirs || any_below p (paths s.files)

-- The next entry of `trouble`, for a call that starts.
abbrev pub fault : Fs → Option Fault × Fs
fault s = elim s.trouble [ [] ↦ (none, s) | f ∷ fs ↦ (f, record s { trouble = fs }) ]

abbrev pub outcome : Option Fault → Result (Unit {0})
outcome none = ok tt
outcome (some f) = err (Err.failure f.reason)

-- A call that changes no file, and may fail.
abbrev pub call : Exec Fs (Unit {0})
call s = let (f, s') = fault s in (outcome f, s')

abbrev pub with_files : (List (Bytes × Bytes) → List (Bytes × Bytes)) → Fs → Fs
with_files f s = record s { files = f s.files }

-- A call that does `f` to the files if it has no fault, and `g` of what was done before one.
abbrev pub changed :
    (List (Bytes × Bytes) → List (Bytes × Bytes))
    → (ℕ → List (Bytes × Bytes) → List (Bytes × Bytes))
    → Option Fault
    → Exec Fs (Unit {0})
changed f g none s = (ok tt, with_files f s)
changed f g (some x) s = (err (Err.failure x.reason), with_files (g x.done) s)

abbrev pub change :
    (List (Bytes × Bytes) → List (Bytes × Bytes))
    → (ℕ → List (Bytes × Bytes) → List (Bytes × Bytes))
    → Exec Fs (Unit {0})
change f g s = let (o, s') = fault s in changed f g o s'

abbrev pub untouched : ℕ → List (Bytes × Bytes) → List (Bytes × Bytes)
untouched n m = m

-- `os.MkdirAll`
unfoldable pub mkdir_all : Bytes → Exec Fs (Unit {0})
mkdir_all p = call >> λ s. (ok tt, record s { dirs = p ∷ s.dirs })

abbrev pub content_or : Option Bytes → Result Bytes
content_or none = err Err.not_exist
content_or (some c) = ok c

-- `os.Open`: the handle is what the file holds.
unfoldable pub open_file : Bytes → Exec Fs Bytes
open_file p = call >> λ s. (content_or (lookup p s.files), s)

abbrev present : Bool → Option Bytes → Result (Unit {0})
present is_dir (some c) = ok tt
present true none = ok tt
present false none = err Err.not_exist

-- `os.Stat`, of which only the error counts
unfoldable pub stat : Bytes → Exec Fs (Unit {0})
stat p = call >> λ s. (present (is_dir p s) (lookup p s.files), s)

abbrev pub is_taken : Bool → Option Bytes → Bool
is_taken dir none = dir
is_taken dir (some c) = true

-- `os.OpenFile` with `O_CREATE | O_EXCL`, and `os.CreateTemp` with the name that it chose
unfoldable pub create_excl : Bytes → Exec Fs (Unit {0})
create_excl p = call >> λ s.
    if is_taken (is_dir p s) (lookup p s.files)
    then (err Err.already_exist, s)
    else (ok tt, with_files (put p []) s)

-- `os.Create`, and `os.OpenFile` with `O_CREATE | O_TRUNC`
unfoldable pub create : Bytes → Exec Fs (Unit {0})
create p = change (put p []) untouched

abbrev pub content : Bytes → List (Bytes × Bytes) → Bytes
content p m = elim (lookup p m) [ none ↦ [] | some c ↦ c ]

-- `file.Write` at the end of the file: the number of bytes written
unfoldable pub write : Bytes → Bytes → Exec Fs ℕ
write p b =
    change (λ m. put p (content p m ++ b) m) (λ n m. put p (content p m ++ take n b) m) >>= λ _.
    pure (length b)

-- `file.Close` and `file.Sync`
unfoldable pub close : Exec Fs (Unit {0})
close = call

unfoldable pub sync : Exec Fs (Unit {0})
sync = call

-- `os.WriteFile`: the file is truncated, and then written.
unfoldable pub write_file : Bytes → Bytes → Exec Fs (Unit {0})
unfolding create write
write_file p b = create p >> (write p b >>= λ _. call)

-- `os.Rename` of a file
abbrev pub renamed : Bytes → Bytes → Option Bytes → Exec Fs (Unit {0})
renamed a b none s = (err Err.not_exist, s)
renamed a b (some c) s = (ok tt, with_files (λ m. put b c (delete a m)) s)

unfoldable pub rename : Bytes → Bytes → Exec Fs (Unit {0})
rename a b = call >> λ s. renamed a b (lookup a s.files) s

abbrev pub without : Bytes → List Bytes → List Bytes
without p [] = []
without p (d ∷ ds) = let rest = without p ds in if same p d then rest else d ∷ rest

abbrev pub outside : Bytes → List Bytes → List Bytes
outside p [] = []
outside p (d ∷ ds) = let rest = outside p ds in if is_within p d then rest else d ∷ rest

-- `os.Remove`: a file, or a directory with nothing in it
abbrev pub removed : Bytes → Option Bytes → Exec Fs (Unit {0})
removed p (some c) s = (ok tt, with_files (delete p) s)
removed p none s =
    if any_below p (paths s.files) || any_below p s.dirs
    then (err (Err.failure "directory not empty"), s)
    else (if is_dir p s
        then (ok tt, record s { dirs = without p s.dirs })
        else (err Err.not_exist, s))

unfoldable pub remove : Bytes → Exec Fs (Unit {0})
remove p = call >> λ s. removed p (lookup p s.files) s

-- `os.RemoveAll`
unfoldable pub remove_all : Bytes → Exec Fs (Unit {0})
remove_all dir =
    change (clear dir) (λ n. prune n dir) >> λ s. (ok tt, record s { dirs = outside dir s.dirs })

-- `rand.Read`: the n-th draw of so many bytes
unfoldable pub random : (ℕ → ℕ → Bytes) → ℕ → Exec Fs Bytes
random draw size = call >> λ s. (ok (draw size s.draws), record s { draws = s.draws + 1 })

-- A deferred clean-up that runs unless the call succeeded; its own error is dropped.
abbrev pub undone : {W A : Type 0} → Exec W (Unit {0}) → Result A → Exec W A
undone c (ok a) w = (ok a, w)
undone c (err e) w = (err e, (c w).1)
undone c (panics p) w = (panics p, (c w).1)

abbrev pub unless_ok : {W A : Type 0} → Exec W A → Exec W (Unit {0}) → Exec W A
unless_ok m c w = let (r, u) = m w in undone c r u
