-- ===== src/Snapshot/Restore/Paths.antt =====
-- Where a file of a snapshot is restored to.
use stowmark.Base.{ℕ, Bytes, ◌≡◌, ◌∙◌, some, ◌∷◌, ◌++◌, ap}
use stowmark.Base.Replace.{IsAbsent, replace_all, replace_all-prefix, replace_all_absent}
use stowmark.Snapshot.Model.{File, change_source_path}
use stowmark.Snapshot.Restore.{relocate}

-- A file below the source directory goes to the same place below the destination, and keeps its
-- size, hash and chunks, if the source's path does not occur in the rest of the file's path.
pub relocate_below :
    (o : ℕ) (source destination rest : Bytes) (f : File)
    → f.path ≡ (o ∷ source) ++ rest
    → IsAbsent (o ∷ source) rest
    → relocate (o ∷ source) (some destination) f ≡ record f { path = destination ++ rest }
unfolding change_source_path relocate
relocate_below o source destination rest f e absent =
    ap (λ (p : Bytes). record f { path = p })
      (ap (λ (p : Bytes). replace_all p (o ∷ source) destination) e
        ∙ replace_all-prefix o source destination rest
        ∙ ap (λ (p : Bytes). destination ++ p)
            (replace_all_absent rest o source destination absent))

-- Where the source's path occurs again right behind the source directory, that occurrence is
-- replaced too.
pub relocate_twice :
    (o : ℕ) (source destination rest : Bytes) (f : File)
    → f.path ≡ (o ∷ source) ++ ((o ∷ source) ++ rest)
    → IsAbsent (o ∷ source) rest
    → (relocate (o ∷ source) (some destination) f).path ≡ destination ++ (destination ++ rest)
unfolding change_source_path relocate
relocate_twice o source destination rest f e absent =
    ap (λ (p : Bytes). replace_all p (o ∷ source) destination) e
    ∙ replace_all-prefix o source destination ((o ∷ source) ++ rest)
    ∙ ap (λ (p : Bytes). destination ++ p)
        (replace_all-prefix o source destination rest
          ∙ ap (λ (p : Bytes). destination ++ p)
              (replace_all_absent rest o source destination absent))
