-- ===== src/Snapshot/Hashing/Laws.antt =====
-- A calculation gives a file its hash or its chunks, and leaves its path and size.
use stowmark.Base.{◌≡◌, sym, ap, Bool, true, false, Option, ok, le64, if◌then◌else◌, arith}
use stowmark.Base.Exec.{Ctx, pure, bind-ok}
use stowmark.Repository.Compression.{Compression}
use stowmark.Snapshot.Model.{File, chunk_threshold, SourceRepository}
use stowmark.Snapshot.Hashing.{
  Calculator, one_format_version, two_format_version, calculate, calculate_one, calculate_two,
  calculate_split, calculate_whole,
}

-- The same file, by its path and size.
pub record SameFile (f g : File) : Type 0 where
  pub path : g.path ≡ f.path
  pub size : g.size ≡ f.size

module _ {W : Type 0} (source : SourceRepository W) where
  result : {A : Type 0} {a b : A} {u v : W} → pure a u ≡ (ok b, v) → a ≡ b
  result h = ground arith

  one_SameFile :
      (ctx : Ctx) (f : File) (comp : Option Compression) (w : W) {g : File} {v : W}
      → calculate_one source ctx f comp w ≡ (ok g, v)
      → SameFile f g
  unfolding calculate_one
  one_SameFile ctx f comp w h = bind-ok (source.calculate_hash ctx f.path comp) _ w h λ hash u e t.
      record {
        path = ap (λ (x : File). x.path) (sym (result t));
        size = ap (λ (x : File). x.size) (sym (result t));
      }

  split_SameFile :
      (ctx : Ctx) (f : File) (comp : Option Compression) (w : W) {g : File} {v : W}
      → calculate_split source ctx f comp w ≡ (ok g, v)
      → SameFile f g
  unfolding calculate_split
  split_SameFile ctx f comp w h =
      bind-ok (source.calculate_chunks ctx f.path _ comp) _ w h λ c u e t. record {
        path = ap (λ (x : File). x.path) (sym (result t));
        size = ap (λ (x : File). x.size) (sym (result t));
      }

  whole_SameFile :
      (ctx : Ctx) (f : File) (comp : Option Compression) (w : W) {g : File} {v : W}
      → calculate_whole source ctx f comp w ≡ (ok g, v)
      → SameFile f g
  unfolding calculate_whole
  whole_SameFile ctx f comp w h =
      bind-ok (source.calculate_hash ctx f.path comp) _ w h λ hash u e t. record {
        path = ap (λ (x : File). x.path) (sym (result t));
        size = ap (λ (x : File). x.size) (sym (result t));
      }

  branch_SameFile :
      (b : Bool) (ctx : Ctx) (f : File) (comp : Option Compression) (w : W) {g : File} {v : W}
      → (if b then calculate_split source ctx f comp else calculate_whole source ctx f comp) w
        ≡ (ok g, v)
      → SameFile f g
  branch_SameFile true ctx f comp w h = split_SameFile ctx f comp w h
  branch_SameFile false ctx f comp w h = whole_SameFile ctx f comp w h

  -- In either format version, a calculation that succeeds gives the file that it was given, with
  -- the same path and size.
  pub calculate-SameFile :
      (c : Calculator) (ctx : Ctx) (f : File) (comp : Option Compression) (w : W) (g : File) (v : W)
      → calculate source c ctx f comp w ≡ (ok g, v)
      → SameFile f g
  unfolding calculate calculate_two
  calculate-SameFile one_format_version ctx f comp w g v h = one_SameFile ctx f comp w h
  calculate-SameFile two_format_version ctx f comp w g v h =
      branch_SameFile (le64 chunk_threshold f.size) ctx f comp w h
