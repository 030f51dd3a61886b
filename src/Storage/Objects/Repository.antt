-- ===== src/Storage/Objects/Repository.antt =====
-- The objects on a disk as the domain's interface. A reader is the bytes that it gives.
use stowmark.Base.{Bytes, Result, ok, err, panics}
use stowmark.Base.Exec.{Exec, Ctx}
use stowmark.Snapshot.Model.{ObjectRepository}
use stowmark.Storage.Files.{Fs, close}
use stowmark.Storage.Objects.{Setting, read_object, already_exists, read_encrypted_object}
use stowmark.Storage.Objects.Listing.{list_encrypted_objects}
use stowmark.Storage.Objects.Reads.{read_all}
use stowmark.Storage.Objects.Rekeyed.{save_rekeyed_object, delete_encrypted_generation, abort_rekey}
use stowmark.Storage.Objects.Restore.{restore_object}
use stowmark.Storage.Objects.Save.{save}
use stowmark.Storage.Objects.SaveChunk.{save_chunk}

abbrev pub text_of : Bytes → Result (Unit {0}) → Result Bytes
text_of text (ok _) = ok text
text_of text (err e) = err e
text_of text (panics p) = panics p

abbrev pub read_to_end : Ctx → Bytes → Exec Fs Bytes
read_to_end ctx text s = let (r, t) = read_all ctx 0 text s in (text_of r.text r.outcome, t)

abbrev pub object_repository : Setting → ObjectRepository Fs Bytes
object_repository o = record {
  save = save o;
  already_exists = already_exists o;
  read_object = read_object o;
  restore_object = restore_object o;
  save_chunk = save_chunk o;
  list_encrypted_objects = list_encrypted_objects o;
  read_encrypted_object = read_encrypted_object o;
  save_rekeyed_object = save_rekeyed_object o;
  delete_encrypted_generation = delete_encrypted_generation o;
  abort_rekey = abort_rekey o;
  read_all = read_to_end;
  close = λ text. close;
}
