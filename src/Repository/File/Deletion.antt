-- ===== src/Repository/File/Deletion.antt =====
-- deleteBatch of file.go rewrites the file in a form that `load` does not read.
use mathlib.Core.List.{append-nil}
use shortener.Base.{ap, String, ◌≡◌, ◌≢◌, some, List, ◌∷◌, map, arith, inl, inr, Bool-cases}
use shortener.Base.Dict.{Dict}
use shortener.Errors.{ok, err, wrapped, message}
use shortener.Context.{Context}
use shortener.Repository.{UrlInfo}
use shortener.Repository.Disk.{
  FileRecord, Codec, Disk, whole, create, write_lines, open_read, call_system,
}
use shortener.Repository.Memory.{MemStorage, new_mem_storage, mark_all_deleted}
use shortener.Repository.File.{
  FileStorage, load_lines, new_file_storage, save, saved_record, delete_batch_locked, delete_batch,
}
use shortener.Repository.File.Durable.{IndentsArrays}

module _ (codec : Codec) (laws : IndentsArrays codec) where
  open codec use {Line, is_too_long, encode_indented}

  load_lines-indented :
      (recs : List FileRecord) (m : MemStorage)
      → (text why : String) × ((load_lines codec (encode_indented recs) m).0
          ≡ err (wrapped text (message why)))
  unfolding load_lines
  load_lines-indented recs m =
      let (line, lines, shape, solid, bad) = laws.opening recs in
      rw shape (elim (Bool-cases (is_too_long line)) [
        | inl long ↦ ("error reading file", "token too long", ground arith)
        | inr short ↦ ("failed to parse line", "invalid JSON", ground arith)
      ])

  module _ (visit : Dict UrlInfo → List (String × UrlInfo)) where
    save-content :
        (m : MemStorage) (d : Disk Line)
        → (save codec visit m d).0 ≡ ok tt
        → (save codec visit m d).1.content
          ≡ some (whole (encode_indented (map saved_record (visit m.entries))))
    unfolding save create write_lines
    save-content m d h = ground arith

    load-indented :
        (recs : List FileRecord) (d : Disk Line)
        → d.content ≡ some (whole (encode_indented recs))
        → (again : FileStorage codec) → new_file_storage codec d ≢ ok again
    unfolding new_file_storage open_read call_system
    load-indented recs d written again read =
        let (text, why, failed) = load_lines-indented recs new_mem_storage in
        ground (
          arith,
          ap (λ ls. load_lines codec ls new_mem_storage) (append-nil (encode_indented recs)),
        )

    -- A deletion that succeeds leaves the indented array in the file.
    delete_batch-content :
        (ctx : Context) (user_id id : String) (ids : List String) (fs : FileStorage codec)
        → (delete_batch codec visit ctx user_id (id ∷ ids) fs).0 ≡ ok tt
        → (recs : List FileRecord) × ((delete_batch codec visit ctx user_id
              (id ∷ ids)
              fs).1.disk.content
            ≡ some (whole (encode_indented recs)))
    unfolding delete_batch delete_batch_locked
    delete_batch-content ctx user_id id ids fs deleted =
        let m = record fs.mem { entries = mark_all_deleted user_id (id ∷ ids) fs.mem.entries } in
        (map saved_record (visit m.entries), ground (arith, save-content m fs.disk))

    -- After a deletion of at least one id that succeeds, a restart on the file fails: the file
    -- holds an indented array, whose first line is no object.
    pub new_file_storage-delete_batch :
        (ctx : Context) (user_id id : String) (ids : List String) (fs : FileStorage codec)
        → (delete_batch codec visit ctx user_id (id ∷ ids) fs).0 ≡ ok tt
        → (again : FileStorage codec)
        → new_file_storage codec (delete_batch codec visit ctx user_id (id ∷ ids) fs).1.disk
          ≢ ok again
    new_file_storage-delete_batch ctx user_id id ids fs deleted =
        let (recs, written) = delete_batch-content ctx user_id id ids fs deleted in
        load-indented recs (delete_batch codec visit ctx user_id (id ∷ ids) fs).1.disk written
