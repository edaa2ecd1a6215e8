-- ===== src/Tests/Files.antt =====
-- The theorems on file.go at concrete files.
use shortener.Base.{true, String, map, ◌≡◌, ◌≢◌, refl, none, some, List, [], ◌∷◌, arith}
use shortener.Base.Dict.{lookup, insert}
use shortener.Errors.{ok}
use shortener.Repository.Disk.{
  FileRecord, Disk, whole, empty_file, works, fails, open_append, write_lines, create,
}
use shortener.Repository.Memory
use shortener.Repository.Memory.{
  MemStorage, mem_storage, new_mem_storage, store_row, store_rows, first_existing, mark_all_deleted,
  mark_deleted,
}
use shortener.Repository.Requests.{Request, replies}
use shortener.Repository.File.{
  FileStorage, file_storage, new_file_storage, append_records, record_of_row, load_lines,
  load_record, add, add_locked, delete_batch, delete_batch_locked, save,
}
use shortener.Repository.File.Durable.{IsDurable, ReadsBack, IndentsArrays, add-IsDurable}
use shortener.Repository.File.Restart.{last_entry, last_id, new_file_storage-marshal}
use shortener.Repository.File.Deletion.{new_file_storage-delete_batch}
use shortener.Repository.File.Refines.{replies-file_storage}
use shortener.Tests.{visit, anna, row_a, row_b, with_a, TextLine, object, bracket, lines_codec}

codec-ReadsBack : ReadsBack lines_codec
codec-ReadsBack = record { unmarshal-marshal = λ rec. refl; marshal-ne-blank = λ rec. refl }

codec-IndentsArrays : IndentsArrays lines_codec
codec-IndentsArrays = record { opening = λ recs. (bracket, [], refl, refl, refl) }

abbrev on_file : Disk TextLine → FileStorage lines_codec
on_file d = record { mem = with_a; disk = d }

-- the storage with `row_a`, on a file system that works
abbrev file_a : FileStorage lines_codec
file_a =
    on_file (record { content = some (whole (object (record_of_row row_a) ∷ [])); outcomes = [] })

-- the same, where the first call fails
abbrev broken : FileStorage lines_codec
broken = on_file (record {
  content = some (whole (object (record_of_row row_a) ∷ []));
  outcomes = works ∷ fails empty_file ∷ [];
})

file_a-IsDurable : IsDurable lines_codec file_a
unfolding load_lines load_record insert
file_a-IsDurable = (refl, refl)

-- the rows of the file, and a later record that says that the first of them is deleted
abbrev two_records : List FileRecord
two_records =
    record_of_row row_a ∷ record_of_row row_b ∷ record (record_of_row row_a) { deleted = true } ∷ []

abbrev two_lines : Disk TextLine
two_lines = record { content = some (whole (map object two_records)); outcomes = [] }

new_file_storage-marshal_example :
    (m : MemStorage) × (new_file_storage lines_codec two_lines
      ≡ ok (record { mem = m; disk = two_lines }))
    × ((id : String) → lookup id m.entries ≡ last_entry id two_records)
    × ((url : String) → lookup url m.url_to_id ≡ last_id url two_records)
new_file_storage-marshal_example =
    new_file_storage-marshal lines_codec codec-ReadsBack two_records two_lines
      (refl, (refl, (refl, tt))) refl refl

added : (add lines_codec anna row_b file_a).0 ≡ ok tt
unfolding add add_locked Memory.add_locked lookup append_records open_append write_lines
added = refl

add-IsDurable_example : IsDurable lines_codec (add lines_codec anna row_b file_a).1
add-IsDurable_example =
    add-IsDurable lines_codec codec-ReadsBack anna row_b file_a refl file_a-IsDurable added

deleted : (delete_batch lines_codec visit anna "anna" ("AA" ∷ []) file_a).0 ≡ ok tt
unfolding delete_batch delete_batch_locked mark_all_deleted mark_deleted save create write_lines
deleted = refl

new_file_storage-delete_batch_example :
    new_file_storage lines_codec
      (delete_batch lines_codec visit anna "anna" ("AA" ∷ []) file_a).1.disk
    ≢ ok file_a
new_file_storage-delete_batch_example =
    new_file_storage-delete_batch lines_codec codec-IndentsArrays visit anna "anna" "AA" [] file_a
      deleted file_a

lookup_b : lookup "AB" with_a.entries ≡ none
unfolding lookup
lookup_b = refl

add_fails : (add lines_codec anna row_b broken).0 ≢ ok tt
unfolding add add_locked Memory.add_locked lookup append_records open_append write_lines
add_fails e = ground arith

abbrev calls : List Request
calls =
    Request.add anna row_b
    ∷ Request.delete_batch anna "anna" ("AA" ∷ [])
    ∷ Request.get anna "AA"
    ∷ []

replies-file_storage_example :
    replies (file_storage lines_codec visit) calls file_a ≡ replies (mem_storage visit) calls with_a
replies-file_storage_example = replies-file_storage lines_codec visit calls file_a refl
