-- ===== src/Repository/File.antt =====
-- internal/repository/file.go: the memory storage with every row also in a file. `visit` is the
-- order in which Go ranges over a map, and `codec` is encoding/json.
pub mod Durable
pub mod Restart
pub mod Refines
pub mod Deletion
pub mod Rollback
use shortener.Base.{
  String, Bool, true, false, Option, none, some, List, [], ◌∷◌, ◌++◌, map, if◌then◌else◌,
}
use shortener.Base.Dict.{Dict, insert, delete}
use shortener.Errors.{Error, sentinel, message, wrapped, not_exist, Sentinel, Result, ok, err}
use shortener.Context.{Context, unless_done}
use shortener.Models.{Statistics}
use shortener.Repository.{Row, UrlInfo, UserUrl, Storage}
use shortener.Repository.Disk.{
  FileRecord, Codec, Disk, open_append, write_lines, create, open_read, call_system,
}
use shortener.Repository.Memory
use shortener.Repository.Memory.{MemStorage, new_mem_storage, mark_all_deleted, unless_empty}

-- os.IsNotExist, which does not look through a wrap
unfoldable pub is_not_exist : Error → Bool
is_not_exist (sentinel Sentinel.not_exist) = true
is_not_exist _ = false

abbrev pub record_of_row : Row → FileRecord
record_of_row item = record {
  short_url = item.id;
  original_url = item.original_url;
  user_id = item.user_id;
  deleted = false;
}

-- the body of the loop of `load` on a parsed line
unfoldable pub load_record : FileRecord → MemStorage → MemStorage
load_record rec m = record {
  entries =
      insert rec.short_url
        (record { original_url = rec.original_url; user_id = rec.user_id; deleted = rec.deleted })
        m.entries;
  url_to_id = insert rec.original_url rec.short_url m.url_to_id;
}

-- the undo of `add`
unfoldable pub forget_row : Row → MemStorage → MemStorage
forget_row item m = record {
  entries = delete item.id m.entries;
  url_to_id = delete item.original_url m.url_to_id;
}

-- the undo loop of `addBatch`
unfoldable pub forget_rows : List Row → MemStorage → MemStorage
forget_rows [] m = m
forget_rows (item ∷ items) m = forget_rows items (forget_row item m)

-- the record that `save` writes for an entry
abbrev pub saved_record : String × UrlInfo → FileRecord
saved_record (short, info) = record {
  short_url = short;
  original_url = info.original_url;
  user_id = "";
  deleted = false;
}

abbrev pub wrap {ℓ} : {A : Type ℓ} → String → Result A → Result A
wrap text (ok a) = ok a
wrap text (err e) = err (wrapped text e)

module _ (codec : Codec) where
  open codec use {Line, join, is_blank, is_too_long, marshal, unmarshal, encode_indented}

  pub record FileStorage : Type 0 where
    pub mem : MemStorage
    pub disk : Disk Line

  -- the loop of `load`
  unfoldable pub load_lines : List Line → MemStorage → Result (Unit {0}) × MemStorage
  unfolding load_record
  load_lines [] m = (ok tt, m)
  load_lines (line ∷ lines) m =
      let skipped = load_lines lines m in
      if is_too_long line
      then (err (wrapped "error reading file" (message "token too long")), m)
      else if is_blank line
      then skipped
      else elim (unmarshal line) [
        | none ↦ (err (wrapped "failed to parse line" (message "invalid JSON")), m)
        | some rec ↦ load_lines lines (load_record rec m)
      ]

  -- `load` on the lines of the file that it could open
  abbrev load_from : Result (List Line) × Disk Line → FileStorage → Result (Unit {0}) × FileStorage
  load_from (err e, d) fs = (
    if is_not_exist e then ok tt else err (wrapped "failed to open file" e),
    record fs { disk = d },
  )
  load_from (ok lines, d) fs =
      let (parsed, m) = load_lines lines new_mem_storage in
      let (scanned, d') = call_system d in
      (
        elim parsed [ ok _ ↦ wrap "error reading file" scanned | err e ↦ err e ],
        record { mem = m; disk = d' },
      )

  unfoldable pub load : FileStorage → Result (Unit {0}) × FileStorage
  unfolding is_not_exist
  load fs = load_from (open_read fs.disk) fs

  -- NewFileStorage, with the file system as it finds it
  unfoldable pub new_file_storage : Disk Line → Result FileStorage
  unfolding load
  new_file_storage disk =
      let (loaded, fs) = load (record { mem = new_mem_storage; disk = disk }) in
      elim loaded [
        | ok _ ↦ ok fs
        | err e ↦ if is_not_exist e then ok fs else err (wrapped "failed to create file storage" e)
      ]

  abbrev save_opened :
      List FileRecord → Result (Unit {0}) × Disk Line → Result (Unit {0}) × Disk Line
  save_opened records (ok _, d) = write_lines join (encode_indented records) d
  save_opened records (err e, d) = (err (wrapped "failed to save storage file" e), d)

  abbrev append_opened :
      List FileRecord → Result (Unit {0}) × Disk Line → Result (Unit {0}) × Disk Line
  append_opened recs (ok _, d) = write_lines join (map marshal recs) d
  append_opened recs (err e, d) = (err e, d)

  unfoldable pub append_records : List FileRecord → Disk Line → Result (Unit {0}) × Disk Line
  append_records [] d = (ok tt, d)
  append_records (rec ∷ recs) d = append_opened (rec ∷ recs) (open_append d)

  -- the rest of `add` after the memory storage took the row
  abbrev persist_row :
      Row → MemStorage → Result (Unit {0}) × Disk Line → Result (Unit {0}) × FileStorage
  persist_row info m (ok _, d) = (ok tt, record { mem = m; disk = d })
  persist_row info m (err e, d) = (
    err (wrapped "failed to add data to storage file" e),
    record { mem = forget_row info m; disk = d },
  )

  abbrev add_to_file :
      Row → Result (Unit {0}) × MemStorage → Disk Line → Result (Unit {0}) × FileStorage
  add_to_file info (err e, m) d = (err e, record { mem = m; disk = d })
  add_to_file info (ok _, m) d = persist_row info m (append_records (record_of_row info ∷ []) d)

  -- `add`, which the caller calls with the lock held
  unfoldable pub add_locked : Row → FileStorage → Result (Unit {0}) × FileStorage
  add_locked info fs = add_to_file info (Memory.add_locked info fs.mem) fs.disk

  unfoldable pub add : Context → Row → FileStorage → Result (Unit {0}) × FileStorage
  unfolding add_locked
  add ctx info fs = unless_done ctx fs (add_locked info fs)

  abbrev persist_rows :
      List Row → MemStorage → Result (Unit {0}) × Disk Line → Result (Unit {0}) × FileStorage
  persist_rows items m (ok _, d) = (ok tt, record { mem = m; disk = d })
  persist_rows items m (err e, d) = (
    err (wrapped "failed to add batch to file" e),
    record { mem = forget_rows items m; disk = d },
  )

  abbrev add_batch_to_file :
      List Row → Result (Unit {0}) × MemStorage → Disk Line → Result (Unit {0}) × FileStorage
  add_batch_to_file items (err e, m) d = (err e, record { mem = m; disk = d })
  add_batch_to_file items (ok _, m) d =
      persist_rows items m (append_records (map record_of_row items) d)

  -- the file is opened before the rows are checked
  abbrev add_batch_opened :
      List Row → MemStorage → Result (Unit {0}) × Disk Line → Result (Unit {0}) × FileStorage
  add_batch_opened items m (err e, d) =
      (err (wrapped "failed to add batch to file" e), record { mem = m; disk = d })
  add_batch_opened items m (ok _, d) = add_batch_to_file items (Memory.add_batch_locked items m) d

  -- `addBatch`, which the caller calls with the lock held
  unfoldable pub add_batch_locked : List Row → FileStorage → Result (Unit {0}) × FileStorage
  add_batch_locked items fs = add_batch_opened items fs.mem (open_append fs.disk)

  unfoldable pub add_batch : Context → List Row → FileStorage → Result (Unit {0}) × FileStorage
  unfolding add_batch_locked
  add_batch ctx items fs = unless_done ctx fs (add_batch_locked items fs)

  -- the file is there: open and close it
  abbrev ping_existing : Result (List Line) × Disk Line → Result (Unit {0}) × Disk Line
  ping_existing (ok _, d) = call_system d
  ping_existing (err e, d) = (err (wrapped "failed to check storage file" e), d)

  abbrev ping_closed : Result (Unit {0}) × Disk Line → Result (Unit {0}) × Disk Line
  ping_closed (ok _, d) = call_system d
  ping_closed (err e, d) = (err e, d)

  -- the file is not there: create, close and remove a temporary one
  abbrev ping_temporary : Result (Unit {0}) × Disk Line → Result (Unit {0}) × Disk Line
  ping_temporary (ok _, d) = ping_closed (call_system d)
  ping_temporary (err e, d) = (err (wrapped "failed to check storage file" e), d)

  abbrev ping_stat : Result (List Line) × Disk Line → Result (Unit {0}) × Disk Line
  ping_stat (ok _, d) = ping_existing (open_read d)
  ping_stat (err e, d) =
      if is_not_exist e
      then ping_temporary (call_system d)
      else (err (wrapped "failed to check storage file" e), d)

  abbrev on_disk : FileStorage → Result (Unit {0}) × Disk Line → Result (Unit {0}) × FileStorage
  on_disk fs (result, d) = (result, record fs { disk = d })

  unfoldable pub ping : Context → FileStorage → Result (Unit {0}) × FileStorage
  unfolding is_not_exist
  ping ctx fs = on_disk fs (ping_stat (open_read fs.disk))

  -- the methods that fileStorage has from the memStorage that it embeds
  abbrev on_memory {ℓ} : {A : Type ℓ} → FileStorage → Result A × MemStorage → Result A × FileStorage
  on_memory fs (result, m) = (result, record fs { mem = m })

  unfoldable pub get : Context → String → FileStorage → Result String × FileStorage
  get ctx id fs = on_memory fs (Memory.get ctx id fs.mem)

  module _ (visit : Dict UrlInfo → List (String × UrlInfo)) where
    unfoldable pub save : MemStorage → Disk Line → Result (Unit {0}) × Disk Line
    save m d = save_opened (map saved_record (visit m.entries)) (create d)

    -- `deleteBatch`, which the caller calls with the lock held
    unfoldable pub delete_batch_locked :
        String → List String → FileStorage → Result (Unit {0}) × FileStorage
    delete_batch_locked user_id short_ids fs =
        let m = record fs.mem { entries = mark_all_deleted user_id short_ids fs.mem.entries } in
        on_disk (record fs { mem = m }) (save m fs.disk)

    unfoldable pub delete_batch :
        Context → String → List String → FileStorage → Result (Unit {0}) × FileStorage
    unfolding delete_batch_locked
    delete_batch ctx user_id short_ids fs =
        unless_done ctx fs (unless_empty short_ids fs (delete_batch_locked user_id short_ids fs))

    unfoldable pub get_user_urls :
        Context → String → FileStorage → Result (List UserUrl) × FileStorage
    get_user_urls ctx user_id fs = on_memory fs (Memory.get_user_urls visit ctx user_id fs.mem)

    unfoldable pub get_stats : Context → FileStorage → Result Statistics × FileStorage
    get_stats ctx fs = on_memory fs (Memory.get_stats visit ctx fs.mem)

    -- fileStorage as a Storage
    abbrev pub file_storage : Storage
    file_storage = record {
      State = FileStorage;
      add = add;
      get = get;
      ping = ping;
      add_batch = add_batch;
      get_user_urls = get_user_urls;
      delete_batch = delete_batch;
      get_stats = get_stats;
    }
