-- ===== src/Repository/File/Restart.antt =====
-- What NewFileStorage finds in a file of records.
use mathlib.Core.List.{append-nil}
use shortener.Base.{
  String, ◌==◌, ◌≡◌, refl, ap, ◌∙◌, Option, false, none, some, List, [], ◌∷◌, map, if◌then◌else◌,
  arith,
}
use shortener.Base.Lists.{All}
use shortener.Base.Dict.{lookup, lookup-insert, lookup-nil}
use shortener.Errors.{ok}
use shortener.Repository.{UrlInfo}
use shortener.Repository.Disk.{FileRecord, Codec, Disk, whole, open_read, call_system}
use shortener.Repository.Memory.{MemStorage, new_mem_storage}
use shortener.Repository.File.{load_lines, load_record, new_file_storage}
use shortener.Repository.File.Durable.{ReadsBack}

-- What a restart finds for an id, or for a url: what the last record of the file says of it.
abbrev pub last_entry : String → List FileRecord → Option UrlInfo
last_entry id [] = none
last_entry id (rec ∷ recs) = elim (last_entry id recs) [
  | some info ↦ some info
  | none ↦
      if rec.short_url == id
      then some
          (record { original_url = rec.original_url; user_id = rec.user_id; deleted = rec.deleted })
      else none
]

abbrev pub last_id : String → List FileRecord → Option String
last_id url [] = none
last_id url (rec ∷ recs) = elim (last_id url recs) [
  | some id ↦ some id
  | none ↦ if rec.original_url == url then some rec.short_url else none
]

load_records : List FileRecord → MemStorage → MemStorage
load_records [] m = m
load_records (rec ∷ recs) m = load_records recs (load_record rec m)

-- The later of two finds.
abbrev or_else {ℓ} : {A : Type ℓ} → Option A → Option A → Option A
or_else (some a) o = some a
or_else none o = o

lookup-load_records :
    (id : String) (recs : List FileRecord) (m : MemStorage)
    → lookup id (load_records recs m).entries ≡ or_else (last_entry id recs) (lookup id m.entries)
unfolding load_records load_record
lookup-load_records id [] m = refl
lookup-load_records id (rec ∷ recs) m =
    let info : UrlInfo = record {
      original_url = rec.original_url;
      user_id = rec.user_id;
      deleted = rec.deleted;
    } in
    ground (
      arith,
      lookup-load_records id recs (load_record rec m),
      lookup-insert rec.short_url id info m.entries,
    )

url-load_records :
    (url : String) (recs : List FileRecord) (m : MemStorage)
    → lookup url (load_records recs m).url_to_id
      ≡ or_else (last_id url recs) (lookup url m.url_to_id)
unfolding load_records load_record
url-load_records url [] m = refl
url-load_records url (rec ∷ recs) m = ground (
  arith,
  url-load_records url recs (load_record rec m),
  lookup-insert rec.original_url url rec.short_url m.url_to_id,
)

or_else-none {ℓ} : {A : Type ℓ} (o : Option A) → or_else o none ≡ o
or_else-none (some a) = refl
or_else-none none = refl

module _ (codec : Codec) (laws : ReadsBack codec) where
  open codec use {Line, is_too_long, marshal}

  load_lines-marshal :
      (recs : List FileRecord) (m : MemStorage)
      → All (λ rec. is_too_long (marshal rec) ≡ false) recs
      → load_lines codec (map marshal recs) m ≡ (ok tt, load_records recs m)
  unfolding load_lines load_records
  load_lines-marshal [] m fits = refl
  load_lines-marshal (rec ∷ recs) m fits = ground (
    arith,
    laws.unmarshal-marshal rec,
    laws.marshal-ne-blank rec,
    load_lines-marshal recs (load_record rec m),
  )

  -- Where json.Unmarshal reads back what json.Marshal wrote, each line fits the scanner, and the
  -- system's calls work, a restart on a file of records comes up, and knows of each id what the last
  -- record with it says, its url, its owner and whether it is deleted, of each url the id of the
  -- last record with it, and of no other id or url anything.
  pub new_file_storage-marshal :
      (recs : List FileRecord) (d : Disk Line)
      → All (λ rec. is_too_long (marshal rec) ≡ false) recs
      → d.content ≡ some (whole (map marshal recs))
      → d.outcomes ≡ []
      → (m : MemStorage) × (new_file_storage codec d ≡ ok (record { mem = m; disk = d }))
        × ((id : String) → lookup id m.entries ≡ last_entry id recs)
        × ((url : String) → lookup url m.url_to_id ≡ last_id url recs)
  unfolding new_file_storage open_read call_system
  new_file_storage-marshal recs d fits written calm =
      let lines = map marshal recs in
      let loaded =
        ap (λ ls. load_lines codec ls new_mem_storage) (append-nil lines)
        ∙ load_lines-marshal recs new_mem_storage fits in
      (
        load_records recs new_mem_storage,
        ground (arith, loaded, written, calm),
        (λ id.
            lookup-load_records id recs new_mem_storage
            ∙ ap (or_else (last_entry id recs)) (lookup-nil id)
            ∙ or_else-none (last_entry id recs)),
        λ url.
            url-load_records url recs new_mem_storage
            ∙ ap (or_else (last_id url recs)) (lookup-nil url)
            ∙ or_else-none (last_id url recs),
      )
