-- ===== src/Repository/File/Refines.antt =====
-- While the file system works, file.go answers as memory.go does.
use mathlib.Core.Path.{ap₂}
use shortener.Base.{String, ◌≡◌, refl, List, [], ◌∷◌, map, arith, ◌∙◌, ap}
use shortener.Base.Dict.{Dict}
use shortener.Errors.{Result, ok}
use shortener.Context.{Context}
use shortener.Repository.{Row, UrlInfo}
use shortener.Repository.Disk.{
  FileRecord, Codec, Disk, create, write_lines, open_read, open_append, call_system,
}
use shortener.Repository.Memory
use shortener.Repository.Memory.{MemStorage, mem_storage}
use shortener.Repository.Requests.{Request, Reply, run, replies, step}
use shortener.Repository.File.{
  FileStorage, record_of_row, append_records, save, add, add_batch, delete_batch, get, ping,
  get_user_urls, get_stats, file_storage,
}

module _ (codec : Codec) where
  open codec use {Line, encode_indented}

  -- The same result and the same maps, and the file system goes on working.
  abbrev Agrees {ℓ} : {A : Type ℓ} → Result A × FileStorage codec → Result A × MemStorage → Type ℓ
  Agrees r q = (r.0 ≡ q.0) × (r.1.mem ≡ q.1) × (r.1.disk.outcomes ≡ [])

  append_records-works :
      (recs : List FileRecord) (d : Disk Line)
      → d.outcomes ≡ []
      → ((append_records codec recs d).0 ≡ ok tt) × ((append_records codec recs d).1.outcomes ≡ [])
  unfolding append_records open_append write_lines
  append_records-works [] d calm = ground arith
  append_records-works (rec ∷ recs) d calm = ground arith

  open_append-works :
      (d : Disk Line)
      → d.outcomes ≡ []
      → ((open_append d).0 ≡ ok tt) × ((open_append d).1.outcomes ≡ [])
  unfolding open_append
  open_append-works d calm = ground arith

  module _ (fs : FileStorage codec) (calm : fs.disk.outcomes ≡ []) where
    add-Agrees :
        (ctx : Context) (item : Row) → Agrees (add codec ctx item fs) (Memory.add ctx item fs.mem)
    unfolding add Memory.add
    add-Agrees ctx item = ground (arith, append_records-works (record_of_row item ∷ []) fs.disk)

    add_batch-Agrees :
        (ctx : Context) (items : List Row)
        → Agrees (add_batch codec ctx items fs) (Memory.add_batch ctx items fs.mem)
    unfolding add_batch Memory.add_batch
    add_batch-Agrees ctx items = ground (
      arith,
      open_append-works fs.disk,
      append_records-works (map record_of_row items) (open_append fs.disk).1,
    )

    ping-Agrees : (ctx : Context) → Agrees (ping codec ctx fs) (Memory.ping ctx fs.mem)
    unfolding ping Memory.ping open_read call_system
    ping-Agrees ctx = ground arith

    get-Agrees :
        (ctx : Context) (id : String) → Agrees (get codec ctx id fs) (Memory.get ctx id fs.mem)
    unfolding get
    get-Agrees ctx id = ground arith

    module _ (visit : Dict UrlInfo → List (String × UrlInfo)) where
      delete_batch-Agrees :
          (ctx : Context) (user_id : String) (ids : List String)
          → Agrees
              (delete_batch codec visit ctx user_id ids fs)
              (Memory.delete_batch ctx user_id ids fs.mem)
      unfolding delete_batch Memory.delete_batch save create write_lines
      delete_batch-Agrees ctx user_id [] = ground arith
      delete_batch-Agrees ctx user_id (id ∷ ids) = ground arith

      get_user_urls-Agrees :
          (ctx : Context) (user_id : String)
          → Agrees
              (get_user_urls codec visit ctx user_id fs)
              (Memory.get_user_urls visit ctx user_id fs.mem)
      unfolding get_user_urls Memory.get_user_urls
      get_user_urls-Agrees ctx user_id = ground arith

      get_stats-Agrees :
          (ctx : Context)
          → Agrees (get_stats codec visit ctx fs) (Memory.get_stats visit ctx fs.mem)
      unfolding get_stats Memory.get_stats
      get_stats-Agrees ctx = ground arith

      -- One call: the same reply and the same maps.
      step-Agrees :
          (r : Request)
          → ((step (file_storage codec visit) r fs).0 ≡ (step (mem_storage visit) r fs.mem).0)
            × ((step (file_storage codec visit) r fs).1.mem ≡ (step (mem_storage visit) r fs.mem).1)
            × ((step (file_storage codec visit) r fs).1.disk.outcomes ≡ [])
      step-Agrees (Request.add ctx item) =
          let (a, b, c) = add-Agrees ctx item in (ap Reply.done a, b, c)
      step-Agrees (Request.get ctx id) = let (a, b, c) = get-Agrees ctx id in (ap Reply.url a, b, c)
      step-Agrees (Request.ping ctx) = let (a, b, c) = ping-Agrees ctx in (ap Reply.done a, b, c)
      step-Agrees (Request.add_batch ctx items) =
          let (a, b, c) = add_batch-Agrees ctx items in (ap Reply.done a, b, c)
      step-Agrees (Request.get_user_urls ctx user_id) =
          let (a, b, c) = get_user_urls-Agrees ctx user_id in (ap Reply.urls a, b, c)
      step-Agrees (Request.delete_batch ctx user_id ids) =
          let (a, b, c) = delete_batch-Agrees ctx user_id ids in (ap Reply.done a, b, c)
      step-Agrees (Request.get_stats ctx) =
          let (a, b, c) = get_stats-Agrees ctx in (ap Reply.stats a, b, c)

  -- While the file system works, a file storage answers any sequence of calls as a memory storage
  -- with the same maps.
  pub replies-file_storage :
      (visit : Dict UrlInfo → List (String × UrlInfo)) (rs : List Request) (fs : FileStorage codec)
      → fs.disk.outcomes ≡ []
      → replies (file_storage codec visit) rs fs ≡ replies (mem_storage visit) rs fs.mem
  unfolding replies run
  replies-file_storage visit [] fs calm = refl
  replies-file_storage visit (r ∷ rs) fs calm =
      let (same, maps, calm') = step-Agrees fs calm visit r in
      ap₂ (λ (a : Reply) (as_ : List Reply). a ∷ as_) same
        (replies-file_storage visit rs (step (file_storage codec visit) r fs).1 calm'
          ∙ ap (λ (m : MemStorage). replies (mem_storage visit) rs m) maps)
