-- ===== src/Repository/Memory/Histories.antt =====
-- Sequences of calls of memory.go whose generated ids are new.

use shortener.Base.{String, ◌≡◌, Option-cases, none, some, List, [], ◌∷◌, arith, inl, inr, eq_iff}
use shortener.Base.Lists.{All}
use shortener.Base.Dict.{Dict, lookup, lookup-insert}
use shortener.Context.{Context}
use shortener.Repository.{Row, UrlInfo}
use shortener.Repository.Memory.{
  MemStorage, new_mem_storage, mem_storage, new_info, store_row, store_rows, add, add_locked, get,
  ping, add_batch, add_batch_locked, delete_batch, get_user_urls, get_stats, first_existing,
}
use shortener.Repository.Memory.Indexed.{IsIndexed, IsIndexed-new, add-IsIndexed}
use shortener.Repository.Memory.Batch.{
  IsNewRow, IsDistinct, All-IsNewRow, store_row-All-IsNewRow, first_existing-eq-none_iff,
  add_batch-IsIndexed,
}
use shortener.Repository.Memory.Deletion.{
  delete_batch-IsIndexed, lookup-mark_all_deleted, marked, contains,
}
use shortener.Repository.Requests.{Request, step, run, final}

-- No entry has the id of the row.
abbrev pub HasNewId : MemStorage → Row → Type 0
HasNewId m item = lookup item.id m.entries ≡ none

-- The ids of the rows that a call brings are new, and the rows of a batch differ.
abbrev pub IsFresh : MemStorage → Request → Type 0
IsFresh m (Request.add ctx item) = HasNewId m item
IsFresh m (Request.add_batch ctx items) = IsDistinct items × All (HasNewId m) items
IsFresh m _ = Unit

module _ (visit : Dict UrlInfo → List (String × UrlInfo)) where
  get_lem : (ctx : Context) (id : String) (m : MemStorage) → (get ctx id m).1 ≡ m
  unfolding get
  get_lem ctx id m = ground arith

  get_user_urls_lem :
      (ctx : Context) (id : String) (m : MemStorage) → (get_user_urls visit ctx id m).1 ≡ m
  unfolding get_user_urls
  get_user_urls_lem ctx id m = ground arith

  get_stats_lem : (ctx : Context) (m : MemStorage) → (get_stats visit ctx m).1 ≡ m
  unfolding get_stats
  get_stats_lem ctx m = ground arith

  -- Each call brings new ids when its turn comes.
  abbrev pub AllFresh : List Request → MemStorage → Type 0
  AllFresh [] m = Unit
  AllFresh (r ∷ rs) m = IsFresh m r × AllFresh rs (step (mem_storage visit) r m).1

  pub step-IsIndexed :
      (r : Request) (m : MemStorage)
      → IsIndexed m
      → IsFresh m r
      → IsIndexed (step (mem_storage visit) r m).1
  unfolding ping
  step-IsIndexed (Request.add ctx item) m h fresh = add-IsIndexed ctx item m h fresh
  step-IsIndexed (Request.get ctx id) m h fresh = rw (get_lem ctx id m) h
  step-IsIndexed (Request.ping ctx) m h fresh = h
  step-IsIndexed (Request.add_batch ctx items) m h fresh =
      add_batch-IsIndexed ctx items m h fresh.0 fresh.1
  step-IsIndexed (Request.get_user_urls ctx user_id) m h fresh =
      rw (get_user_urls_lem ctx user_id m) h
  step-IsIndexed (Request.delete_batch ctx user_id ids) m h fresh =
      delete_batch-IsIndexed ctx user_id ids m h
  step-IsIndexed (Request.get_stats ctx) m h fresh = rw (get_stats_lem ctx m) h

  -- From the new storage, calls that bring new ids keep the two maps in agreement.
  final-IsIndexed :
      (rs : List Request) (m : MemStorage)
      → IsIndexed m
      → AllFresh rs m
      → IsIndexed (final (mem_storage visit) rs m)
  unfolding final run
  final-IsIndexed [] m h fresh = h
  final-IsIndexed (r ∷ rs) m h fresh =
      final-IsIndexed rs (step (mem_storage visit) r m).1 (step-IsIndexed r m h fresh.0) fresh.1

  -- From the new storage, the two maps agree after any sequence of calls in which every id that is
  -- brought is new when its turn comes and the rows of each batch differ.
  pub history-IsIndexed :
      (rs : List Request)
      → AllFresh rs new_mem_storage
      → IsIndexed (final (mem_storage visit) rs new_mem_storage)
  history-IsIndexed rs fresh = final-IsIndexed rs new_mem_storage IsIndexed-new fresh

  -- An entry is there, with the url and the owner of `info`.
  abbrev pub Holds : String → UrlInfo → MemStorage → Type 0
  Holds id info m =
      (now : UrlInfo) × (lookup id m.entries ≡ some now)
      × (now.original_url ≡ info.original_url)
      × (now.user_id ≡ info.user_id)

  store_row-Holds :
      (id : String) (info : UrlInfo) (item : Row) (m : MemStorage)
      → HasNewId m item
      → Holds id info m
      → Holds id info (store_row item m)
  unfolding store_row
  store_row-Holds id info item m new (now, held, url, owner) = (
    now,
    ground (arith, lookup-insert item.id id (new_info item) m.entries, eq_iff item.id id),
    url,
    owner,
  )

  store_rows-Holds :
      (id : String) (info : UrlInfo) (items : List Row) (m : MemStorage)
      → IsDistinct items
      → All (IsNewRow m) items
      → Holds id info m
      → Holds id info (store_rows items m)
  unfolding store_rows
  store_rows-Holds id info [] m d new h = h
  store_rows-Holds id info (x ∷ xs) m d new h =
      store_rows-Holds id info xs (store_row x m) d.1 (store_row-All-IsNewRow x xs m d.0 new.1)
        (store_row-Holds id info x m new.0.0 h)

  add-Holds :
      (ctx : Context) (item : Row) (id : String) (info : UrlInfo) (m : MemStorage)
      → HasNewId m item
      → Holds id info m
      → Holds id info (add ctx item m).1
  unfolding add add_locked
  add-Holds ctx item id info m new h = elim (Option-cases ctx.done) [
    | inr (e, done) ↦ rw (done, add) h
    | inl live ↦ elim (Option-cases (lookup item.original_url m.url_to_id)) [
      | inl missing ↦
          rw (live, add) (rw (missing, add_locked) (store_row-Holds id info item m new h))
      | inr (old, known) ↦ rw (live, add) (rw (known, add_locked) h)
    ]
  ]

  add_batch-Holds :
      (ctx : Context) (items : List Row) (id : String) (info : UrlInfo) (m : MemStorage)
      → IsDistinct items
      → All (HasNewId m) items
      → Holds id info m
      → Holds id info (add_batch ctx items m).1
  unfolding add_batch add_batch_locked
  add_batch-Holds ctx items id info m d fresh h = elim (Option-cases ctx.done) [
    | inr (e, done) ↦ rw (done, add_batch) h
    | inl live ↦ elim (Option-cases (first_existing items m)) [
      | inl passed ↦
          rw (live, add_batch)
            (rw (passed, add_batch_locked)
              (store_rows-Holds id info items m d
                (All-IsNewRow items m fresh ((first_existing-eq-none_iff items m).0 passed)) h))
      | inr (old, failed) ↦ rw (live, add_batch) (rw (failed, add_batch_locked) h)
    ]
  ]

  delete_batch-Holds :
      (ctx : Context) (user_id : String) (ids : List String) (id : String) (info : UrlInfo)
      (m : MemStorage)
      → Holds id info m
      → Holds id info (delete_batch ctx user_id ids m).1
  unfolding delete_batch
  delete_batch-Holds ctx user_id [] id info m (now, held, url, owner) =
      (now, ground arith, url, owner)
  delete_batch-Holds ctx user_id (x ∷ ids) id info m (now, held, url, owner) =
      elim (Option-cases ctx.done) [
        | inr (e, done) ↦ (now, ground arith, url, owner)
        | inl live ↦ (
          marked user_id (contains (x ∷ ids) id) now,
          ground (arith, lookup-mark_all_deleted user_id (x ∷ ids) id m.entries),
          ground arith,
          ground arith,
        )
      ]

  step-Holds :
      (r : Request) (id : String) (info : UrlInfo) (m : MemStorage)
      → IsFresh m r
      → Holds id info m
      → Holds id info (step (mem_storage visit) r m).1
  unfolding ping
  step-Holds (Request.add ctx item) id info m fresh h = add-Holds ctx item id info m fresh h
  step-Holds (Request.get ctx j) id info m fresh h = rw (get_lem ctx j m) h
  step-Holds (Request.ping ctx) id info m fresh h = h
  step-Holds (Request.add_batch ctx items) id info m fresh h =
      add_batch-Holds ctx items id info m fresh.0 fresh.1 h
  step-Holds (Request.get_user_urls ctx user_id) id info m fresh h =
      rw (get_user_urls_lem ctx user_id m) h
  step-Holds (Request.delete_batch ctx user_id ids) id info m fresh h =
      delete_batch-Holds ctx user_id ids id info m h
  step-Holds (Request.get_stats ctx) id info m fresh h = rw (get_stats_lem ctx m) h

  -- An id keeps its url and its owner through any sequence of calls in which every id that is
  -- brought is new when its turn comes and the rows of each batch differ.
  pub final-Holds :
      (rs : List Request) (id : String) (info : UrlInfo) (m : MemStorage)
      → AllFresh rs m
      → Holds id info m
      → Holds id info (final (mem_storage visit) rs m)
  unfolding final run
  final-Holds [] id info m fresh h = h
  final-Holds (r ∷ rs) id info m fresh h =
      final-Holds rs id info (step (mem_storage visit) r m).1 fresh.1
        (step-Holds r id info m fresh.0 h)
