-- ===== src/Repository/Memory/Indexed.antt =====
-- The two maps of memory.go agree: the index from urls to ids is the inverse of the stored urls.
use shortener.Base.{
  String, ◌≡◌, Bool-cases, Option-cases, none, some, ◌==◌, eq_iff, arith, inl, inr,
}
use shortener.Base.Dict.{lookup, IsUnique, lookup-insert, insert-IsUnique}
use shortener.Context.{Context}
use shortener.Repository.{Row, UrlInfo}
use shortener.Repository.Memory.{MemStorage, new_mem_storage, new_info, store_row, add, add_locked}

pub record IsIndexed (m : MemStorage) : Type 0 where
  pub unique_ids : IsUnique m.entries
  pub unique_urls : IsUnique m.url_to_id
  -- a stored url is in the index, under the id that holds it
  pub indexed :
      (id : String) (info : UrlInfo)
      → lookup id m.entries ≡ some info
      → lookup info.original_url m.url_to_id ≡ some id
  -- an id of the index holds that url
  pub stored :
      (url id : String)
      → lookup url m.url_to_id ≡ some id
      → (info : UrlInfo) × (lookup id m.entries ≡ some info) × (info.original_url ≡ url)

pub IsIndexed-new : IsIndexed new_mem_storage
unfolding lookup
IsIndexed-new = record {
  unique_ids = tt;
  unique_urls = tt;
  indexed = λ id info h. cc;
  stored = λ url id h. cc;
}

module _ (item : Row) (m : MemStorage) (h : IsIndexed m) (fresh : lookup item.id m.entries ≡ none)
    (new : lookup item.original_url m.url_to_id ≡ none) where
  store_row-indexed :
      (id : String) (info : UrlInfo)
      → lookup id (store_row item m).entries ≡ some info
      → lookup info.original_url (store_row item m).url_to_id ≡ some id
  unfolding store_row
  store_row-indexed id info e = ground (
    arith,
    lookup-insert item.id id (new_info item) m.entries,
    lookup-insert item.original_url info.original_url item.id m.url_to_id,
    eq_iff item.id id,
    eq_iff item.original_url info.original_url,
    h.indexed id info,
  )

  store_row-stored :
      (url id : String)
      → lookup url (store_row item m).url_to_id ≡ some id
      → (info : UrlInfo) × (lookup id (store_row item m).entries ≡ some info)
        × (info.original_url ≡ url)
  unfolding store_row
  store_row-stored url id e = elim (Bool-cases (item.original_url == url)) [
    | inl same ↦ (
      new_info item,
      ground (
        arith,
        lookup-insert item.id id (new_info item) m.entries,
        lookup-insert item.original_url url item.id m.url_to_id,
        eq_iff item.id id,
      ),
      (eq_iff item.original_url url).0 same,
    )
    | inr other ↦
        let (info, found, same_url) =
          h.stored url id
            (ground (arith, lookup-insert item.original_url url item.id m.url_to_id)) in
        (
          info,
          ground (arith, lookup-insert item.id id (new_info item) m.entries, eq_iff item.id id),
          same_url,
        )
  ]

  pub store_row-IsIndexed : IsIndexed (store_row item m)
  unfolding store_row
  store_row-IsIndexed = record {
    unique_ids = insert-IsUnique item.id (new_info item) m.entries h.unique_ids;
    unique_urls = insert-IsUnique item.original_url item.id m.url_to_id h.unique_urls;
    indexed = store_row-indexed;
    stored = store_row-stored;
  }

-- `add` keeps the invariant if the id is new; on an error it needs nothing.
pub add_locked-IsIndexed :
    (item : Row) (m : MemStorage)
    → IsIndexed m
    → lookup item.id m.entries ≡ none
    → IsIndexed (add_locked item m).1
unfolding add_locked
add_locked-IsIndexed item m h fresh = elim (Option-cases (lookup item.original_url m.url_to_id)) [
  | inl new ↦ rw (new, add_locked) (store_row-IsIndexed item m h fresh new)
  | inr (id, old) ↦ rw (old, add_locked) h
]

pub add-IsIndexed :
    (ctx : Context) (item : Row) (m : MemStorage)
    → IsIndexed m
    → lookup item.id m.entries ≡ none
    → IsIndexed (add ctx item m).1
unfolding add
add-IsIndexed ctx item m h fresh = elim (Option-cases ctx.done) [
  | inl live ↦ rw (live, add) (add_locked-IsIndexed item m h fresh)
  | inr (e, done) ↦ rw (done, add) h
]
