-- ===== src/Repository/Memory/Deletion.antt =====
-- What deleteBatch of memory.go does to every entry, and to no other.
use mathlib.Core.Option
use shortener.Base.{
  String, ◌≡◌, Bool, Option-cases, true, false, Option, none, some, List, [], ◌∷◌, ◌==◌, eq_iff,
  eq_refl, ◌∙◌, arith, inl, inr, ◌&&◌, ◌||◌, if◌then◌else◌,
}
use shortener.Base.Dict.{Dict, lookup, insert, IsUnique, lookup-insert, insert-IsUnique}
use shortener.Errors.{Result, ok, err, sentinel, already_exists, not_found, gone}
use shortener.Context.{Context}
use shortener.Repository.{Row, UrlInfo}
use shortener.Repository.Memory.{
  MemStorage, mark_deleted, mark_all_deleted, delete_batch, delete_batch_locked, unless_empty, get,
  add,
}
use shortener.Repository.Memory.Indexed.{IsIndexed}

abbrev pub contains : List String → String → Bool
contains [] id = false
contains (x ∷ xs) id = (x == id) || contains xs id

-- An entry of the user is marked as deleted if `chosen`; any other is left as it is.
abbrev pub marked : String → Bool → UrlInfo → UrlInfo
marked user_id chosen info =
    if chosen && (info.user_id == user_id) then record info { deleted = true } else info

lookup-mark_deleted :
    (user_id id j : String) (d : Dict UrlInfo)
    → lookup j (mark_deleted user_id id d) ≡ Option.map (marked user_id (id == j)) (lookup j d)
unfolding mark_deleted
lookup-mark_deleted user_id id j d = elim (Option-cases (lookup id d)) [
  | inl missing ↦ ground (arith, eq_iff id j)
  | inr (info, found) ↦
      ground (arith, eq_iff id j, lookup-insert id j (record info { deleted = true }) d)
]

-- Every entry after the loop is the entry before it, marked if its id is listed.
pub lookup-mark_all_deleted :
    (user_id : String) (ids : List String) (j : String) (d : Dict UrlInfo)
    → lookup j (mark_all_deleted user_id ids d)
      ≡ Option.map (marked user_id (contains ids j)) (lookup j d)
unfolding mark_all_deleted
lookup-mark_all_deleted user_id [] j d = ground arith
lookup-mark_all_deleted user_id (id ∷ ids) j d = ground (
  arith,
  lookup-mark_all_deleted user_id ids j (mark_deleted user_id id d),
  lookup-mark_deleted user_id id j d,
)

mark_deleted-IsUnique :
    (user_id id : String) (d : Dict UrlInfo) → IsUnique d → IsUnique (mark_deleted user_id id d)
unfolding mark_deleted
mark_deleted-IsUnique user_id id d h = elim (Option-cases (lookup id d)) [
  | inl missing ↦ rw (missing, mark_deleted) h
  | inr (info, found) ↦
      rw (found, mark_deleted)
        (elim (info.user_id == user_id)
          as (λ b. IsUnique (if b then insert id (record info { deleted = true }) d else d)) [
            | true ↦ insert-IsUnique id _ d h
            | false ↦ h
          ])
]

mark_all_deleted-IsUnique :
    (user_id : String) (ids : List String) (d : Dict UrlInfo)
    → IsUnique d
    → IsUnique (mark_all_deleted user_id ids d)
unfolding mark_all_deleted
mark_all_deleted-IsUnique user_id [] d h = h
mark_all_deleted-IsUnique user_id (id ∷ ids) d h =
    mark_all_deleted-IsUnique user_id ids (mark_deleted user_id id d)
      (mark_deleted-IsUnique user_id id d h)

pub delete_batch_locked-IsIndexed :
    (user_id : String) (ids : List String) (m : MemStorage)
    → IsIndexed m
    → IsIndexed (delete_batch_locked user_id ids m).1
unfolding delete_batch_locked
delete_batch_locked-IsIndexed user_id ids m h = record {
  unique_ids = mark_all_deleted-IsUnique user_id ids m.entries h.unique_ids;
  unique_urls = h.unique_urls;
  indexed = λ id info e. elim (Option-cases (lookup id m.entries)) [
    | inl missing ↦ ground (arith, lookup-mark_all_deleted user_id ids id m.entries)
    | inr (old, found) ↦
        ground (arith, h.indexed id old found, lookup-mark_all_deleted user_id ids id m.entries)
  ];
  stored = λ url id e.
      let (info, found, same) = h.stored url id e in
      (
        marked user_id (contains ids id) info,
        ground (arith, lookup-mark_all_deleted user_id ids id m.entries),
        ground arith,
      );
}

pub delete_batch-IsIndexed :
    (ctx : Context) (user_id : String) (ids : List String) (m : MemStorage)
    → IsIndexed m
    → IsIndexed (delete_batch ctx user_id ids m).1
unfolding delete_batch
delete_batch-IsIndexed ctx user_id ids m h = elim (Option-cases ctx.done) [
  | inl live ↦ rw (live, delete_batch) (of_list ids)
  | inr (e, done) ↦ rw (done, delete_batch) h
]
  where
    of_list :
        (ids : List String) → IsIndexed (unless_empty ids m (delete_batch_locked user_id ids m)).1
    of_list [] = h
    of_list (id ∷ ids) = delete_batch_locked-IsIndexed user_id (id ∷ ids) m h

-- What `get` answers for one entry after a deletion by `user_id` that lists its id or not.
abbrev pub answer_after : String → Bool → Option UrlInfo → Result String
answer_after user_id listed none = err (sentinel not_found)
answer_after user_id listed (some info) =
    if info.deleted || (listed && (info.user_id == user_id))
    then err (sentinel gone)
    else ok info.original_url

-- After a deletion, under contexts that are not done, a listed id of the user is gone, and every
-- other id answers as before.
pub get-delete_batch :
    (ctx reader : Context) (user_id : String) (ids : List String) (id : String) (m : MemStorage)
    → ctx.done ≡ none
    → reader.done ≡ none
    → (get reader id (delete_batch ctx user_id ids m).1).0
      ≡ answer_after user_id (contains ids id) (lookup id m.entries)
unfolding get delete_batch
get-delete_batch ctx reader user_id [] id m live reads = ground arith
get-delete_batch ctx reader user_id (x ∷ ids) id m live reads =
    ground (arith, lookup-mark_all_deleted user_id (x ∷ ids) id m.entries)

-- Where the two maps agree and the context is not done, a url that its owner deletes is gone for
-- readers but stays in the index: shortening it again answers with the id that is gone.
pub add-delete_batch :
    (ctx : Context) (id : String) (info : UrlInfo) (item : Row) (m : MemStorage)
    → IsIndexed m
    → ctx.done ≡ none
    → lookup id m.entries ≡ some info
    → item.original_url ≡ info.original_url
    → let m' = (delete_batch ctx info.user_id (id ∷ []) m).1 in
      ((get ctx id m').0 ≡ err (sentinel gone)) × (add ctx item m' ≡ (err (already_exists id), m'))
add-delete_batch ctx id info item m h live held same = (
  get-delete_batch ctx ctx info.user_id (id ∷ []) id m live live
      ∙ ground (arith, eq_refl id, eq_refl info.user_id),
  unfold add delete_batch in ground (arith, h.indexed id info held),
)
