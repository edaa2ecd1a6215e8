-- ===== src/Repository/Memory/Batch.antt =====
-- AddBatch of memory.go: all rows or none, and what its check does not see.

use mathlib.Core.List.{Memᴰ}
use shortener.Base.{
  String, ◌≡◌, refl, ◌≢◌, Option-cases, none, some, List, [], ◌∷◌, eq_iff, eq_refl, ◌∙◌, arith, inl,
  inr, ◌↔◌, eq-false_of_ne,
}
use shortener.Base.Lists.{All}
use shortener.Base.Dict.{lookup, lookup-insert}
use shortener.Errors.{ok}
use shortener.Context.{Context}
use shortener.Repository.{Row}
use shortener.Repository.Memory.{
  MemStorage, get, new_info, store_row, store_rows, first_existing, add_batch, add_batch_locked,
}
use shortener.Repository.Memory.Indexed.{IsIndexed, store_row-IsIndexed}

-- Neither the id nor the url of the row is in the storage.
abbrev pub IsNewRow : MemStorage → Row → Type 0
IsNewRow m item = (lookup item.id m.entries ≡ none) × (lookup item.original_url m.url_to_id ≡ none)

abbrev pub Differs : Row → Row → Type 0
Differs x y = (x.id ≢ y.id) × (x.original_url ≢ y.original_url)

-- The rows of a batch differ in their ids and in their urls.
abbrev pub IsDistinct : List Row → Type 0
IsDistinct [] = Unit
IsDistinct (x ∷ xs) = All (Differs x) xs × IsDistinct xs

store_row-IsNewRow :
    (x y : Row) (m : MemStorage) → Differs x y → IsNewRow m y → IsNewRow (store_row x m) y
unfolding store_row
store_row-IsNewRow x y m d h = (
  ground (arith, lookup-insert x.id y.id (new_info x) m.entries, eq-false_of_ne x.id y.id d.0),
  ground (
    arith,
    lookup-insert x.original_url y.original_url x.id m.url_to_id,
    eq-false_of_ne x.original_url y.original_url d.1,
  ),
)

pub store_row-All-IsNewRow :
    (x : Row) (ys : List Row) (m : MemStorage)
    → All (Differs x) ys
    → All (IsNewRow m) ys
    → All (IsNewRow (store_row x m)) ys
store_row-All-IsNewRow x [] m d h = tt
store_row-All-IsNewRow x (y ∷ ys) m d h =
    (store_row-IsNewRow x y m d.0 h.0, store_row-All-IsNewRow x ys m d.1 h.1)

store_rows-IsIndexed :
    (items : List Row) (m : MemStorage)
    → IsIndexed m
    → IsDistinct items
    → All (IsNewRow m) items
    → IsIndexed (store_rows items m)
unfolding store_rows
store_rows-IsIndexed [] m h d new = h
store_rows-IsIndexed (x ∷ xs) m h d new =
    store_rows-IsIndexed xs (store_row x m) (store_row-IsIndexed x m h new.0.0 new.0.1) d.1
      (store_row-All-IsNewRow x xs m d.0 new.1)

-- Rows with other ids leave the entry of an id as it is.
lookup-store_rows_ne :
    (id : String) (items : List Row) (m : MemStorage)
    → All (λ item. id ≢ item.id) items
    → lookup id (store_rows items m).entries ≡ lookup id m.entries
unfolding store_rows store_row
lookup-store_rows_ne id [] m h = refl
lookup-store_rows_ne id (x ∷ xs) m h =
    lookup-store_rows_ne id xs (store_row x m) h.1
    ∙ ground (arith, lookup-insert x.id id (new_info x) m.entries, eq_iff x.id id)

All-Differs-id : (x : Row) (xs : List Row) → All (Differs x) xs → All (λ item. x.id ≢ item.id) xs
All-Differs-id x [] h = tt
All-Differs-id x (y ∷ ys) h = (h.0.0, All-Differs-id x ys h.1)

lookup-store_rows :
    (item : Row) (items : List Row) (m : MemStorage)
    → IsDistinct items
    → Memᴰ item items
    → lookup item.id (store_rows items m).entries ≡ some (new_info item)
unfolding store_rows store_row
lookup-store_rows item [] m d k = elim k [ ]
lookup-store_rows item (x ∷ xs) m d (Memᴰ.head e) = rw e (
    lookup-store_rows_ne x.id xs (store_row x m) (All-Differs-id x xs d.0)
    ∙ ground (arith, lookup-insert x.id x.id (new_info x) m.entries, eq_refl x.id))
lookup-store_rows item (x ∷ xs) m d (Memᴰ.tail k) = lookup-store_rows item xs (store_row x m) d.1 k

-- The check of a batch passes exactly when the index knows none of its urls.
pub first_existing-eq-none_iff :
    (items : List Row) (m : MemStorage)
    → (first_existing items m ≡ none)
      ↔ All (λ item. lookup item.original_url m.url_to_id ≡ none) items
unfolding first_existing
first_existing-eq-none_iff [] m = ground arith
first_existing-eq-none_iff (x ∷ xs) m = ground (arith, first_existing-eq-none_iff xs m)

All-new_urls :
    (items : List Row) (m : MemStorage)
    → All (IsNewRow m) items
    → All (λ item. lookup item.original_url m.url_to_id ≡ none) items
All-new_urls [] m h = tt
All-new_urls (x ∷ xs) m h = (h.0.1, All-new_urls xs m h.1)

add_batch-new :
    (ctx : Context) (items : List Row) (m : MemStorage)
    → ctx.done ≡ none
    → All (λ item. lookup item.original_url m.url_to_id ≡ none) items
    → add_batch ctx items m ≡ (ok tt, store_rows items m)
unfolding add_batch
add_batch-new ctx items m live new =
    let passed = (first_existing-eq-none_iff items m).1 new in ground arith

-- Where the two maps agree and the context is not done, a batch of new rows that differ in id and
-- url is stored whole, the maps still agree, and every id of it answers with its url.
pub add_batch_complete :
    (ctx : Context) (items : List Row) (m : MemStorage)
    → ctx.done ≡ none
    → IsIndexed m
    → IsDistinct items
    → All (IsNewRow m) items
    → ((add_batch ctx items m).0 ≡ ok tt)
      × IsIndexed (add_batch ctx items m).1
      × ((item : Row)
          → Memᴰ item items
          → (get ctx item.id (add_batch ctx items m).1).0 ≡ ok item.original_url)
unfolding get
add_batch_complete ctx items m live h d new =
    rw (add_batch-new ctx items m live (All-new_urls items m new)) (
      refl,
      store_rows-IsIndexed items m h d new,
      λ item k. ground (arith, lookup-store_rows item items m d k),
    )

-- The check of a batch looks at the storage alone: under a context that is not done, two rows of
-- one new url with different ids are both stored, so that each of the two ids answers with the url,
-- and the maps no longer agree.
pub add_batch_twice :
    (ctx : Context) (x y : Row) (m : MemStorage)
    → ctx.done ≡ none
    → lookup x.original_url m.url_to_id ≡ none
    → x.original_url ≡ y.original_url
    → x.id ≢ y.id
    → ((add_batch ctx (x ∷ y ∷ []) m).0 ≡ ok tt)
      × ((get ctx x.id (add_batch ctx (x ∷ y ∷ []) m).1).0 ≡ ok x.original_url)
      × ((get ctx y.id (add_batch ctx (x ∷ y ∷ []) m).1).0 ≡ ok x.original_url)
      × ¬ IsIndexed (add_batch ctx (x ∷ y ∷ []) m).1
unfolding store_rows store_row get
add_batch_twice ctx x y m live new same ne =
    rw (add_batch-new ctx (x ∷ y ∷ []) m live (new, (rw (← same) new, tt))) (
      refl,
      ground (
        arith,
        lookup-insert y.id x.id (new_info y) (store_row x m).entries,
        lookup-insert x.id x.id (new_info x) m.entries,
        eq_iff y.id x.id,
        eq_refl x.id,
      ),
      ground
          (arith, same, lookup-insert y.id y.id (new_info y) (store_row x m).entries, eq_refl y.id),
      λ h.
          let pair = h.indexed x.id (new_info x) (
            ground (
              arith,
              lookup-insert y.id x.id (new_info y) (store_row x m).entries,
              lookup-insert x.id x.id (new_info x) m.entries,
              eq_iff y.id x.id,
              eq_refl x.id,
            )) in
          ground (
            arith,
            pair,
            lookup-insert y.original_url x.original_url y.id (store_row x m).url_to_id,
            eq_iff y.original_url x.original_url,
          ),
    )

-- Rows with new ids whose urls pass the check of the batch are new.
pub All-IsNewRow :
    (items : List Row) (m : MemStorage)
    → All (λ item. lookup item.id m.entries ≡ none) items
    → All (λ item. lookup item.original_url m.url_to_id ≡ none) items
    → All (IsNewRow m) items
All-IsNewRow [] m ids urls = tt
All-IsNewRow (x ∷ xs) m ids urls = ((ids.0, urls.0), All-IsNewRow xs m ids.1 urls.1)

add_batch_locked-IsIndexed :
    (items : List Row) (m : MemStorage)
    → IsIndexed m
    → IsDistinct items
    → All (λ item. lookup item.id m.entries ≡ none) items
    → IsIndexed (add_batch_locked items m).1
unfolding add_batch_locked
add_batch_locked-IsIndexed items m h d fresh = elim (Option-cases (first_existing items m)) [
  | inl passed ↦
      rw (passed, add_batch_locked)
        (store_rows-IsIndexed items m h d
          (All-IsNewRow items m fresh ((first_existing-eq-none_iff items m).0 passed)))
  | inr (id, failed) ↦ rw (failed, add_batch_locked) h
]

-- A batch of distinct rows with new ids keeps the invariant, whether its check passes or not.
pub add_batch-IsIndexed :
    (ctx : Context) (items : List Row) (m : MemStorage)
    → IsIndexed m
    → IsDistinct items
    → All (λ item. lookup item.id m.entries ≡ none) items
    → IsIndexed (add_batch ctx items m).1
unfolding add_batch
add_batch-IsIndexed ctx items m h d fresh = elim (Option-cases ctx.done) [
  | inl live ↦ rw (live, add_batch) (add_batch_locked-IsIndexed items m h d fresh)
  | inr (e, done) ↦ rw (done, add_batch) h
]
