-- ===== src/Repository/Memory/Addition.antt =====
-- What Add of memory.go does on every branch, and what Get answers after it.

use shortener.Base.{
  String, ◌≡◌, ◌≢◌, Option-cases, none, some, ◌==◌, eq_iff, arith, inl, inr, ◌↔◌, if◌then◌else◌,
}
use shortener.Base.Dict.{lookup, lookup-insert}
use shortener.Errors.{ok, err, already_exists}
use shortener.Context.{Context}
use shortener.Repository.{Row, UrlInfo}
use shortener.Repository.Memory.{MemStorage, get, add, new_info, store_row}
use shortener.Repository.Memory.Indexed.{IsIndexed}

-- A new url is stored: its id then answers with it, and every other id as before.
pub get-add :
    (ctx reader : Context) (item : Row) (id : String) (m : MemStorage)
    → ctx.done ≡ none
    → reader.done ≡ none
    → lookup item.original_url m.url_to_id ≡ none
    → ((add ctx item m).0 ≡ ok tt)
      × ((get reader id (add ctx item m).1).0
          ≡ (if item.id == id then ok item.original_url else (get reader id m).0))
unfolding get add store_row
get-add ctx reader item id m live reads new =
    (ground arith, ground (arith, lookup-insert item.id id (new_info item) m.entries))

-- A second `add` of a url answers with the id of the first and changes nothing.
pub add-add :
    (ctx again : Context) (item copy : Row) (m : MemStorage)
    → ctx.done ≡ none
    → again.done ≡ none
    → lookup item.original_url m.url_to_id ≡ none
    → copy.original_url ≡ item.original_url
    → add again copy (add ctx item m).1 ≡ (err (already_exists item.id), (add ctx item m).1)
unfolding add store_row
add-add ctx again item copy m live live' new same = ground (
  arith,
  lookup-insert item.original_url copy.original_url item.id m.url_to_id,
  eq_iff item.original_url copy.original_url,
)

-- No entry holds the url.
abbrev pub IsNewUrl : String → MemStorage → Type 0
IsNewUrl url m =
    (id : String) (info : UrlInfo) → lookup id m.entries ≡ some info → info.original_url ≢ url

-- Where the two maps agree and the context is not done, `add` succeeds exactly when no entry,
-- deleted or not, holds the url.
pub add-eq-ok_iff :
    (ctx : Context) (item : Row) (m : MemStorage)
    → IsIndexed m
    → ctx.done ≡ none
    → ((add ctx item m).0 ≡ ok tt) ↔ IsNewUrl item.original_url m
unfolding add
add-eq-ok_iff ctx item m h live = (
  λ e id info held same. ground (arith, h.indexed id info held),
  λ new. elim (Option-cases (lookup item.original_url m.url_to_id)) [
    | inl missing ↦ ground arith
    | inr (id, old) ↦
        let (info, held, same) = h.stored item.original_url id old in absurd (new id info held same)
  ],
)
