-- ===== src/Repository/Memory.antt =====
-- internal/repository/memory.go. A method takes the storage and returns it beside its result; the
-- mutex makes each method one step. `visit` is the order in which Go ranges over the map.
pub mod Indexed
pub mod Histories
pub mod Stats
pub mod Listing
pub mod Batch
pub mod Addition
pub mod Deletion
use shortener.Base.{
  ℕ, suc, String, Bool, true, false, not, ◌&&◌, Option, none, some, List, [], ◌∷◌, ◌++◌, ◌==◌,
  if◌then◌else◌,
}
use shortener.Base.Lists.{length}
use shortener.Base.Dict.{Dict, lookup, insert}
use shortener.Errors.{sentinel, already_exists, not_found, gone, Result, ok, err}
use shortener.Models.{Statistics}
use shortener.Context.{Context, unless_done}
use shortener.Repository.{Row, UserUrl, UrlInfo, Storage}

-- `entries` is the field data of the source
pub record MemStorage : Type 0 where
  pub entries : Dict UrlInfo
  pub url_to_id : Dict String

abbrev pub new_mem_storage : MemStorage
new_mem_storage = record { entries = []; url_to_id = [] }

abbrev pub new_info : Row → UrlInfo
new_info item = record { original_url = item.original_url; user_id = item.user_id; deleted = false }

-- the two map writes that record a row
unfoldable pub store_row : Row → MemStorage → MemStorage
store_row item m = record {
  entries = insert item.id (new_info item) m.entries;
  url_to_id = insert item.original_url item.id m.url_to_id;
}

-- `add`, which the caller calls with the lock held
unfoldable pub add_locked : Row → MemStorage → Result (Unit {0}) × MemStorage
add_locked info m = elim (lookup info.original_url m.url_to_id) [
  | some existing_id ↦ (err (already_exists existing_id), m)
  | none ↦ (ok tt, store_row info m)
]

unfoldable pub add : Context → Row → MemStorage → Result (Unit {0}) × MemStorage
unfolding add_locked
add ctx info m = unless_done ctx m (add_locked info m)

abbrev pub found : Option UrlInfo → Result String
found none = err (sentinel not_found)
found (some info) = if info.deleted then err (sentinel gone) else ok info.original_url

unfoldable pub get : Context → String → MemStorage → Result String × MemStorage
get ctx id m = unless_done ctx m (found (lookup id m.entries), m)

unfoldable pub ping : Context → MemStorage → Result (Unit {0}) × MemStorage
ping ctx m = (ok tt, m)

-- the first loop of `addBatch`: the id of the first item whose url is known
unfoldable pub first_existing : List Row → MemStorage → Option String
first_existing [] m = none
first_existing (item ∷ items) m = elim (lookup item.original_url m.url_to_id) [
  | some existing_id ↦ some existing_id
  | none ↦ first_existing items m
]

-- the second loop of `addBatch`
unfoldable pub store_rows : List Row → MemStorage → MemStorage
store_rows [] m = m
store_rows (item ∷ items) m = store_rows items (store_row item m)

-- `addBatch`, which the caller calls with the lock held
unfoldable pub add_batch_locked : List Row → MemStorage → Result (Unit {0}) × MemStorage
add_batch_locked items m = elim (first_existing items m) [
  | some existing_id ↦ (err (already_exists existing_id), m)
  | none ↦ (ok tt, store_rows items m)
]

unfoldable pub add_batch : Context → List Row → MemStorage → Result (Unit {0}) × MemStorage
unfolding add_batch_locked
add_batch ctx items m = unless_done ctx m (add_batch_locked items m)

abbrev pub is_live_of : String → String × UrlInfo → Bool
is_live_of user_id (id, info) = info.user_id == user_id && not info.deleted

abbrev pub to_user_url : String × UrlInfo → UserUrl
to_user_url (id, info) = record { short_url = id; original_url = info.original_url }

-- the loop of `GetUserURLs`
unfoldable pub collect_urls : String → List (String × UrlInfo) → List UserUrl → List UserUrl
collect_urls user_id [] result = result
collect_urls user_id (entry ∷ rest) result =
    collect_urls user_id rest
      (if is_live_of user_id entry then result ++ to_user_url entry ∷ [] else result)

-- the body of the loop of `deleteBatch`
unfoldable pub mark_deleted : String → String → Dict UrlInfo → Dict UrlInfo
mark_deleted user_id id d = elim (lookup id d) [
  | none ↦ d
  | some info ↦ if info.user_id == user_id then insert id (record info { deleted = true }) d else d
]

-- the loop of `deleteBatch`
unfoldable pub mark_all_deleted : String → List String → Dict UrlInfo → Dict UrlInfo
mark_all_deleted user_id [] d = d
mark_all_deleted user_id (id ∷ ids) d = mark_all_deleted user_id ids (mark_deleted user_id id d)

-- `deleteBatch`, which the caller calls with the lock held
unfoldable pub delete_batch_locked :
    String → List String → MemStorage → Result (Unit {0}) × MemStorage
delete_batch_locked user_id short_ids m =
    (ok tt, record m { entries = mark_all_deleted user_id short_ids m.entries })

-- `if len(shortIDs) == 0 { return nil }` before the rest of a method
abbrev pub unless_empty {ℓ} :
    {S : Type ℓ} → List String → S → Result (Unit {0}) × S → Result (Unit {0}) × S
unless_empty [] s body = (ok tt, s)
unless_empty (_ ∷ _) s body = body

unfoldable pub delete_batch :
    Context → String → List String → MemStorage → Result (Unit {0}) × MemStorage
unfolding delete_batch_locked
delete_batch ctx user_id short_ids m =
    unless_done ctx m (unless_empty short_ids m (delete_batch_locked user_id short_ids m))

-- the loop of `GetStats`: the set of users and the number of urls so far
unfoldable pub count_live : List (String × UrlInfo) → Dict Bool → ℕ → Dict Bool × ℕ
count_live [] user_set urls = (user_set, urls)
count_live ((id, info) ∷ rest) user_set urls =
    count_live rest (if info.deleted then user_set else insert info.user_id true user_set)
      (if info.deleted then urls else suc urls)

abbrev statistics : Dict Bool × ℕ → Statistics
statistics (user_set, urls) = record { urls = urls; users = length user_set }

module _ (visit : Dict UrlInfo → List (String × UrlInfo)) where
  unfoldable pub get_user_urls : Context → String → MemStorage → Result (List UserUrl) × MemStorage
  unfolding collect_urls
  get_user_urls ctx user_id m =
      unless_done ctx m (ok (collect_urls user_id (visit m.entries) []), m)

  unfoldable pub get_stats : Context → MemStorage → Result Statistics × MemStorage
  unfolding count_live
  get_stats ctx m = unless_done ctx m (ok (statistics (count_live (visit m.entries) [] 0)), m)

  -- memStorage as a Storage
  abbrev pub mem_storage : Storage
  mem_storage = record {
    State = MemStorage;
    add = add;
    get = get;
    ping = ping;
    add_batch = add_batch;
    get_user_urls = get_user_urls;
    delete_batch = delete_batch;
    get_stats = get_stats;
  }
