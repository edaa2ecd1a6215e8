-- ===== src/Service.antt =====
-- internal/service/service.go over any Storage. `random` is what crypto/rand gives for each id.
pub mod Shortening
pub mod Batch
use Prim.Native.Nat.{compare}
use Prim.Native.Char.{Char, code}
use Prim.Native.String
use shortener.Base.{
  ℕ, suc, map, String, Bool, Option, none, some, List, [], ◌∷◌, ◌++◌, if◌then◌else◌, nat_eq,
}
use shortener.Base.Text.{◌+s◌, is_empty, trim_right, trim_space}
use shortener.Errors.{
  Error, sentinel, message, wrapped, empty_url, empty_batch, duplicate, gone, is_error,
  as_already_exists, Result, ok, err,
}
use shortener.Models.{BatchShortenRequest, BatchShortenResponse, UserUrl, Statistics}
use shortener.Context.{Context, get_user_id_from_context}
use shortener.Utils.{generate_id}
use shortener.Repository as Repository
use shortener.Repository.{Row, Storage}

-- the fields of endpointService beside its storage
pub record ServiceConfig : Type 0 where
  pub show_addr : String
  pub id_size : ℕ

abbrev is_slash : Char → Bool
is_slash c = nat_eq (code c) b'/'

-- getURLFromID, whose error is always nil
unfoldable pub get_url_from_id : ServiceConfig → String → String → String → String
get_url_from_id service id scheme host =
    let scheme' = if is_empty scheme then "http" else scheme in
    let base = if is_empty service.show_addr then scheme' +s "://" +s host else service.show_addr in
    trim_right is_slash base +s "/" +s id

-- the loop of CreateShortURLsBatch: the rows and the responses, or its early return; `random` gives
-- the bytes of each call of GenerateID
unfoldable pub build_batch :
    ServiceConfig
    → String
    → String
    → (ℕ → List ℕ)
    → List BatchShortenRequest
    → List Row
    → List BatchShortenResponse
    → Result (List Row × List BatchShortenResponse)
build_batch service scheme host random [] items resp = ok (items, resp)
build_batch service scheme host random (r ∷ rs) items resp =
    let id = generate_id service.id_size (random 0) in
    let rest =
      build_batch service scheme host (λ n. random (suc n)) rs
        (items ++ record { id = id; original_url = r.original_url; user_id = "" } ∷ [])
        (resp
          ++ record {
            correlation_id = r.correlation_id;
            short_url = get_url_from_id service id scheme host;
          }
            ∷ []) in
    if is_empty r.original_url then err (sentinel empty_url) else rest

module _ (storage : Storage) (service : ServiceConfig) where
  open storage use {State}

  -- CreateShortURL after storage.Add has answered; a pair (string, error) as in Go
  abbrev created :
      String → String → String → Result (Unit {0}) × State → (String × Option Error) × State
  created id scheme host (ok _, st) = ((get_url_from_id service id scheme host, none), st)
  created id scheme host (err e, st) = elim (as_already_exists e) [
    | some existing_id ↦
        ((get_url_from_id service existing_id scheme host, some (sentinel duplicate)), st)
    | none ↦ (("", some (wrapped "failed to create short url" e)), st)
  ]

  abbrev create_for :
      Context → String → String → String → List ℕ → String → State → (String × Option Error) × State
  create_for ctx original scheme host random user_id st =
      if is_empty original
      then (("", some (sentinel empty_url)), st)
      else (let id = generate_id service.id_size random in
          created id scheme host
            (storage.add ctx (record { id = id; original_url = original; user_id = user_id }) st))

  unfoldable pub create_short_url :
      Context → String → String → String → List ℕ → State → (String × Option Error) × State
  unfolding get_user_id_from_context as_already_exists
  create_short_url ctx original scheme host random st = elim (get_user_id_from_context ctx) [
    | none ↦ (("", some (message "userID not found in context")), st)
    | some user_id ↦ create_for ctx (trim_space original) scheme host random user_id st
  ]

  abbrev retrieved : Result String × State → Result String × State
  retrieved (ok original, st) = (ok original, st)
  retrieved (err e, st) =
      (if is_error e gone then err e else err (wrapped "failed to get original url" e), st)

  unfoldable pub get_original_url : Context → String → State → Result String × State
  unfolding is_error
  get_original_url ctx id st = retrieved (storage.get ctx id st)

  unfoldable pub ping : Context → State → Result (Unit {0}) × State
  ping ctx st = storage.ping ctx st

  abbrev stored_batch :
      List BatchShortenResponse
      → Result (Unit {0}) × State
      → Result (List BatchShortenResponse) × State
  stored_batch resp (ok _, st) = (ok resp, st)
  stored_batch resp (err e, st) = (err (wrapped "failed to add batch to storage" e), st)

  abbrev create_batch :
      Context
      → Result (List Row × List BatchShortenResponse)
      → State
      → Result (List BatchShortenResponse) × State
  create_batch ctx (ok (items, resp)) st = stored_batch resp (storage.add_batch ctx items st)
  create_batch ctx (err e) st = (err e, st)

  unfoldable pub create_short_urls_batch :
      Context
      → List BatchShortenRequest
      → String
      → String
      → (ℕ → List ℕ)
      → State
      → Result (List BatchShortenResponse) × State
  create_short_urls_batch ctx [] scheme host random st = (err (sentinel empty_batch), st)
  create_short_urls_batch ctx (r ∷ rs) scheme host random st =
      create_batch ctx (build_batch service scheme host random (r ∷ rs) [] []) st

  -- the body of the loop of GetUserURLs
  abbrev pub to_user_url : String → String → Repository.UserUrl → UserUrl
  to_user_url scheme host row = record {
    short_url = get_url_from_id service row.short_url scheme host;
    original_url = row.original_url;
  }

  abbrev listed :
      String → String → Result (List Repository.UserUrl) × State → Result (List UserUrl) × State
  listed scheme host (ok rows, st) = (ok (map (to_user_url scheme host) rows), st)
  listed scheme host (err e, st) = (err e, st)

  unfoldable pub get_user_urls : Context → String → String → State → Result (List UserUrl) × State
  unfolding get_user_id_from_context
  get_user_urls ctx scheme host st = elim (get_user_id_from_context ctx) [
    | none ↦ (err (message "userID not found in context"), st)
    | some user_id ↦ listed scheme host (storage.get_user_urls ctx user_id st)
  ]

  unfoldable pub delete_user_urls :
      Context → String → List String → State → Result (Unit {0}) × State
  delete_user_urls ctx user_id short_ids st =
      Repository.Memory.unless_empty short_ids st (storage.delete_batch ctx user_id short_ids st)

  unfoldable pub get_stats : Context → State → Result Statistics × State
  get_stats ctx st = storage.get_stats ctx st
