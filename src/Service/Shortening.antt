-- ===== src/Service/Shortening.antt =====
-- CreateShortURL and GetOriginalURL of service.go over the memory storage.
use shortener.Base.{ℕ, String, ◌≡◌, false, none, some, List, arith, eq_refl, ap}
use shortener.Base.Text.{is_empty, trim_space}
use shortener.Base.Dict.{Dict, lookup}
use shortener.Errors.{ok, sentinel, duplicate}
use shortener.Context.{Context}
use shortener.Utils.{generate_id}
use shortener.Repository.{Row, UrlInfo}
use shortener.Repository.Memory
use shortener.Repository.Memory.{MemStorage, mem_storage}
use shortener.Repository.Memory.Addition.{get-add, add-add}
use shortener.Service.{ServiceConfig, get_url_from_id, create_short_url, get_original_url}

module _ (visit : Dict UrlInfo → List (String × UrlInfo)) (service : ServiceConfig) (ctx : Context)
    (user_id original scheme host : String) (random : List ℕ) (m : MemStorage)
    (live : ctx.done ≡ none) (known : ctx.user_id ≡ some user_id)
    (some_url : is_empty (trim_space original) ≡ false)
    (new : lookup (trim_space original) m.url_to_id ≡ none) where
  abbrev new_id : String
  new_id = generate_id service.id_size random

  abbrev new_row : Row
  new_row = record { id = new_id; original_url = trim_space original; user_id = user_id }

  create_short_url-add :
      create_short_url (mem_storage visit) service ctx original scheme host random m
      ≡ ((get_url_from_id service new_id scheme host, none), (Memory.add ctx new_row m).1)
  unfolding create_short_url
  create_short_url-add = ground (arith, get-add ctx ctx new_row new_id m live live new)

  create_short_url-new :
      (create_short_url (mem_storage visit) service ctx original scheme host random m).0
      ≡ (get_url_from_id service (generate_id service.id_size random) scheme host, none)
  create_short_url-new = rw create_short_url-add

  -- Over a memory storage, a known user shortens a url that is not blank and not in the storage,
  -- under contexts that are not done: the answer is the short url of the generated id, and for any
  -- reader that id then leads to the trimmed url.
  pub create_short_url-get_original_url :
      (reader : Context)
      → reader.done ≡ none
      → ((create_short_url (mem_storage visit) service ctx original scheme host random m).0
          ≡ (get_url_from_id service (generate_id service.id_size random) scheme host, none))
        × ((get_original_url
              (mem_storage visit)
              service
              reader
              (generate_id service.id_size random)
              (create_short_url (mem_storage visit) service ctx original scheme host random m).1).0
            ≡ ok (trim_space original))
  unfolding get_original_url
  create_short_url-get_original_url reader reads = (
    create_short_url-new,
    rw create_short_url-add
        (ground (arith, get-add ctx reader new_row new_id m live reads new, eq_refl new_id)),
  )

  -- Over a memory storage, after a known user has shortened a url that is not blank and was not in
  -- the storage, shortening it again, by whichever user and with whatever blanks around it, under
  -- contexts that are not done, answers with the first short url and ErrDuplicate, and stores
  -- nothing.
  pub create_short_url_twice :
      (again : Context) (other_user copy : String) (random' : List ℕ)
      → again.done ≡ none
      → again.user_id ≡ some other_user
      → trim_space copy ≡ trim_space original
      → let m' =
          (create_short_url (mem_storage visit) service ctx original scheme host random m).1 in
        create_short_url (mem_storage visit) service again copy scheme host random' m' ≡ (
          (
            get_url_from_id service (generate_id service.id_size random) scheme host,
            some (sentinel duplicate),
          ),
          m',
        )
  unfolding create_short_url
  create_short_url_twice again other_user copy random' live' known' same =
      let repeated : Row = record {
        id = generate_id service.id_size random';
        original_url = trim_space copy;
        user_id = other_user;
      } in
      rw create_short_url-add
        (ground (arith, ap is_empty same, add-add ctx again new_row repeated m live live' new same))
