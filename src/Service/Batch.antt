-- ===== src/Service/Batch.antt =====
-- CreateShortURLsBatch of service.go over the memory storage.
use mathlib.Core.List.{append_assoc, append-nil}
use shortener.Base.{
  ℕ, suc, String, ◌≡◌, ◌≢◌, refl, sym, false, none, some, List, [], ◌∷◌, ◌++◌, Memᴰ, arith, ◌∙◌, ap,
}
use shortener.Base.Lists.{All}
use shortener.Base.Text.{is_empty}
use shortener.Base.Dict.{Dict, lookup, lookup-insert}
use shortener.Errors.{ok}
use shortener.Models.{BatchShortenRequest, BatchShortenResponse}
use shortener.Context.{Context}
use shortener.Utils.{generate_id}
use shortener.Repository.{Row, UrlInfo, UserUrl}
use shortener.Repository.Memory
use shortener.Repository.Memory.{
  MemStorage, mem_storage, store_row, store_rows, new_info, first_existing, add_batch_locked,
}
use shortener.Repository.Memory.Indexed.{IsIndexed}
use shortener.Repository.Memory.Batch.{IsDistinct, IsNewRow, add_batch_complete}
use shortener.Repository.Memory.Listing.{IsListed}
use shortener.Service.{
  ServiceConfig, get_url_from_id, build_batch, create_short_urls_batch, get_original_url,
}

module _ (service : ServiceConfig) where
  -- The rows of a batch, in the order of the requests: none of them has an owner.
  abbrev pub rows_of : (ℕ → List ℕ) → List BatchShortenRequest → List Row
  rows_of random [] = []
  rows_of random (r ∷ rs) =
      record {
        id = generate_id service.id_size (random 0);
        original_url = r.original_url;
        user_id = "";
      }
      ∷ rows_of (λ n. random (suc n)) rs

  abbrev pub responses_of :
      String → String → (ℕ → List ℕ) → List BatchShortenRequest → List BatchShortenResponse
  responses_of scheme host random [] = []
  responses_of scheme host random (r ∷ rs) =
      record {
        correlation_id = r.correlation_id;
        short_url = get_url_from_id service (generate_id service.id_size (random 0)) scheme host;
      }
      ∷ responses_of scheme host (λ n. random (suc n)) rs

  build_batch-eq-rows_of :
      (scheme host : String) (random : ℕ → List ℕ) (rs : List BatchShortenRequest)
      (items : List Row) (resp : List BatchShortenResponse)
      → All (λ r. is_empty r.original_url ≡ false) rs
      → build_batch service scheme host random rs items resp
        ≡ ok (items ++ rows_of random rs, resp ++ responses_of scheme host random rs)
  unfolding build_batch
  build_batch-eq-rows_of scheme host random [] items resp h = rw (append-nil, append-nil)
  build_batch-eq-rows_of scheme host random (r ∷ rs) items resp h =
      rw h.0
        (build_batch-eq-rows_of scheme host (λ n. random (suc n)) rs _ _ h.1 ∙ simp (append_assoc))

  module _ (visit : Dict UrlInfo → List (String × UrlInfo)) where
    -- Response by response: the correlation id of the request, the short url of the id that was
    -- generated for it, and an id that leads to the url of the request.
    abbrev pub Answers :
        Context
        → String
        → String
        → (ℕ → List ℕ)
        → List BatchShortenRequest
        → List BatchShortenResponse
        → MemStorage
        → Type 0
    Answers ctx scheme host random [] [] m = Unit
    Answers ctx scheme host random (r ∷ rs) (p ∷ ps) m =
        (p.correlation_id ≡ r.correlation_id)
        × (p.short_url
            ≡ get_url_from_id service (generate_id service.id_size (random 0)) scheme host)
        × ((get_original_url (mem_storage visit) service ctx
              (generate_id service.id_size (random 0)) m).0
            ≡ ok r.original_url)
        × Answers ctx scheme host (λ n. random (suc n)) rs ps m
    Answers ctx scheme host random _ _ m = ⊥

    responses_of-Answers :
        (ctx : Context) (scheme host : String) (random : ℕ → List ℕ) (rs : List BatchShortenRequest)
        (m : MemStorage)
        → ((item : Row)
            → Memᴰ item (rows_of random rs)
            → (Memory.get ctx item.id m).0 ≡ ok item.original_url)
        → Answers ctx scheme host random rs (responses_of scheme host random rs) m
    unfolding get_original_url
    responses_of-Answers ctx scheme host random [] m h = tt
    responses_of-Answers ctx scheme host random (r ∷ rs) m h = (
      refl,
      refl,
      ground (arith, h _ (Memᴰ.head refl)),
      responses_of-Answers ctx scheme host (λ n. random (suc n)) rs m
          (λ item k. h item (Memᴰ.tail k)),
    )

    create_short_urls_batch-eq-add_batch :
        (ctx : Context) (r : BatchShortenRequest) (rs : List BatchShortenRequest)
        (scheme host : String) (random : ℕ → List ℕ) (m : MemStorage)
        → All (λ r. is_empty r.original_url ≡ false) (r ∷ rs)
        → (Memory.add_batch ctx (rows_of random (r ∷ rs)) m).0 ≡ ok tt
        → create_short_urls_batch (mem_storage visit) service ctx (r ∷ rs) scheme host random m ≡ (
          ok (responses_of scheme host random (r ∷ rs)),
          (Memory.add_batch ctx (rows_of random (r ∷ rs)) m).1,
        )
    unfolding create_short_urls_batch
    create_short_urls_batch-eq-add_batch ctx r rs scheme host random m urls stored =
        ground (arith, build_batch-eq-rows_of scheme host random (r ∷ rs) [] [] urls)

    state-create_short_urls_batch :
        (ctx : Context) (r : BatchShortenRequest) (rs : List BatchShortenRequest)
        (scheme host : String) (random : ℕ → List ℕ) (m : MemStorage)
        → All (λ r. is_empty r.original_url ≡ false) (r ∷ rs)
        → (create_short_urls_batch (mem_storage visit) service ctx (r ∷ rs) scheme host random m).1
          ≡ (Memory.add_batch ctx (rows_of random (r ∷ rs)) m).1
    unfolding create_short_urls_batch
    state-create_short_urls_batch ctx r rs scheme host random m urls =
        ground (arith, build_batch-eq-rows_of scheme host random (r ∷ rs) [] [] urls)

    -- Over a memory storage whose maps agree, under a context that is not done, a batch of urls
    -- that are not empty, whose rows are new and differ in id and url, is answered request by
    -- request, in order, and each id that was generated leads to the url of its request.
    pub create_short_urls_batch-Answers :
        (ctx : Context) (r : BatchShortenRequest) (rs : List BatchShortenRequest)
        (scheme host : String) (random : ℕ → List ℕ) (m : MemStorage)
        → ctx.done ≡ none
        → IsIndexed m
        → All (λ r. is_empty r.original_url ≡ false) (r ∷ rs)
        → IsDistinct (rows_of random (r ∷ rs))
        → All (IsNewRow m) (rows_of random (r ∷ rs))
        → (resp : List BatchShortenResponse) × ((create_short_urls_batch
              (mem_storage visit)
              service
              ctx
              (r ∷ rs)
              scheme
              host
              random
              m).0
            ≡ ok resp)
          × Answers ctx scheme host random
              (r ∷ rs)
              resp
              (create_short_urls_batch
                (mem_storage visit)
                service
                ctx
                (r ∷ rs)
                scheme
                host
                random
                m).1
    unfolding create_short_urls_batch
    create_short_urls_batch-Answers ctx r rs scheme host random m live h urls distinct new =
        let rows = rows_of random (r ∷ rs) in
        let (stored, agree, found) = add_batch_complete ctx rows m live h distinct new in
        rw (create_short_urls_batch-eq-add_batch ctx r rs scheme host random m urls stored) (
          responses_of scheme host random (r ∷ rs),
          refl,
          responses_of-Answers ctx scheme host random (r ∷ rs) (Memory.add_batch ctx rows m).1
              found,
        )

    -- A row without an owner hides no entry that a user owns.
    lookup-store_rows_owned :
        (random : ℕ → List ℕ) (rs : List BatchShortenRequest) (m : MemStorage) (id : String)
        (info : UrlInfo)
        → info.user_id ≢ ""
        → lookup id (store_rows (rows_of random rs) m).entries ≡ some info
        → lookup id m.entries ≡ some info
    unfolding store_rows store_row
    lookup-store_rows_owned random [] m id info owned e = e
    lookup-store_rows_owned random (r ∷ rs) m id info owned e =
        let row : Row = record {
          id = generate_id service.id_size (random 0);
          original_url = r.original_url;
          user_id = "";
        } in
        let before =
          lookup-store_rows_owned (λ n. random (suc n)) rs (store_row row m) id info owned e in
        ground (arith, before, lookup-insert row.id id (new_info row) m.entries)

    add_batch-owned :
        (ctx : Context) (random : ℕ → List ℕ) (rs : List BatchShortenRequest) (m : MemStorage)
        (id : String) (info : UrlInfo)
        → info.user_id ≢ ""
        → lookup id (Memory.add_batch ctx (rows_of random rs) m).1.entries ≡ some info
        → lookup id m.entries ≡ some info
    unfolding Memory.add_batch
    add_batch-owned ctx random rs m id info owned e =
        ground (arith, lookup-store_rows_owned random rs m id info owned)

    -- Over a memory storage, what a user's listing holds after a batch of urls that are not empty,
    -- if the user's id is not empty, it held before: the rows of a batch have no owner.
    pub create_short_urls_batch-not-IsListed :
        (ctx : Context) (rs : List BatchShortenRequest) (scheme host : String) (random : ℕ → List ℕ)
        (m : MemStorage) (user_id : String) (u : UserUrl)
        → All (λ r. is_empty r.original_url ≡ false) rs
        → user_id ≢ ""
        → IsListed user_id
            (create_short_urls_batch (mem_storage visit) service ctx rs scheme host random m).1
            u
        → IsListed user_id m u
    unfolding create_short_urls_batch
    create_short_urls_batch-not-IsListed ctx [] scheme host random m user_id u urls named h = h
    create_short_urls_batch-not-IsListed ctx (r ∷ rs) scheme host random m user_id u urls named
          (info, held, owner, live, same) =
        (
          info,
          add_batch-owned ctx random (r ∷ rs) m u.short_url info (λ e. named (sym owner ∙ e))
              (ap (λ (t : MemStorage). lookup u.short_url t.entries)
                  (sym (state-create_short_urls_batch ctx r rs scheme host random m urls))
                ∙ held),
          owner,
          live,
          same,
        )
