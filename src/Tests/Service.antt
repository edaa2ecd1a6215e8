-- ===== src/Tests/Service.antt =====
-- The theorems on service.go and generators.go at concrete requests.
use mathlib.Core.Bool.{true≢false}
use shortener.Base.{◌≤◌, String, ◌≡◌, ◌≢◌, refl, some, List, [], ◌∷◌, ap, sym, ◌∙◌, eq_refl, ◌==◌}
use shortener.Base.Dict.{lookup, insert}
use shortener.Base.Text.{trim_space}
use shortener.Errors.{ok, sentinel, duplicate}
use shortener.Models.{BatchShortenRequest, BatchShortenResponse}
use shortener.Repository.{UserUrl}
use shortener.Repository.Memory
use shortener.Repository.Memory.{MemStorage, mem_storage, new_mem_storage}
use shortener.Repository.Memory.Indexed.{IsIndexed-new}
use shortener.Repository.Memory.Listing.{IsListed}
use shortener.Utils.{generate_id, encode_to_string, take, digit, char_at_or}
use shortener.Utils.Ids.{size, IsUrlSafe, generate_id-IsUrlSafe}
use shortener.Service.{get_url_from_id, create_short_url, create_short_urls_batch, build_batch}
use shortener.Service.Shortening.{create_short_url_twice}
use shortener.Service.Batch.{
  Answers, create_short_urls_batch-Answers, create_short_urls_batch-not-IsListed,
}
use shortener.Tests.{visit, anna, with_a, config, zeros, counted, info_a}

generate_id-IsUrlSafe_example :
    (2 ≤ size (encode_to_string zeros))
    × (size (generate_id 2 zeros) ≡ 2)
    × IsUrlSafe (generate_id 2 zeros)
generate_id-IsUrlSafe_example = generate_id-IsUrlSafe 2 zeros refl

create_short_url_twice_example :
    create_short_url
      (mem_storage visit)
      config
      anna
      "u"
      ""
      "h"
      zeros
      (create_short_url (mem_storage visit) config anna " u " "" "h" zeros new_mem_storage).1
    ≡ (
      (get_url_from_id config (generate_id 2 zeros) "" "h", some (sentinel duplicate)),
      (create_short_url (mem_storage visit) config anna " u " "" "h" zeros new_mem_storage).1,
    )
unfolding trim_space lookup
create_short_url_twice_example =
    create_short_url_twice visit config anna "anna" " u " "" "h" zeros new_mem_storage refl refl
      refl refl anna "anna" "u" zeros refl refl refl

abbrev first : BatchShortenRequest
first = record { correlation_id = "1"; original_url = "u" }

abbrev second : BatchShortenRequest
second = record { correlation_id = "2"; original_url = "v" }

ids_differ : generate_id 2 (counted 0) ≢ generate_id 2 (counted 1)
unfolding generate_id encode_to_string take digit char_at_or
ids_differ e = true≢false (sym (eq_refl "BA") ∙ ap (λ (t : String). "BA" == t) e)

urls_differ : first.original_url ≢ second.original_url
urls_differ e = true≢false (sym (eq_refl "u") ∙ ap (λ (t : String). "u" == t) e)

create_short_urls_batch-Answers_example :
    (resp : List BatchShortenResponse) × ((create_short_urls_batch
        (mem_storage visit)
        config
        anna
        (first ∷ second ∷ [])
        ""
        "h"
        counted
        new_mem_storage).0
      ≡ ok resp)
    × Answers config visit anna "" "h" counted
        (first ∷ second ∷ [])
        resp
        (create_short_urls_batch
          (mem_storage visit)
          config
          anna
          (first ∷ second ∷ [])
          ""
          "h"
          counted
          new_mem_storage).1
unfolding lookup
create_short_urls_batch-Answers_example =
    create_short_urls_batch-Answers config visit anna first (second ∷ []) "" "h" counted
      new_mem_storage refl IsIndexed-new (refl, (refl, tt))
      (((ids_differ, urls_differ), tt), (tt, tt)) ((refl, refl), ((refl, refl), tt))

abbrev listed : UserUrl
listed = record { short_url = "AA"; original_url = "u" }

named : ◌≢◌ {A = String} "anna" ""
named e = true≢false (sym (eq_refl "anna") ∙ ap (λ (t : String). "anna" == t) e)

still_listed :
    IsListed "anna"
      (create_short_urls_batch
        (mem_storage visit)
        config
        anna
        (second ∷ [])
        ""
        "h"
        counted
        with_a).1
      listed
unfolding create_short_urls_batch lookup build_batch Memory.add_batch Memory.first_existing
    Memory.store_rows Memory.store_row insert generate_id take encode_to_string digit
still_listed = (info_a, refl, refl, refl, refl)

create_short_urls_batch-not-IsListed_example : IsListed "anna" with_a listed
create_short_urls_batch-not-IsListed_example =
    create_short_urls_batch-not-IsListed config visit anna (second ∷ []) "" "h" counted with_a
      "anna" listed (refl, tt) named still_listed
