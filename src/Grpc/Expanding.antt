-- ===== src/Grpc/Expanding.antt =====
-- ShortenURL and ExpandURL of grpc.go over the memory storage.
use text.Mathlib.TextLemmas.{append_assoc}
use shortener.Base.{sym, ℕ, String, ◌≡◌, false, none, some, Option, List, arith, if◌then◌else◌}
use shortener.Base.Text.{◌+s◌, is_empty, trim_space, trim_space_idem, trim_right}
use shortener.Base.Dict.{Dict, lookup}
use shortener.Models.{AuditData, follow, shorten}
use shortener.Context.{Context}
use shortener.Utils.{generate_id}
use shortener.Repository.{UrlInfo}
use shortener.Repository.Memory
use shortener.Repository.Memory.{MemStorage, mem_storage}
use shortener.Service.{ServiceConfig, get_url_from_id, get_original_url}
use shortener.Service.Shortening.{create_short_url-get_original_url}
use shortener.Grpc.{Answer, response, status, code_not_found, shorten_url, expand_url}

-- The answer for an entry: NotFound for an unknown or a deleted one, else its url.
abbrev pub answer_of : Option UrlInfo → Answer String
answer_of none = status code_not_found "url not found"
answer_of (some info) =
    if info.deleted
    then status code_not_found "url has been deleted"
    else response info.original_url

module _ (visit : Dict UrlInfo → List (String × UrlInfo)) (service : ServiceConfig) where
  -- Over a memory storage, under a context that is not done and has an AuditData, ExpandURL of an
  -- id that is not blank answers by the entry of the trimmed id alone, NotFound for an unknown or a
  -- deleted one and else its url, and leaves the storage as it is.
  pub expand_url-lookup :
      (ctx : Context) (id : String) (d : AuditData) (m : MemStorage)
      → ctx.done ≡ none
      → is_empty (trim_space id) ≡ false
      → ((expand_url (mem_storage visit) service ctx (some id) (some d) m).answer
          ≡ answer_of (lookup (trim_space id) m.entries))
        × ((expand_url (mem_storage visit) service ctx (some id) (some d) m).state ≡ m)
  unfolding expand_url get_original_url Memory.get
  expand_url-lookup ctx id d m live some_id = (ground arith, ground arith)

  -- Over a memory storage, after a known user has shortened a url that is not blank and was not in
  -- the storage, under contexts that are not done, ExpandURL of the generated id, with whatever
  -- blanks around it, answers with the trimmed url; both calls record their action for the audit.
  pub expand_url-shorten_url :
      (ctx ctx' : Context) (user_id url id : String) (random : List ℕ) (d d' : AuditData)
      (m : MemStorage)
      → ctx.done ≡ none
      → ctx'.done ≡ none
      → ctx.user_id ≡ some user_id
      → is_empty (trim_space url) ≡ false
      → is_empty (trim_space id) ≡ false
      → trim_space id ≡ generate_id service.id_size random
      → lookup (trim_space url) m.url_to_id ≡ none
      → let created = shorten_url (mem_storage visit) service ctx (some url) random (some d) m in
        let visited =
          expand_url (mem_storage visit) service ctx' (some id) (some d') created.state in
        (created.answer ≡ response (get_url_from_id service (trim_space id) "" ""))
        × (created.audit
            ≡ some (record { action = shorten; url = trim_space url; user_id = d.user_id }))
        × (visited.answer ≡ response (trim_space url))
        × (visited.audit
            ≡ some (record { action = follow; url = trim_space url; user_id = d'.user_id }))
  unfolding shorten_url expand_url
  expand_url-shorten_url ctx ctx' user_id url id random d d' m live live' known some_url some_id
        same new =
      let both =
        create_short_url-get_original_url visit service ctx user_id (trim_space url) "" "" random m
          live known (rw (trim_space_idem url) some_url) (rw (trim_space_idem url) new) ctx'
          live' in
      (
        ground (arith, both),
        ground arith,
        ground (arith, both, trim_space_idem url),
        ground (arith, both, trim_space_idem url),
      )

get_url_from_id-no_host :
    (service : ServiceConfig) (id : String)
    → service.show_addr ≡ ""
    → get_url_from_id service id "" "" ≡ "http:/" +s id
unfolding get_url_from_id trim_right
get_url_from_id-no_host service id h = rw h (sym (append_assoc "http:" "/" id))

-- Over a memory storage and without a configured address, ShortenURL answers a known user's new
-- url, under a context that is not done, by a text that is no url: `http:/` and the generated id,
-- without a host.
pub shorten_url-no_host :
    (visit : Dict UrlInfo → List (String × UrlInfo)) (service : ServiceConfig) (ctx : Context)
    (user_id url : String) (random : List ℕ) (d : AuditData) (m : MemStorage)
    → service.show_addr ≡ ""
    → ctx.done ≡ none
    → ctx.user_id ≡ some user_id
    → is_empty (trim_space url) ≡ false
    → lookup (trim_space url) m.url_to_id ≡ none
    → (shorten_url (mem_storage visit) service ctx (some url) random (some d) m).answer
      ≡ response ("http:/" +s generate_id service.id_size random)
unfolding shorten_url
shorten_url-no_host visit service ctx user_id url random d m no_addr live known some_url new =
    let created =
      (create_short_url-get_original_url visit service ctx user_id (trim_space url) "" "" random m
        live known (rw (trim_space_idem url) some_url) (rw (trim_space_idem url) new) ctx live).0 in
    ground
      (arith, created, get_url_from_id-no_host service (generate_id service.id_size random) no_addr)
