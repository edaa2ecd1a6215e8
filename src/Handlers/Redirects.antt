-- ===== src/Handlers/Redirects.antt =====
-- ShortenURLHandler and ExpandURLHandler over the memory storage, as a client sees them.

use shortener.Base.{
  ℕ, String, ◌≡◌, refl, false, none, some, Option, List, [], ◌∷◌, arith, if◌then◌else◌,
}
use shortener.Base.Text.{is_empty, trim_space}
use shortener.Base.Dict.{Dict, lookup, insert}
use shortener.Errors.{ok}
use shortener.Models.{AuditData, follow, shorten}
use shortener.Context.{Context}
use shortener.Http.{
  HttpRequest, set_header, write_header, write, new_writer, play, status_of, header_of, call,
  send_header,
}
use shortener.Http.Replies.{play-reply}
use shortener.Utils.{generate_id}
use shortener.Repository.{UrlInfo}
use shortener.Repository.Memory
use shortener.Repository.Memory.{MemStorage, mem_storage}
use shortener.Service.{ServiceConfig, get_url_from_id, create_short_url, get_original_url}
use shortener.Service.Shortening.{create_short_url-get_original_url}
use shortener.Handlers.{shorten_url_handler, expand_url_handler, Served}

-- Only a text that is not empty has something left after trimming.
not_empty_of_trim : (s : String) → is_empty (trim_space s) ≡ false → is_empty s ≡ false
unfolding trim_space
not_empty_of_trim String.[] h = h
not_empty_of_trim (String.◌∷◌ c s) h = refl

-- The status of a redirect: 400 for an unknown id, 410 for a deleted one, else 307.
abbrev pub redirect_status : Option UrlInfo → ℕ
redirect_status none = 400
redirect_status (some info) = if info.deleted then 410 else 307

module _ (visit : Dict UrlInfo → List (String × UrlInfo)) (service : ServiceConfig) where
  -- Over a memory storage, under a context that is not done and has an AuditData, the status of a
  -- redirect depends on the entry of the id alone: 400 for an unknown id, 410 for a deleted one,
  -- else 307.
  pub expand_url_handler-status :
      (ctx : Context) (r : HttpRequest) (d : AuditData) (m : MemStorage)
      → ctx.done ≡ none
      → status_of
          (play (expand_url_handler (mem_storage visit) service ctx r (some d) m).calls new_writer)
        ≡ redirect_status (lookup r.url_param_id m.entries)
  unfolding expand_url_handler get_original_url Memory.get play call send_header
  expand_url_handler-status ctx r d m live = ground arith

  module _ (ctx : Context) (user_id body : String) (r : HttpRequest) (random : List ℕ)
      (d : AuditData) (m : MemStorage) (live : ctx.done ≡ none) (known : ctx.user_id ≡ some user_id)
      (given : r.body ≡ some body) (some_url : is_empty (trim_space body) ≡ false)
      (new : lookup (trim_space body) m.url_to_id ≡ none) where
    abbrev served : Served MemStorage
    served = shorten_url_handler (mem_storage visit) service ctx r false random (some d) m

    pub served-calls :
        served.calls
        ≡ set_header "Content-Type" "text/plain"
          ∷ write_header 201
          ∷ write (
              get_url_from_id service (generate_id service.id_size random) r.forwarded_proto r.host)
          ∷ []
    unfolding shorten_url_handler
    served-calls = ground (
      arith,
      not_empty_of_trim body some_url,
      (create_short_url-get_original_url visit service ctx user_id body r.forwarded_proto r.host
          random m live known some_url new ctx live).0,
    )

    served-state :
        served.state
        ≡ (create_short_url
            (mem_storage visit)
            service
            ctx
            body
            r.forwarded_proto
            r.host
            random
            m).1
    unfolding shorten_url_handler
    served-state = ground (arith, not_empty_of_trim body some_url)

    -- Over a memory storage, a known user posts a url that is not blank and not in the storage,
    -- under a context that is not done and has an AuditData, and the writer works: the answer is
    -- 201 with the short url, and the action is recorded for the audit.
    pub shorten_url_handler-created :
        (status_of (play served.calls new_writer) ≡ 201)
        × ((play served.calls new_writer).body
            ≡ get_url_from_id service (generate_id service.id_size random) r.forwarded_proto r.host)
        × (served.audit ≡ some (record { action = shorten; url = body; user_id = d.user_id }))
    unfolding shorten_url_handler
    shorten_url_handler-created = (
      rw served-calls (rw play-reply refl),
      rw served-calls (rw play-reply refl),
      ground (arith, not_empty_of_trim body some_url),
    )

    -- Over a memory storage, after a known user has posted a url that is not blank and was not in
    -- the storage, under contexts that are not done, a visit of the generated id is redirected by
    -- 307 to the trimmed url, and is recorded for the audit.
    pub expand_url_handler-shorten_url_handler :
        (ctx' : Context) (r' : HttpRequest) (d' : AuditData)
        → ctx'.done ≡ none
        → r'.url_param_id ≡ generate_id service.id_size random
        → let visited =
            expand_url_handler (mem_storage visit) service ctx' r' (some d') served.state in
          (status_of (play visited.calls new_writer) ≡ 307)
          × (header_of "Location" (play visited.calls new_writer) ≡ some (trim_space body))
          × (visited.audit
              ≡ some (record { action = follow; url = trim_space body; user_id = d'.user_id }))
    unfolding expand_url_handler play call send_header insert lookup
    expand_url_handler-shorten_url_handler ctx' r' d' live' same =
        let found : (get_original_url (mem_storage visit) service ctx' r'.url_param_id
              served.state).0
            ≡ ok (trim_space body) =
          rw same (
            rw served-state
              (create_short_url-get_original_url visit service ctx user_id body r.forwarded_proto
                r.host random m live known some_url new ctx' live').1) in
        (ground (arith, found), ground (arith, found), ground (arith, found))
