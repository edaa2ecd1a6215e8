-- ===== src/Server/Visits.antt =====
-- A visit of a new user to the server of server.go, from the url to the redirect.
use text.Mathlib.TextLemmas.{nil-append}
use shortener.Base.{String, ◌≡◌, refl, false, none, some, List, [], ◌∷◌, ap}
use shortener.Base.Text.{is_empty, trim_space}
use shortener.Base.Dict.{Dict, lookup}
use shortener.Errors.{ok}
use shortener.Models.{AuditData, empty_audit_data, follow, shorten}
use shortener.Context.{Context, set_user_id_to_context}
use shortener.Http.{
  set_cookie, set_header, write_header, write, new_writer, play, status_of, header_of, cookies_of,
  call, send_header,
}
use shortener.Utils.{generate_id}
use shortener.Repository.{UrlInfo}
use shortener.Repository.Memory.{MemStorage, mem_storage}
use shortener.Service.{ServiceConfig, get_url_from_id}
use shortener.Auth.{Jwt, cookie_name, set_user_cookie}
use shortener.Handlers.{Json, Served, shorten_url_handler, expand_url_handler}
use shortener.Handlers.Redirects.{
  served-calls, shorten_url_handler-created, expand_url_handler-shorten_url_handler,
}
use shortener.Middlewares.{audit_middleware, notify_audit}
use shortener.Middlewares.Authentication.{auth_middleware-new_user}
use shortener.Server.{Endpoint, Arrival, ServerConfig, route, serve}

module _ (visit : Dict UrlInfo → List (String × UrlInfo)) (service : ServiceConfig) (json : Json)
    (jwt : Jwt) {Ip : Type 0} (config : ServerConfig Ip) (ctx : Context) (a : Arrival)
    (body token : String) (m : MemStorage) (live : ctx.done ≡ none)
    (given : a.request.body ≡ some body) (works : a.write_fails ≡ false)
    (stranger : a.cookie ≡ none)
    (signed : set_user_cookie jwt a.now a.new_id config.cookie_secret ≡ ok token)
    (some_url : is_empty (trim_space body) ≡ false)
    (new : lookup (trim_space body) m.url_to_id ≡ none) where
  abbrev user_data : AuditData
  user_data = record empty_audit_data { user_id = a.new_id }

  abbrev user_ctx : Context
  user_ctx = record ctx { user_id = some a.new_id }

  abbrev shortened : Served MemStorage
  shortened =
      shorten_url_handler (mem_storage visit) service user_ctx a.request false a.random
        (some user_data) m

  abbrev short_url : String
  short_url =
      get_url_from_id service (generate_id service.id_size a.random) a.request.forwarded_proto
        a.request.host

  route-shorten_url :
      route
        (mem_storage visit)
        service
        json
        jwt
        config
        Endpoint.shorten_url
        a
        ctx
        (some empty_audit_data)
        m
      ≡ record shortened { calls = set_cookie cookie_name token ∷ shortened.calls }
  unfolding route set_user_id_to_context
  route-shorten_url = rw stranger (
      rw works (
        auth_middleware-new_user jwt config.cookie_secret
          (λ ctx' audit' st'.
            shorten_url_handler (mem_storage visit) service ctx' a.request false a.random audit'
              st')
          ctx (some empty_audit_data) m a.now a.new_id token signed))

  serve-shorten_url :
      serve (mem_storage visit) service json jwt config Endpoint.shorten_url a ctx m ≡ (
        record shortened { calls = set_cookie cookie_name token ∷ shortened.calls },
        notify_audit a.now shortened.audit,
      )
  unfolding serve audit_middleware
  serve-shorten_url =
      ap (λ (s : Served MemStorage). (s, notify_audit a.now s.audit)) route-shorten_url

  shortened-calls :
      shortened.calls
      ≡ set_header "Content-Type" "text/plain" ∷ write_header 201 ∷ write short_url ∷ []
  shortened-calls =
      served-calls visit service user_ctx a.new_id body a.request a.random user_data m live refl
        given some_url new

  shortened-audit :
      notify_audit a.now shortened.audit
      ≡ record { timestamp = a.now; action = shorten; user_id = a.new_id; url = body } ∷ []
  unfolding notify_audit
  shortened-audit =
      ap (notify_audit a.now)
        (shorten_url_handler-created visit service user_ctx a.new_id body a.request a.random
          user_data m live refl given some_url new).2

  serve-expand :
      (later : Arrival) (visitor : Context) (st : MemStorage)
      → let served =
          expand_url_handler
            (mem_storage visit)
            service
            visitor
            later.request
            (some empty_audit_data)
            st in
        serve (mem_storage visit) service json jwt config Endpoint.expand later visitor st
        ≡ (served, notify_audit later.now served.audit)
  unfolding serve audit_middleware route
  serve-expand later visitor st = refl

  -- Over a memory storage, a request without a cookie, under a context that is not done and where
  -- signing and writing work, posts a url that is not blank and not in the storage: the server
  -- answers 201 with the short url and the cookie of the new user, and the auditor gets one event
  -- of that user. A later visit of the id, under a context that is not done, is redirected by 307
  -- to the trimmed url, and the auditor gets one event of the visit.
  pub serve-visit :
      (later : Arrival) (visitor : Context)
      → visitor.done ≡ none
      → later.request.url_param_id ≡ generate_id service.id_size a.random
      → let (first, first_events) =
          serve (mem_storage visit) service json jwt config Endpoint.shorten_url a ctx m in
        let (second, second_events) =
          serve
            (mem_storage visit)
            service
            json
            jwt
            config
            Endpoint.expand
            later
            visitor
            first.state in
        (status_of (play first.calls new_writer) ≡ 201)
        × ((play first.calls new_writer).body ≡ short_url)
        × (cookies_of (play first.calls new_writer) ≡ (cookie_name, token) ∷ [])
        × (first_events
            ≡ record { timestamp = a.now; action = shorten; user_id = a.new_id; url = body } ∷ [])
        × (status_of (play second.calls new_writer) ≡ 307)
        × (header_of "Location" (play second.calls new_writer) ≡ some (trim_space body))
        × (second_events
            ≡ record { timestamp = later.now; action = follow; user_id = ""; url = trim_space body }
              ∷ [])
  unfolding notify_audit play call send_header
  serve-visit later visitor live' same =
      let (moved, there, followed) =
        expand_url_handler-shorten_url_handler visit service user_ctx a.new_id body a.request
          a.random user_data m live refl given some_url new visitor later.request empty_audit_data
          live' same in
      rw (serve-shorten_url, serve-expand later visitor shortened.state)
        (
          rw shortened-calls refl,
          rw shortened-calls (nil-append short_url),
          rw shortened-calls refl,
          shortened-audit,
          moved,
          there,
          ap (notify_audit later.now) followed,
        )
