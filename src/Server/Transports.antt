-- ===== src/Server/Transports.antt =====
-- One storage behind both servers: what a user does over one of them shows over the other.
use shortener.Base.{
  ℕ, ◌+◌, ◌*◌, ◌<◌, String, ◌≡◌, refl, ◌∙◌, false, none, some, List, [], ◌∷◌, ap, arith,
}
use shortener.Base.Text.{◌+s◌, is_empty, trim_space, trim_space_idem}
use shortener.Base.Dict.{Dict, lookup, insert}
use shortener.Errors.{ok}
use shortener.Models.{empty_audit_data, follow, shorten}
use shortener.Context.{Context, set_user_id_to_context}
use shortener.Http.{new_writer, play, status_of, header_of, call, send_header}
use shortener.Utils.{generate_id}
use shortener.Repository.{UrlInfo}
use shortener.Repository.Memory.{MemStorage, mem_storage}
use shortener.Service.{ServiceConfig, get_url_from_id, get_original_url}
use shortener.Service.Shortening.{create_short_url-get_original_url}
use shortener.Auth.{Jwt, set_user_cookie}
use shortener.Handlers.{Json, expand_url_handler}
use shortener.Middlewares.{audit_middleware, notify_audit}
use shortener.Middlewares.Authentication.{SignsAndVerifies}
use shortener.Grpc.{GrpcServed, response, bearer_prefix, shorten_url}
use shortener.Grpc.Authorization.{interceptors-set_user_cookie}
use shortener.Server.{Endpoint, Arrival, ServerConfig, route, serve}
use shortener.Server.Calls.{Reply, text, CallArrival, shorten_call, method, serve_call}

module _ (visit : Dict UrlInfo → List (String × UrlInfo)) (service : ServiceConfig) (json : Json)
    (jwt : Jwt) {Ip : Type 0} (config : ServerConfig Ip) (ctx visitor : Context) (url : String)
    (m : MemStorage) (live : ctx.done ≡ none) (live' : visitor.done ≡ none)
    (some_url : is_empty (trim_space url) ≡ false)
    (new : lookup (trim_space url) m.url_to_id ≡ none) where
  module _ (a : CallArrival) (user_id : String) where
    abbrev user_ctx : Context
    user_ctx = record ctx { user_id = some user_id }

    abbrev created : GrpcServed Reply MemStorage
    created =
        method (mem_storage visit) service jwt config.cookie_secret (shorten_call (some url))
          a.random user_ctx (some (record empty_audit_data { user_id = user_id })) m

    abbrev FoundIn : MemStorage → Type 0
    FoundIn st =
        (get_original_url (mem_storage visit) service visitor (generate_id service.id_size a.random)
          st).0
        ≡ ok (trim_space url)

    created-answer :
        (created.answer
          ≡ response (text (get_url_from_id service (generate_id service.id_size a.random) "" "")))
        × (created.audit
            ≡ some (record { action = shorten; url = trim_space url; user_id = user_id }))
        × FoundIn created.state
    unfolding method shorten_url
    created-answer =
        let both =
          create_short_url-get_original_url visit service user_ctx user_id (trim_space url) "" ""
            a.random m live refl (rw (trim_space_idem url) some_url) (rw (trim_space_idem url) new)
            visitor live' in
        (ground (arith, both), ground arith, rw some_url (both.1 ∙ ap ok (trim_space_idem url)))

    serve_call-created :
        (now : ℕ) (token value rest : String) (values : List String)
        → a.metadata ≡ some (value ∷ values)
        → SignsAndVerifies jwt config.cookie_secret
        → is_empty user_id ≡ false
        → is_empty token ≡ false
        → set_user_cookie jwt now user_id config.cookie_secret ≡ ok token
        → a.now < now + 24 * 3600
        → trim_space value ≡ bearer_prefix +s rest
        → trim_space rest ≡ token
        → serve_call
            (mem_storage visit)
            service
            jwt
            config.cookie_secret
            (shorten_call (some url))
            a
            ctx
            m
          ≡ (created, notify_audit a.now created.audit)
    unfolding serve_call set_user_id_to_context
    serve_call-created now token value rest values given laws named some_token signed alive shape
          trimmed =
        rw given (
          interceptors-set_user_cookie jwt config.cookie_secret
            (method (mem_storage visit) service jwt config.cookie_secret (shorten_call (some url))
              a.random)
            ctx m now a.now user_id token value rest values "/shortener.ShortenerService/ShortenURL"
            laws named some_token signed alive shape trimmed refl)

    -- Where the package jwt verifies what it signed, over a memory storage and under contexts that
    -- are not done: a gRPC call of ShortenURL, whose authorization is Bearer and the token of a
    -- cookie set less than 24 hours before for a user whose id is not empty, with a url that is not
    -- blank and not in the storage, is answered with the short url, and the auditor gets one event of
    -- that user. A later HTTP request for the id, of whoever, is redirected by 307 to the trimmed
    -- url, and the auditor gets one event of the visit.
    pub serve-serve_call :
        (now : ℕ) (token value rest : String) (values : List String) (later : Arrival)
        → a.metadata ≡ some (value ∷ values)
        → SignsAndVerifies jwt config.cookie_secret
        → is_empty user_id ≡ false
        → is_empty token ≡ false
        → set_user_cookie jwt now user_id config.cookie_secret ≡ ok token
        → a.now < now + 24 * 3600
        → trim_space value ≡ bearer_prefix +s rest
        → trim_space rest ≡ token
        → later.request.url_param_id ≡ generate_id service.id_size a.random
        → let (first, first_events) =
            serve_call
              (mem_storage visit)
              service
              jwt
              config.cookie_secret
              (shorten_call (some url))
              a
              ctx
              m in
          let (second, second_events) =
            serve
              (mem_storage visit)
              service
              json
              jwt
              config
              Endpoint.expand
              later
              visitor
              first.state in
          (first.answer
            ≡ response
                (text (get_url_from_id service (generate_id service.id_size a.random) "" "")))
          × (first_events
              ≡ record {
                timestamp = a.now;
                action = shorten;
                user_id = user_id;
                url = trim_space url;
              }
                ∷ [])
          × (status_of (play second.calls new_writer) ≡ 307)
          × (header_of "Location" (play second.calls new_writer) ≡ some (trim_space url))
          × (second_events
              ≡ record {
                timestamp = later.now;
                action = follow;
                user_id = "";
                url = trim_space url;
              }
                ∷ [])
    unfolding serve audit_middleware route expand_url_handler play call send_header insert lookup
        notify_audit
    serve-serve_call now token value rest values later given laws named some_token signed alive
          shape trimmed same =
        let (answered, recorded, found) = created-answer in
        rw
          (serve_call-created now token value rest values given laws named some_token signed alive
            shape trimmed)
          (let found' : (get_original_url (mem_storage visit) service visitor
                  later.request.url_param_id created.state).0
                ≡ ok (trim_space url) =
              rw same found in
            (
              answered,
              ap (notify_audit a.now) recorded,
              ground (arith, found'),
              ground (arith, found'),
              ground (arith, found'),
            ))
