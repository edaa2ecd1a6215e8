-- ===== src/Server.antt =====
-- internal/server/server.go: the routes of NewServer, each a handler behind its middlewares. That a
-- path leads to its endpoint is the package chi's; the recoverer, the compression and the logger,
-- which every route has in front of the audit, are left out.
pub mod Visits
pub mod Compression
pub mod Calls
pub mod Transports
use shortener.Base.{ℕ, String, Bool, Option, none, some, List, if◌then◌else◌}
use shortener.Base.Text.{is_empty}
use shortener.Errors.{Result, ok, err}
use shortener.Models.{AuditEvent}
use shortener.Context.{Context}
use shortener.Http.{HttpRequest}
use shortener.Repository.{Storage}
use shortener.Service.{ServiceConfig}
use shortener.Auth.{Jwt}
use shortener.Handlers.{
  Json, Served, expand_url_handler, shorten_url_handler, ping_handler, shorten_json_handler,
  post_batch_shorten_handler, list_user_urls_handler, delete_user_urls_handler, stats_handler,
}
use shortener.Middlewares.{Handler, auth_middleware, audit_middleware, trusted_subnet_middleware}

pub data Endpoint : Type 0 where
  -- GET /ping, GET /{id}, GET /api/internal/stats
  ping expand stats : Endpoint
  -- POST /, POST /api/shorten, POST /api/shorten/batch
  shorten_url shorten_json shorten_batch : Endpoint
  -- GET and DELETE /api/user/urls
  list_urls delete_urls : Endpoint

-- What a handler reads beside its context: the request, whether writing its body fails, the bytes of
-- crypto/rand, the time, the uuid of a new user, the cookie, and the header X-Real-IP.
pub record Arrival : Type 0 where
  pub request : HttpRequest
  pub write_fails : Bool
  pub random : List ℕ
  pub randoms : ℕ → List ℕ
  pub now : ℕ
  pub new_id : String
  pub cookie : Option String
  pub real_ip : String

-- what the server is made with
pub record ServerConfig (Ip : Type 0) : Type 0 where
  pub cookie_secret : String
  pub max_parallel_workers : ℕ
  pub parse_ip : String → Option Ip
  pub trusted_subnet : Option (Ip → Bool)

-- net.ParseCIDR gives a subnet by the addresses that it contains
abbrev subnet_of :
    {Ip : Type 0} → (String → Result (Ip → Bool)) → String → Result (Option (Ip → Bool))
subnet_of parse_cidr trusted_subnet =
    if is_empty trusted_subnet
    then ok none
    else (elim (parse_cidr trusted_subnet) [ ok subnet ↦ ok (some subnet) | err e ↦ err e ])

-- NewServer as far as it can fail, and what its routes are made with
unfoldable pub new_server :
    {Ip : Type 0}
    → (String → Option Ip)
    → (String → Result (Ip → Bool))
    → String
    → String
    → ℕ
    → Result (ServerConfig Ip)
new_server parse_ip parse_cidr cookie_secret trusted_subnet max_parallel_workers =
    elim (subnet_of parse_cidr trusted_subnet) [
      | err e ↦ err e
      | ok subnet ↦ ok (record {
        cookie_secret = cookie_secret;
        max_parallel_workers = max_parallel_workers;
        parse_ip = parse_ip;
        trusted_subnet = subnet;
      })
    ]

module _ (storage : Storage) (service : ServiceConfig) (json : Json) (jwt : Jwt) {Ip : Type 0}
    (config : ServerConfig Ip) where
  open storage use {State}

  abbrev protected : Arrival → Handler State → Handler State
  protected a = auth_middleware jwt config.cookie_secret a.now a.new_id a.cookie

  -- the handler of a route behind its group's middleware
  unfoldable pub route : Endpoint → Arrival → Handler State
  route ping a ctx audit st = ping_handler storage service ctx audit st
  route expand a ctx audit st = expand_url_handler storage service ctx a.request audit st
  route stats a ctx audit st =
      trusted_subnet_middleware config.parse_ip config.trusted_subnet a.real_ip
        (λ ctx' audit' st'. stats_handler storage service json ctx' a.write_fails audit' st') ctx
        audit st
  route shorten_url a ctx audit st =
      protected a
        (λ ctx' audit' st'.
          shorten_url_handler storage service ctx' a.request a.write_fails a.random audit' st')
        ctx audit st
  route shorten_json a ctx audit st =
      protected a
        (λ ctx' audit' st'.
          shorten_json_handler storage service json ctx' a.request a.write_fails a.random audit'
            st')
        ctx audit st
  route shorten_batch a ctx audit st =
      protected a
        (λ ctx' audit' st'.
          post_batch_shorten_handler storage service json ctx' a.request a.randoms audit' st')
        ctx audit st
  route list_urls a ctx audit st =
      protected a
        (λ ctx' audit' st'.
          list_user_urls_handler storage service json ctx' a.request a.write_fails audit' st')
        ctx audit st
  route delete_urls a ctx audit st =
      protected a
        (λ ctx' audit' st'.
          delete_user_urls_handler storage service json config.max_parallel_workers ctx' a.request
            audit' st')
        ctx audit st

  -- a request through the audit and its route: what was served, and the events
  unfoldable pub serve : Endpoint → Arrival → Context → State → Served State × List AuditEvent
  unfolding route
  serve endpoint a ctx st = audit_middleware a.now (route endpoint a) ctx st
