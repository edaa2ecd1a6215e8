-- ===== src/Server/Compression.antt =====
-- The compression in front of the routes, and that no route sets the encoding itself. The logger, which
-- stands between them, passes every call on as it is.
use shortener.Base.{
  ℕ, String, Bool, ◌≡◌, refl, Option, none, some, List, arith, Bool-cases, inl, inr,
}
use shortener.Base.Text.{is_empty}
use shortener.Errors.{Result, ok, err, is_error, no_cookie}
use shortener.Models.{AuditData, empty_audit_data}
use shortener.Context.{Context, set_user_id_to_context}
use shortener.Http.{WriterCall, HttpRequest, ResponseWriter, new_writer, play}
use shortener.Http.Sending.{NoEncoding}
use shortener.Repository.{Storage}
use shortener.Service.{ServiceConfig}
use shortener.Auth.{Jwt, set_user_cookie, get_user_id_from_request}
use shortener.Handlers.{
  Json, expand_url_handler, shorten_url_handler, ping_handler, shorten_json_handler,
  post_batch_shorten_handler, list_user_urls_handler, delete_user_urls_handler, stats_handler,
}
use shortener.Middlewares.{
  Handler, auth_middleware, audit_middleware, trusted_subnet_middleware, with_user, authenticated,
  admitted,
}
use shortener.Middlewares.Gzip.{Gzip, GzipPools, gzip_middleware}
use shortener.Middlewares.Gzip.Writing.{Unzips}
use shortener.Middlewares.Gzip.Pools as Pools
use shortener.Middlewares.Gzip.Pools.{AllNewPools, handed, gzip_middleware-Served}
use shortener.Server.{Endpoint, Arrival, ServerConfig, route, serve}

-- A handler that leaves the encoding alone, whatever it is called with.
abbrev pub LeavesEncoding : {State : Type 0} → Handler State → Type 0
LeavesEncoding {State} next =
    (ctx : Context) (audit : Option AuditData) (st : State) → NoEncoding (next ctx audit st).calls

module _ {State : Type 0} (next : Handler State) (leaves : LeavesEncoding next) where
  authenticated-LeavesEncoding :
      (new_id : String) (token user : Result String)
      → LeavesEncoding (authenticated new_id token user next)
  authenticated-LeavesEncoding new_id token (ok user_id) ctx audit st =
      leaves (set_user_id_to_context ctx user_id) (with_user user_id audit) st
  authenticated-LeavesEncoding new_id (ok token) (err e) ctx audit st =
      elim (Bool-cases (is_error e no_cookie)) [
        | inl without ↦
            rw without (leaves (set_user_id_to_context ctx new_id) (with_user new_id audit) st)
        | inr forged ↦ rw forged ((refl, refl), ((refl, refl), tt))
      ]
  authenticated-LeavesEncoding new_id (err f) (err e) ctx audit st =
      elim (Bool-cases (is_error e no_cookie)) [
        | inl without ↦ rw without ((refl, refl), ((refl, refl), tt))
        | inr forged ↦ rw forged ((refl, refl), ((refl, refl), tt))
      ]

  auth_middleware-LeavesEncoding :
      (jwt : Jwt) (secret : String) (now : ℕ) (new_id : String) (cookie : Option String)
      → LeavesEncoding (auth_middleware jwt secret now new_id cookie next)
  unfolding auth_middleware
  auth_middleware-LeavesEncoding jwt secret now new_id cookie =
      authenticated-LeavesEncoding new_id (set_user_cookie jwt now new_id secret)
        (get_user_id_from_request jwt now cookie secret)

  admitted-LeavesEncoding :
      {Ip : Type 0} (trusted : Option (Ip → Bool)) (ip : Option Ip)
      → LeavesEncoding (admitted trusted ip next)
  admitted-LeavesEncoding trusted none ctx audit st = ((refl, refl), ((refl, refl), tt))
  admitted-LeavesEncoding none (some ip) ctx audit st = ((refl, refl), ((refl, refl), tt))
  admitted-LeavesEncoding (some contains) (some ip) ctx audit st = elim (Bool-cases (contains ip)) [
    | inl inside ↦ rw inside (leaves ctx audit st)
    | inr outside ↦ rw outside ((refl, refl), ((refl, refl), tt))
  ]

  trusted_subnet_middleware-LeavesEncoding :
      {Ip : Type 0} (parse_ip : String → Option Ip) (trusted : Option (Ip → Bool))
      (real_ip : String)
      → LeavesEncoding (trusted_subnet_middleware parse_ip trusted real_ip next)
  unfolding trusted_subnet_middleware
  trusted_subnet_middleware-LeavesEncoding parse_ip trusted real_ip ctx audit st =
      elim (Bool-cases (is_empty real_ip)) [
        | inl missing ↦ rw missing ((refl, refl), ((refl, refl), tt))
        | inr there ↦ rw there (admitted-LeavesEncoding trusted (parse_ip real_ip) ctx audit st)
      ]

module _ (storage : Storage) (service : ServiceConfig) (json : Json) where
  open storage use {State}

  shorten_url-LeavesEncoding :
      (r : HttpRequest) (fails : Bool) (random : List ℕ)
      → LeavesEncoding
          (λ ctx audit st. shorten_url_handler storage service ctx r fails random audit st)
  unfolding shorten_url_handler
  shorten_url-LeavesEncoding r fails random ctx audit st = ground arith

  expand_url-LeavesEncoding :
      (r : HttpRequest)
      → LeavesEncoding (λ ctx audit st. expand_url_handler storage service ctx r audit st)
  unfolding expand_url_handler
  expand_url-LeavesEncoding r ctx audit st = ground arith

  ping-LeavesEncoding : LeavesEncoding (λ ctx audit st. ping_handler storage service ctx audit st)
  unfolding ping_handler
  ping-LeavesEncoding ctx audit st = ground arith

  shorten_json-LeavesEncoding :
      (r : HttpRequest) (fails : Bool) (random : List ℕ)
      → LeavesEncoding
          (λ ctx audit st. shorten_json_handler storage service json ctx r fails random audit st)
  unfolding shorten_json_handler
  shorten_json-LeavesEncoding r fails random ctx audit st = ground arith

  shorten_batch-LeavesEncoding :
      (r : HttpRequest) (randoms : ℕ → List ℕ)
      → LeavesEncoding
          (λ ctx audit st. post_batch_shorten_handler storage service json ctx r randoms audit st)
  unfolding post_batch_shorten_handler
  shorten_batch-LeavesEncoding r randoms ctx audit st = ground arith

  list_urls-LeavesEncoding :
      (r : HttpRequest) (fails : Bool)
      → LeavesEncoding
          (λ ctx audit st. list_user_urls_handler storage service json ctx r fails audit st)
  unfolding list_user_urls_handler
  list_urls-LeavesEncoding r fails ctx audit st = ground arith

  delete_urls-LeavesEncoding :
      (r : HttpRequest) (workers : ℕ)
      → LeavesEncoding
          (λ ctx audit st. delete_user_urls_handler storage service json workers ctx r audit st)
  unfolding delete_user_urls_handler
  delete_urls-LeavesEncoding r workers ctx audit st = ground arith

  stats-LeavesEncoding :
      (fails : Bool)
      → LeavesEncoding (λ ctx audit st. stats_handler storage service json ctx fails audit st)
  unfolding stats_handler
  stats-LeavesEncoding fails ctx audit st = ground arith

  module _ (jwt : Jwt) {Ip : Type 0} (config : ServerConfig Ip) where
    protected-LeavesEncoding :
        (a : Arrival) (next : Handler State)
        → LeavesEncoding next
        → LeavesEncoding (auth_middleware jwt config.cookie_secret a.now a.new_id a.cookie next)
    protected-LeavesEncoding a next leaves =
        auth_middleware-LeavesEncoding next leaves jwt config.cookie_secret a.now a.new_id a.cookie

    route-LeavesEncoding :
        (endpoint : Endpoint) (a : Arrival)
        → LeavesEncoding (route storage service json jwt config endpoint a)
    unfolding route
    route-LeavesEncoding Endpoint.ping a = ping-LeavesEncoding
    route-LeavesEncoding Endpoint.expand a = expand_url-LeavesEncoding a.request
    route-LeavesEncoding Endpoint.stats a =
        trusted_subnet_middleware-LeavesEncoding _ (stats-LeavesEncoding a.write_fails)
          config.parse_ip config.trusted_subnet a.real_ip
    route-LeavesEncoding Endpoint.shorten_url a =
        protected-LeavesEncoding a _ (shorten_url-LeavesEncoding a.request a.write_fails a.random)
    route-LeavesEncoding Endpoint.shorten_json a =
        protected-LeavesEncoding a _ (shorten_json-LeavesEncoding a.request a.write_fails a.random)
    route-LeavesEncoding Endpoint.shorten_batch a =
        protected-LeavesEncoding a _ (shorten_batch-LeavesEncoding a.request a.randoms)
    route-LeavesEncoding Endpoint.list_urls a =
        protected-LeavesEncoding a _ (list_urls-LeavesEncoding a.request a.write_fails)
    route-LeavesEncoding Endpoint.delete_urls a =
        protected-LeavesEncoding a _
          (delete_urls-LeavesEncoding a.request config.max_parallel_workers)

    -- the calls that the server makes for a request whose body reads as that
    abbrev pub server_calls : Endpoint → Arrival → Context → State → Option String → List WriterCall
    server_calls endpoint a ctx st body =
        let a' = record a { request = record a.request { body = body } } in
        (serve storage service json jwt config endpoint a' ctx st).0.calls

    -- a request through the compression and its route, by the headers Accept-Encoding and
    -- Content-Encoding and the objects that the pools hand out
    unfoldable pub serve_compressed :
        (gzip : Gzip)
        → String
        → String
        → ℕ
        → ℕ
        → Endpoint
        → Arrival
        → Context
        → State
        → GzipPools gzip
        → Option (ResponseWriter × GzipPools gzip)
    serve_compressed gzip accept content writer_choice reader_choice endpoint a ctx st pools =
        gzip_middleware gzip accept content writer_choice reader_choice
          (server_calls endpoint a ctx st) a.request.body pools

    -- On every route and over any storage, where a client unzips what the package gzip zips, the
    -- server with its compression gives the client the status and the body that the route gives
    -- without it, for the request's body, unzipped where its header says so; and every object in
    -- the pools is again as a new one. The body can be unzipped, writing to the client works, and
    -- the pools start with such objects.
    pub serve_compressed-Served :
        (gzip : Gzip) (unzip : String → Option String) (unzips : Unzips gzip unzip)
        (accept content : String) (writer_choice reader_choice : ℕ) (endpoint : Endpoint)
        (a : Arrival) (ctx : Context) (st : State) (seen : Option String) (pools : GzipPools gzip)
        → AllNewPools gzip unzip unzips pools
        → handed gzip unzip unzips content a.request.body ≡ some seen
        → Pools.Served gzip unzip unzips (play (server_calls endpoint a ctx st seen) new_writer) (
            serve_compressed gzip accept content writer_choice reader_choice endpoint a ctx st
              pools)
    unfolding serve_compressed serve audit_middleware
    serve_compressed-Served gzip unzip unzips accept content writer_choice reader_choice endpoint a
          ctx st seen pools fresh passed =
        gzip_middleware-Served gzip unzip unzips accept content writer_choice reader_choice
          (server_calls endpoint a ctx st) a.request.body seen pools fresh passed
          (route-LeavesEncoding endpoint (record a { request = record a.request { body = seen } })
            ctx (some empty_audit_data) st)
