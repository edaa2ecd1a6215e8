-- ===== src/Handlers.antt =====
-- internal/handlers/handlers.go and api.go over any Storage. A handler gives the calls on its
-- writer, what it left in the context's AuditData, the storage, and the task it started.
pub mod Redirects
pub mod Deletions
pub mod Replies
use shortener.Base.{
  ℕ, zero, suc, String, Bool, true, false, Option, none, some, List, [], ◌∷◌, ◌++◌, if◌then◌else◌,
}
use shortener.Base.Text.{is_empty}
use shortener.Errors.{
  Error, sentinel, empty_url, empty_batch, duplicate, gone, is_error, Result, ok, err,
}
use shortener.Models.{
  AuditAction, AuditData, follow, shorten, ShortenRequest, ShortenResponse, BatchShortenRequest,
  BatchShortenResponse, UserUrl, Statistics,
}
use shortener.Context.{Context, get_user_id_from_context}
use shortener.Http.{WriterCall, set_header, write_header, write, http_error, HttpRequest}
use shortener.Repository.{Storage}
use shortener.Service
use shortener.Service.{ServiceConfig}

-- encoding/json on the request and response types; `none` is a decoding error
pub record Json : Type 0 where
  pub decode_shorten : Option String → Option ShortenRequest
  pub decode_batch : Option String → Option (List BatchShortenRequest)
  pub decode_ids : Option String → Option (List String)
  pub encode_shorten : ShortenResponse → String
  pub encode_batch : List BatchShortenResponse → String
  pub encode_urls : List UserUrl → String
  pub encode_stats : Statistics → String

-- the goroutine of DeleteUserURLsHandler: its arguments and the capacity of its semaphore
pub record Task : Type 0 where
  pub user_id : String
  pub short_ids : List String
  pub capacity : ℕ

pub record Served (State : Type 0) : Type 0 where
  pub calls : List WriterCall
  -- the AuditData that the context points to, if any
  pub audit : Option AuditData
  pub state : State
  pub tasks : List Task

abbrev pub internal_error : List WriterCall
internal_error = http_error "Internal Server Error" 500

abbrev record_action : AuditAction → String → AuditData → AuditData
record_action action url d = record d { action = action; url = url }

-- the writes of a body, and of an error if the first of them fails
abbrev pub write_or_error : Bool → String → List WriterCall → List WriterCall
write_or_error write_fails text on_error = write text ∷ (if write_fails then on_error else [])

-- the answer to CreateShortURL in ShortenURLHandler
abbrev shorten_answer : Bool → String × Option Error → List WriterCall
shorten_answer write_fails (short_url, none) =
    set_header "Content-Type" "text/plain"
    ∷ write_header 201
    ∷ write_or_error write_fails short_url internal_error
shorten_answer write_fails (short_url, some e) =
    if is_error e empty_url
    then http_error "Empty url" 400
    else if is_error e duplicate
    then (set_header "Content-Type" "text/plain"
        ∷ write_header 409
        ∷ write_or_error write_fails short_url internal_error)
    else internal_error

-- the answer to CreateShortURL in ShortenJSONHandler
abbrev shorten_json_answer : Json → Bool → String × Option Error → List WriterCall
shorten_json_answer json write_fails (short_url, none) =
    set_header "Content-Type" "application/json"
    ∷ write_header 201
    ∷ write_or_error write_fails (json.encode_shorten (record { result = short_url }))
        (http_error "failed to encode response" 500)
shorten_json_answer json write_fails (short_url, some e) =
    if is_error e empty_url
    then http_error "Empty url" 400
    else if is_error e duplicate
    then (set_header "Content-Type" "application/json"
        ∷ write_header 409
        ∷ write_or_error write_fails (json.encode_shorten (record { result = short_url }))
            internal_error)
    else internal_error

abbrev batch_answer : Json → Result (List BatchShortenResponse) → List WriterCall
batch_answer json (ok resp) =
    set_header "Content-Type" "application/json"
    ∷ write_header 201
    ∷ write (json.encode_batch resp)
    ∷ []
batch_answer json (err e) =
    if is_error e empty_url
    then http_error "Empty url" 400
    else if is_error e empty_batch
    then http_error "Empty url" 400
    else internal_error

abbrev list_answer : Json → Bool → Result (List UserUrl) → List WriterCall
list_answer json write_fails (err e) = internal_error
list_answer json write_fails (ok []) = write_header 204 ∷ []
list_answer json write_fails (ok (u ∷ us)) =
    set_header "Content-Type" "application/json"
    ∷ write_header 200
    ∷ write_or_error write_fails (json.encode_urls (u ∷ us))
        (http_error "failed to encode response" 500)

abbrev stats_answer : Json → Bool → Result Statistics → List WriterCall
stats_answer json write_fails (err e) = internal_error
stats_answer json write_fails (ok statistics) =
    set_header "Content-Type" "application/json"
    ∷ write_header 200
    ∷ write_or_error write_fails (json.encode_stats statistics)
        (http_error "failed to encode response" 500)

abbrev ping_answer : Result (Unit {0}) → List WriterCall
ping_answer (ok _) = write_header 200 ∷ []
ping_answer (err e) = internal_error

-- what ExpandURLHandler does after GetOriginalURL: the calls and the AuditData
abbrev expand_answer : Result String → Option AuditData → List WriterCall × Option AuditData
expand_answer (err e) audit =
    (if is_error e gone then write_header 410 ∷ [] else http_error "Wrong id" 400, audit)
expand_answer (ok url) none = (internal_error, none)
expand_answer (ok url) (some d) =
    (set_header "Location" url ∷ write_header 307 ∷ [], some (record_action follow url d))

module _ (storage : Storage) (service : ServiceConfig) where
  open storage use {State}

  -- ExpandURLHandler
  unfoldable pub expand_url_handler :
      Context → HttpRequest → Option AuditData → State → Served State
  unfolding is_error
  expand_url_handler ctx r audit st =
      let (found, st') = Service.get_original_url storage service ctx r.url_param_id st in
      let (calls, audit') = expand_answer found audit in
      record {
        calls = set_header "Content-Type" "text/plain" ∷ calls;
        audit = audit';
        state = st';
        tasks = [];
      }

  -- both handlers of a single url, once it is read and the AuditData is found
  abbrev shorten_with :
      (String × Option Error → List WriterCall)
      → Context
      → HttpRequest
      → String
      → AuditData
      → List ℕ
      → State
      → Served State
  shorten_with answer ctx r url d random st =
      let (created, st') =
        Service.create_short_url storage service ctx url r.forwarded_proto r.host random st in
      record {
        calls = answer created;
        audit = some (record_action shorten url d);
        state = st';
        tasks = [];
      }

  abbrev refused : List WriterCall → Option AuditData → State → Served State
  refused calls audit st = record { calls = calls; audit = audit; state = st; tasks = [] }

  abbrev shorten_body :
      Context → HttpRequest → Bool → List ℕ → String → Option AuditData → State → Served State
  shorten_body ctx r write_fails random url none st = refused internal_error none st
  shorten_body ctx r write_fails random url (some d) st =
      shorten_with (shorten_answer write_fails) ctx r url d random st

  -- ShortenURLHandler
  unfoldable pub shorten_url_handler :
      Context → HttpRequest → Bool → List ℕ → Option AuditData → State → Served State
  unfolding is_error
  shorten_url_handler ctx r write_fails random audit st = elim r.body [
    | none ↦ refused (http_error "Empty body" 400) audit st
    | some body ↦
        if is_empty body
        then refused (http_error "Empty body" 400) audit st
        else shorten_body ctx r write_fails random body audit st
  ]

  -- PingHandler
  unfoldable pub ping_handler : Context → Option AuditData → State → Served State
  ping_handler ctx audit st =
      let (result, st') = Service.ping storage service ctx st in
      refused (ping_answer result) audit st'

  module _ (json : Json) where
    abbrev shorten_json :
        Context → HttpRequest → Bool → List ℕ → String → Option AuditData → State → Served State
    shorten_json ctx r write_fails random url none st = refused internal_error none st
    shorten_json ctx r write_fails random url (some d) st =
        shorten_with (shorten_json_answer json write_fails) ctx r url d random st

    -- ShortenJSONHandler
    unfoldable pub shorten_json_handler :
        Context → HttpRequest → Bool → List ℕ → Option AuditData → State → Served State
    unfolding is_error
    shorten_json_handler ctx r write_fails random audit st = elim (json.decode_shorten r.body) [
      | none ↦ refused (http_error "Invalid JSON" 400) audit st
      | some request ↦ shorten_json ctx r write_fails random request.url audit st
    ]

    abbrev batch_with :
        Context
        → HttpRequest
        → (ℕ → List ℕ)
        → List BatchShortenRequest
        → Option AuditData
        → State
        → Served State
    batch_with ctx r random [] audit st = refused (http_error "Empty json" 400) audit st
    batch_with ctx r random (b ∷ bs) audit st =
        let (result, st') =
          Service.create_short_urls_batch storage service ctx (b ∷ bs) r.forwarded_proto r.host
            random st in
        refused (batch_answer json result) audit st'

    -- PostBatchShortenHandler
    unfoldable pub post_batch_shorten_handler :
        Context → HttpRequest → (ℕ → List ℕ) → Option AuditData → State → Served State
    unfolding is_error
    post_batch_shorten_handler ctx r random audit st = elim (json.decode_batch r.body) [
      | none ↦ refused (http_error "Invalid json" 400) audit st
      | some req ↦ batch_with ctx r random req audit st
    ]

    -- ListUserURLsHandler
    unfoldable pub list_user_urls_handler :
        Context → HttpRequest → Bool → Option AuditData → State → Served State
    list_user_urls_handler ctx r write_fails audit st =
        let scheme = if is_empty r.forwarded_proto then "http" else r.forwarded_proto in
        let (urls, st') = Service.get_user_urls storage service ctx scheme r.host st in
        refused (list_answer json write_fails urls) audit st'

    abbrev delete_with : ℕ → String → List String → Option AuditData → State → Served State
    delete_with max_parallel_workers user_id [] audit st = refused (write_header 202 ∷ []) audit st
    delete_with max_parallel_workers user_id (id ∷ ids) audit st = record {
      calls = write_header 202 ∷ [];
      audit = audit;
      state = st;
      tasks =
          record { user_id = user_id; short_ids = id ∷ ids; capacity = max_parallel_workers } ∷ [];
    }

    -- DeleteUserURLsHandler
    unfoldable pub delete_user_urls_handler :
        ℕ → Context → HttpRequest → Option AuditData → State → Served State
    unfolding get_user_id_from_context
    delete_user_urls_handler max_parallel_workers ctx r audit st =
        elim (get_user_id_from_context ctx) [
          | none ↦ refused internal_error audit st
          | some user_id ↦ elim (json.decode_ids r.body) [
            | none ↦ refused (http_error "Invalid JSON" 400) audit st
            | some short_ids ↦ delete_with max_parallel_workers user_id short_ids audit st
          ]
        ]

    -- StatsHandler
    unfoldable pub stats_handler : Context → Bool → Option AuditData → State → Served State
    stats_handler ctx write_fails audit st =
        let (statistics, st') = Service.get_stats storage service ctx st in
        refused (stats_answer json write_fails statistics) audit st'

  abbrev run_with : ℕ → Result (Unit {0}) × State → Option State
  run_with zero (result, st) = none
  run_with (suc n) (result, st) = some st

  -- The goroutine of a deletion, under the context of its 30 seconds: `none` if it waits for ever,
  -- as a send to a semaphore without capacity does.
  unfoldable pub run_task : Context → Task → State → Option State
  run_task ctx task st =
      run_with task.capacity
        (Service.delete_user_urls storage service ctx task.user_id task.short_ids st)
