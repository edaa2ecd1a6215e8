-- ===== src/Handlers/Replies.antt =====
-- How the handlers of handlers.go and api.go answer, over any storage: one header each, and no
-- error after it that a client could see as a status.
use shortener.Base.{ℕ, ◌≤◌, ◌≡◌, Bool, false, true, none, Option, List, [], ◌∷◌, arith}
use shortener.Models.{AuditData}
use shortener.Context.{Context}
use shortener.Http.{
  WriterCall, HttpRequest, set_header, del_header, set_cookie, write_header, write, new_writer,
  play, status_of, call, send_header,
}
use shortener.Repository.{Storage}
use shortener.Service.{ServiceConfig}
use shortener.Handlers.{
  Json, shorten_url_handler, expand_url_handler, ping_handler, shorten_json_handler,
  post_batch_shorten_handler, list_user_urls_handler, delete_user_urls_handler, stats_handler,
}

abbrev pub OnlyWrites : List WriterCall → Type 0
OnlyWrites [] = Unit
OnlyWrites (write t ∷ cs) = OnlyWrites cs
OnlyWrites (_ ∷ cs) = ⊥

-- The calls set headers, send one header, and only then write.
abbrev pub SendsOnce : List WriterCall → Type 0
SendsOnce [] = ⊥
SendsOnce (set_header k v ∷ cs) = SendsOnce cs
SendsOnce (del_header k ∷ cs) = SendsOnce cs
SendsOnce (set_cookie k v ∷ cs) = SendsOnce cs
SendsOnce (write_header s ∷ cs) = OnlyWrites cs
SendsOnce (write t ∷ cs) = ⊥

module _ (storage : Storage) (service : ServiceConfig) (json : Json) (ctx : Context)
    (r : HttpRequest) (audit : Option AuditData) (st : storage.State) where
  expand_url_handler-SendsOnce : SendsOnce (expand_url_handler storage service ctx r audit st).calls
  unfolding expand_url_handler
  expand_url_handler-SendsOnce = ground arith

  ping_handler-SendsOnce : SendsOnce (ping_handler storage service ctx audit st).calls
  unfolding ping_handler
  ping_handler-SendsOnce = ground arith

  shorten_url_handler-SendsOnce :
      (random : List ℕ)
      → SendsOnce (shorten_url_handler storage service ctx r false random audit st).calls
  unfolding shorten_url_handler
  shorten_url_handler-SendsOnce random = ground arith

  shorten_json_handler-SendsOnce :
      (random : List ℕ)
      → SendsOnce (shorten_json_handler storage service json ctx r false random audit st).calls
  unfolding shorten_json_handler
  shorten_json_handler-SendsOnce random = ground arith

  post_batch_shorten_handler-SendsOnce :
      (random : ℕ → List ℕ)
      → SendsOnce (post_batch_shorten_handler storage service json ctx r random audit st).calls
  unfolding post_batch_shorten_handler
  post_batch_shorten_handler-SendsOnce random = ground arith

  list_user_urls_handler-SendsOnce :
      SendsOnce (list_user_urls_handler storage service json ctx r false audit st).calls
  unfolding list_user_urls_handler
  list_user_urls_handler-SendsOnce = ground arith

  delete_user_urls_handler-SendsOnce :
      (workers : ℕ)
      → SendsOnce (delete_user_urls_handler storage service json workers ctx r audit st).calls
  unfolding delete_user_urls_handler
  delete_user_urls_handler-SendsOnce workers = ground arith

  stats_handler-SendsOnce : SendsOnce (stats_handler storage service json ctx false audit st).calls
  unfolding stats_handler
  stats_handler-SendsOnce = ground arith

  -- Where writing works, every handler, over any storage, sends its header exactly once, before any
  -- of its body.
  pub handlers-SendsOnce :
      (random : List ℕ) (randoms : ℕ → List ℕ) (workers : ℕ)
      → SendsOnce (shorten_url_handler storage service ctx r false random audit st).calls
        × SendsOnce (expand_url_handler storage service ctx r audit st).calls
        × SendsOnce (ping_handler storage service ctx audit st).calls
        × SendsOnce (shorten_json_handler storage service json ctx r false random audit st).calls
        × SendsOnce (post_batch_shorten_handler storage service json ctx r randoms audit st).calls
        × SendsOnce (list_user_urls_handler storage service json ctx r false audit st).calls
        × SendsOnce (delete_user_urls_handler storage service json workers ctx r audit st).calls
        × SendsOnce (stats_handler storage service json ctx false audit st).calls
  handlers-SendsOnce random randoms workers = (
    shorten_url_handler-SendsOnce random,
    expand_url_handler-SendsOnce,
    ping_handler-SendsOnce,
    shorten_json_handler-SendsOnce random,
    post_batch_shorten_handler-SendsOnce randoms,
    list_user_urls_handler-SendsOnce,
    delete_user_urls_handler-SendsOnce workers,
    stats_handler-SendsOnce,
  )

  -- Without an AuditData in the context neither handler that shortens one url changes the storage,
  -- and both answer by a status of at least 400.
  pub shorten-no-audit :
      (write_fails : Bool) (random : List ℕ)
      → ((shorten_url_handler storage service ctx r write_fails random none st).state ≡ st)
        × ((shorten_json_handler storage service json ctx r write_fails random none st).state ≡ st)
        × (400
            ≤ status_of (
                play
                  (shorten_url_handler storage service ctx r write_fails random none st).calls
                  new_writer))
        × (400
            ≤ status_of (
                play
                  (shorten_json_handler storage service json ctx r write_fails random none st).calls
                  new_writer))
  unfolding shorten_url_handler shorten_json_handler play call send_header
  shorten-no-audit write_fails random = (ground arith, ground arith, ground arith, ground arith)

  -- A body whose writing fails does not change the status that the client sees, in the four
  -- handlers that answer the failure.
  pub status-write_fails :
      (random : List ℕ)
      → (status_of
            (play (shorten_url_handler storage service ctx r true random audit st).calls new_writer)
          ≡ status_of (
              play
                (shorten_url_handler storage service ctx r false random audit st).calls
                new_writer))
        × (status_of (
              play
                (shorten_json_handler storage service json ctx r true random audit st).calls
                new_writer)
            ≡ status_of (
                play
                  (shorten_json_handler storage service json ctx r false random audit st).calls
                  new_writer))
        × (status_of (
              play
                (list_user_urls_handler storage service json ctx r true audit st).calls
                new_writer)
            ≡ status_of (
                play
                  (list_user_urls_handler storage service json ctx r false audit st).calls
                  new_writer))
        × (status_of (play (stats_handler storage service json ctx true audit st).calls new_writer)
            ≡ status_of
                (play (stats_handler storage service json ctx false audit st).calls new_writer))
  unfolding shorten_url_handler shorten_json_handler list_user_urls_handler stats_handler play call
      send_header
  status-write_fails random = (ground arith, ground arith, ground arith, ground arith)
