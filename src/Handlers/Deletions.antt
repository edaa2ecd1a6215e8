-- ===== src/Handlers/Deletions.antt =====
-- DeleteUserURLsHandler of api.go and the goroutine that it starts, over the memory storage.
use shortener.Base.{ℕ, suc, String, ◌≡◌, none, some, Option, List, [], ◌∷◌, arith}
use shortener.Base.Dict.{Dict, lookup}
use shortener.Models.{AuditData}
use shortener.Context.{Context}
use shortener.Http.{HttpRequest, new_writer, play, status_of, call, send_header}
use shortener.Repository.{UrlInfo}
use shortener.Repository.Memory
use shortener.Repository.Memory.{MemStorage, mem_storage}
use shortener.Repository.Memory.Deletion.{get-delete_batch, answer_after, contains}
use shortener.Service
use shortener.Service.{ServiceConfig}
use shortener.Handlers.{Json, Task, delete_user_urls_handler, run_task}

-- The goroutines run one after the other, under one context.
abbrev pub run_tasks :
    (visit : Dict UrlInfo → List (String × UrlInfo))
    → ServiceConfig
    → Context
    → List Task
    → MemStorage
    → Option MemStorage
run_tasks visit service ctx [] m = some m
run_tasks visit service ctx (task ∷ tasks) m =
    elim (run_task (mem_storage visit) service ctx task m) [
      | none ↦ none
      | some m' ↦ run_tasks visit service ctx tasks m'
    ]

module _ (visit : Dict UrlInfo → List (String × UrlInfo)) (service : ServiceConfig) (json : Json)
    (ctx : Context) (user_id : String) (r : HttpRequest) (audit : Option AuditData) (m : MemStorage)
    (known : ctx.user_id ≡ some user_id) where
  run_tasks-delete_batch :
      (ids : List String) (workers : ℕ) (background : Context)
      → json.decode_ids r.body ≡ some ids
      → background.done ≡ none
      → run_tasks visit service background
          (delete_user_urls_handler
            (mem_storage visit)
            service
            json
            (suc workers)
            ctx
            r
            audit
            m).tasks
          m
        ≡ some (Memory.delete_batch background user_id ids m).1
  unfolding delete_user_urls_handler run_task Service.delete_user_urls Memory.delete_batch
  run_tasks-delete_batch [] workers background decoded runs = ground arith
  run_tasks-delete_batch (id ∷ ids) workers background decoded runs = ground arith

  -- Over a memory storage and with at least one parallel worker, a deletion that a known user asks
  -- for is accepted with 202 before anything is deleted. Once its goroutine has run, under contexts
  -- that are not done, the ids that it lists and the user owns are gone, and every other id answers
  -- as before.
  pub delete_user_urls_handler-get :
      (ids : List String) (workers : ℕ) (background reader : Context) (id : String)
      → json.decode_ids r.body ≡ some ids
      → background.done ≡ none
      → reader.done ≡ none
      → let served =
          delete_user_urls_handler (mem_storage visit) service json (suc workers) ctx r audit m in
        (status_of (play served.calls new_writer) ≡ 202)
        × (served.state ≡ m)
        × (m' : MemStorage) × (run_tasks visit service background served.tasks m ≡ some m')
        × ((Memory.get reader id m').0
            ≡ answer_after user_id (contains ids id) (lookup id m.entries))
  unfolding delete_user_urls_handler play call send_header
  delete_user_urls_handler-get ids workers background reader id decoded runs reads = (
    accepted ids decoded,
    ground arith,
    (Memory.delete_batch background user_id ids m).1,
    run_tasks-delete_batch ids workers background decoded runs,
    get-delete_batch background reader user_id ids id m runs reads,
  )
    where
      accepted :
          (ids : List String)
          → json.decode_ids r.body ≡ some ids
          → status_of (
              play
                (delete_user_urls_handler
                  (mem_storage visit)
                  service
                  json
                  (suc workers)
                  ctx
                  r
                  audit
                  m).calls
                new_writer)
            ≡ 202
      accepted [] h = ground arith
      accepted (x ∷ xs) h = ground arith

  -- Over a memory storage and with no parallel workers, a known user's deletion of at least one id
  -- is accepted with 202, and its goroutine never ends.
  pub delete_user_urls_handler_blocked :
      (id : String) (ids : List String) (background : Context)
      → json.decode_ids r.body ≡ some (id ∷ ids)
      → let served = delete_user_urls_handler (mem_storage visit) service json 0 ctx r audit m in
        (status_of (play served.calls new_writer) ≡ 202)
        × (run_tasks visit service background served.tasks m ≡ none)
  unfolding delete_user_urls_handler play call send_header run_task
  delete_user_urls_handler_blocked id ids background decoded = (ground arith, ground arith)
