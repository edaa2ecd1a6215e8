-- ===== src/Main/Process.antt =====
-- The running program: main after its select has begun, the Shutdown and WaitForBackground that it
-- calls (internal/server/server.go, grpc.go and internal/handlers/handlers.go), and what goes on
-- beside it. A step is what one goroutine does; the audit's are those of Audit. Of the packages
-- net/http and grpc it relies on their documentation: Shutdown and GracefulStop first take no new
-- requests, then wait for those that run, the first of them until its context is done.
use shortener.Base.{
  ℕ, suc, ◌≤◌, Bool, true, false, ◌≡◌, Option, none, some, List, [], ◌∷◌, ◌++◌, if◌then◌else◌,
}
use shortener.Base.Lists.{length}
use shortener.Models.{AuditEvent}
use shortener.Audit.{Task, Audit, workers, notify_all, Work}
use shortener.Config.{Floats}
use shortener.Main.{Outside, Serving, serving, start}

pub data Transport : Type 0 where
  http_request grpc_call : Transport

-- where main is
pub data Phase : Type 0 where
  -- in the select
  selecting : Phase
  -- in http.Server.Shutdown, WaitForBackground, GracefulStop
  http_stopping background_waiting grpc_stopping : Phase
  -- past the select, and in the deferred auditor.Stop
  leaving audit_stopping : Phase
  -- the end of the process: main has returned, Fatal has exited, or a panic was not recovered
  returned killed crashed : Phase

-- `http` and `grpc` count the requests in their handlers; a request whose handler is done is in
-- NotifyAll, and `owners` says of which server it is, for each of the audit's senders. `background`
-- counts the goroutines of deletions. A wait is cut where main goes on before it is over.
pub record Process : Type 0 where
  pub phase : Phase
  pub http_listening : Bool
  pub grpc_listening : Bool
  pub http : ℕ
  pub grpc : ℕ
  pub background : ℕ
  pub owners : List Transport
  pub auditor : Audit
  pub http_cut : Bool
  pub background_cut : Bool
  pub grpc_cut : Bool

abbrev pub alive : Phase → Bool
alive returned = false
alive killed = false
alive crashed = false
alive _ = true

-- main has started both servers
abbrev pub launch : {D F Ip : Type 0} → Serving D F Ip → Process
launch s = record {
  phase = selecting;
  http_listening = true;
  grpc_listening = true;
  http = 0;
  grpc = 0;
  background = 0;
  owners = [];
  auditor = s.auditor;
  http_cut = false;
  background_cut = false;
  grpc_cut = false;
}

-- what a case of the select does with the error of a server: none, http.ErrServerClosed or another
unfoldable pub after_http_error : Option Bool → Phase
after_http_error none = leaving
after_http_error (some server_closed) = if server_closed then leaving else killed

unfoldable pub after_grpc_error : Option Bool → Phase
after_grpc_error none = leaving
after_grpc_error (some _) = killed

-- a request leaves its handler and calls NotifyAll
abbrev pub notifying : AuditEvent → Audit → Audit
notifying event a = record a {
  senders = notify_all a.observers event (length a.events) ∷ a.senders;
  events = event ∷ a.events;
}

-- Requests, deletions and the audit's goroutines, while the process is there. A deletion's goroutine
-- sends to a semaphore of `max_parallel_workers`, and waits for ever if that is 0.
pub data Activity (max_parallel_workers : ℕ) : Process → Process → Type 0 where
  http_arrives :
      {p : Process}
      → p.http_listening ≡ true
      → Activity max_parallel_workers p (record p { http = suc p.http })
  grpc_arrives :
      {p : Process}
      → p.grpc_listening ≡ true
      → Activity max_parallel_workers p (record p { grpc = suc p.grpc })
  -- DeleteUserURLsHandler starts a goroutine
  deletion_starts :
      {p : Process} (n : ℕ)
      → p.http ≡ suc n
      → Activity max_parallel_workers p (record p { background = suc p.background })
  deletion_ends :
      {p : Process} (n : ℕ)
      → p.background ≡ suc n
      → 1 ≤ max_parallel_workers
      → Activity max_parallel_workers p (record p { background = n })
  -- a request ends that leaves no action for the audit
  http_ends :
      {p : Process} (n : ℕ)
      → p.http ≡ suc n
      → Activity max_parallel_workers p (record p { http = n })
  grpc_ends :
      {p : Process} (n : ℕ)
      → p.grpc ≡ suc n
      → Activity max_parallel_workers p (record p { grpc = n })
  http_notifies :
      {p : Process} (n : ℕ) (event : AuditEvent)
      → p.http ≡ suc n
      → Activity max_parallel_workers p (record p {
        http = n;
        owners = http_request ∷ p.owners;
        auditor = notifying event p.auditor;
      })
  grpc_notifies :
      {p : Process} (n : ℕ) (event : AuditEvent)
      → p.grpc ≡ suc n
      → Activity max_parallel_workers p (record p {
        grpc = n;
        owners = grpc_call ∷ p.owners;
        auditor = notifying event p.auditor;
      })
  audit_works :
      {p : Process} {a : Audit}
      → Work p.auditor a
      → Activity max_parallel_workers p (record p { auditor = a })
  -- a send on the closed channel: the request panics, which the recoverer ends
  send_panics :
      {p : Process} (before : List (List Task)) (t : Task) (ts : List Task)
      (after : List (List Task)) (os : List Transport) (os' : List Transport)
      → p.auditor.senders ≡ before ++ (t ∷ ts) ∷ after
      → p.owners ≡ os ++ http_request ∷ os'
      → length os ≡ length before
      → p.auditor.closed ≡ true
      → Activity max_parallel_workers p (record p {
        owners = os ++ os';
        auditor = record p.auditor { senders = before ++ after; lost = (t ∷ ts) ++ p.auditor.lost };
      })
  worker_exits :
      {p : Process} (k : ℕ)
      → p.auditor.closed ≡ true
      → p.auditor.task_ch ≡ []
      → p.auditor.idle ≡ suc k
      → Activity max_parallel_workers p
          (record p { auditor = record p.auditor { idle = k; exited = suc p.auditor.exited } })

-- The requests of a server have all left NotifyAll too.
abbrev pub Sent : Transport → List Transport → List (List Task) → Type 0
Sent k [] [] = Unit
Sent k [] (ts ∷ senders) = ⊥
Sent k (o ∷ os) [] = ⊥
Sent k (o ∷ os) (ts ∷ senders) = (o ≡ k → ts ≡ []) × Sent k os senders

-- What main does.
pub data Control : Process → Process → Type 0 where
  signal :
      {p : Process}
      → p.phase ≡ selecting
      → Control p (record p { phase = http_stopping; http_listening = false })
  http_stopped :
      {p : Process}
      → p.phase ≡ http_stopping
      → p.http ≡ 0
      → Sent http_request p.owners p.auditor.senders
      → Control p (record p { phase = background_waiting })
  -- the context of five seconds is done
  http_deadline :
      {p : Process}
      → p.phase ≡ http_stopping
      → Control p (record p { phase = background_waiting; http_cut = true })
  background_done :
      {p : Process}
      → p.phase ≡ background_waiting
      → p.background ≡ 0
      → Control p (record p { phase = grpc_stopping; grpc_listening = false })
  -- time.After(5 * time.Second)
  background_late :
      {p : Process}
      → p.phase ≡ background_waiting
      → Control p
          (record p { phase = grpc_stopping; grpc_listening = false; background_cut = true })
  grpc_stopped :
      {p : Process}
      → p.phase ≡ grpc_stopping
      → p.grpc ≡ 0
      → Sent grpc_call p.owners p.auditor.senders
      → Control p (record p { phase = leaving })
  -- a server ends by itself
  http_error :
      {p : Process} (e : Option Bool)
      → p.phase ≡ selecting
      → Control p (record p {
        phase = after_http_error e;
        http_listening = false;
        http_cut = true;
        background_cut = true;
        grpc_cut = true;
      })
  grpc_error :
      {p : Process} (e : Option Bool)
      → p.phase ≡ selecting
      → Control p (record p {
        phase = after_grpc_error e;
        grpc_listening = false;
        http_cut = true;
        background_cut = true;
        grpc_cut = true;
      })
  -- `close(s.taskCh)` in the deferred auditor.Stop
  audit_closes :
      {p : Process}
      → p.phase ≡ leaving
      → Control p
          (record p { phase = audit_stopping; auditor = record p.auditor { closed = true } })
  -- a gRPC call sends on the closed channel: nothing recovers its panic
  call_panics :
      {p : Process} (before : List (List Task)) (t : Task) (ts : List Task)
      (after : List (List Task)) (os : List Transport) (os' : List Transport)
      → p.auditor.senders ≡ before ++ (t ∷ ts) ∷ after
      → p.owners ≡ os ++ grpc_call ∷ os'
      → length os ≡ length before
      → p.auditor.closed ≡ true
      → alive p.phase ≡ true
      → Control p
          (record p { phase = crashed; http_cut = true; background_cut = true; grpc_cut = true })
  -- `s.wgWorkers.Wait()` is over
  main_returns :
      {p : Process}
      → p.phase ≡ audit_stopping
      → p.auditor.exited ≡ workers
      → Control p (record p { phase = returned })

pub data Step (max_parallel_workers : ℕ) : Process → Process → Type 0 where
  work :
      {p q : Process}
      → alive p.phase ≡ true
      → Activity max_parallel_workers p q
      → Step max_parallel_workers p q
  control : {p q : Process} → Control p q → Step max_parallel_workers p q

-- what can come of a start of the program
pub data Reach (f : Floats) {D F Ip : Type 0} (o : Outside f.Float D F Ip)
    (max_parallel_workers : ℕ) : Process → Type 0 where
  launched :
      (s : Serving D F Ip)
      → start f o ≡ serving s
      → s.config.max_parallel_workers ≡ max_parallel_workers
      → Reach f o max_parallel_workers (launch s)
  later :
      {p q : Process}
      → Reach f o max_parallel_workers p
      → Step max_parallel_workers p q
      → Reach f o max_parallel_workers q
