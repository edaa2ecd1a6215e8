-- ===== src/Audit.antt =====
-- internal/audit/audit.go: the channel of tasks and its workers as steps on one state. A step is what
-- one goroutine does without another in between: a NotifyAll sends one task, a worker takes a task or
-- has notified its observer. Senders, workers and the channel's order are all free to interleave.
pub mod Counts
pub mod Delivery
pub mod Draining
pub mod Stopping
pub mod Observers
use shortener.Base.{
  ℕ, zero, suc, ◌<◌, String, Bool, true, false, ◌==◌, ◌≡◌, Option, none, some, List, [], ◌∷◌, ◌++◌,
  if◌then◌else◌,
}
use shortener.Base.Lists.{length}
use shortener.Errors.{Error, Result, ok, err}
use shortener.Models.{AuditEvent}

-- FileAuditObserver by its path, HTTPAuditObserver by its url
pub data Observer : Type 0 where
  file_observer http_observer : String → Observer

-- task; the wait group is that of a call of NotifyAll, by its number
pub record Task : Type 0 where
  pub observer : Observer
  pub event : AuditEvent
  pub group : ℕ

-- audit, with its goroutines: the tasks that each running NotifyAll has still to send, the workers
-- that wait at the channel, the tasks whose observers are being notified, the workers that have
-- returned. The events of all calls, newest first, and the tasks done or lost are its history.
pub record Audit : Type 0 where
  pub observers : List Observer
  pub capacity : ℕ
  pub task_ch : List Task
  pub closed : Bool
  pub senders : List (List Task)
  pub idle : ℕ
  pub busy : List Task
  pub exited : ℕ
  pub events : List AuditEvent
  pub done : List Task
  pub lost : List Task

-- the loop of NotifyAll
unfoldable pub notify_all : List Observer → AuditEvent → ℕ → List Task
notify_all [] event group = []
notify_all (o ∷ os) event group =
    record { observer = o; event = event; group = group } ∷ notify_all os event group

-- Register
unfoldable pub register : Observer → Audit → Audit
register o s = record s { observers = s.observers ++ o ∷ [] }

-- the number of workers that InitAudit starts
abbrev pub workers : ℕ
workers = 10

-- `&audit{…}` and startWorkers
abbrev pub start_workers : ℕ → Audit
start_workers max_parallel_workers = record {
  observers = [];
  capacity = max_parallel_workers;
  task_ch = [];
  closed = false;
  senders = [];
  idle = workers;
  busy = [];
  exited = 0;
  events = [];
  done = [];
  lost = [];
}

abbrev pub register_url : String → Audit → Audit
register_url audit_url s = if audit_url == "" then s else register (http_observer audit_url) s

-- InitAudit; `opened` is the error of NewFileAuditObserver, if it has one
unfoldable pub init_audit : Option Error → String → String → ℕ → Result Audit
unfolding register
init_audit opened audit_file audit_url max_parallel_workers =
    if audit_file == ""
    then ok (register_url audit_url (start_workers max_parallel_workers))
    else (elim opened [
      | some e ↦ err e
      | none ↦ ok (
          register_url audit_url
            (register (file_observer audit_file) (start_workers max_parallel_workers)))
    ])

-- the loop of Stop over the observers, given the error of each one's Stop: those that it calls, in
-- order, and its own error
unfoldable pub stop_observers :
    (Observer → Option Error) → List Observer → List Observer × Option Error
stop_observers stop [] = ([], none)
stop_observers stop (o ∷ os) =
    let (stopped, e) = stop_observers stop os in
    elim (stop o) [ none ↦ (o ∷ stopped, e) | some e ↦ (o ∷ [], some e) ]

-- what the goroutines of the audit do without a new call
pub data Work : Audit → Audit → Type 0 where
  -- `s.taskCh <- task{…}` into the buffer
  send :
      {s : Audit} (before : List (List Task)) (t : Task) (ts : List Task) (after : List (List Task))
      → s.senders ≡ before ++ (t ∷ ts) ∷ after
      → s.closed ≡ false
      → length s.task_ch < s.capacity
      → Work s (record s { senders = before ++ ts ∷ after; task_ch = s.task_ch ++ t ∷ [] })
  -- `s.taskCh <- task{…}` to a worker that waits
  hand_over :
      {s : Audit} (before : List (List Task)) (t : Task) (ts : List Task) (after : List (List Task))
      (k : ℕ)
      → s.senders ≡ before ++ (t ∷ ts) ∷ after
      → s.closed ≡ false
      → s.task_ch ≡ []
      → s.idle ≡ suc k
      → Work s (record s { senders = before ++ ts ∷ after; idle = k; busy = t ∷ s.busy })
  -- `range s.taskCh`
  receive :
      {s : Audit} (t : Task) (ts : List Task) (k : ℕ)
      → s.task_ch ≡ t ∷ ts
      → s.idle ≡ suc k
      → Work s (record s { task_ch = ts; idle = k; busy = t ∷ s.busy })
  -- Notify has returned or has panicked: either way `t.wg.Done()` runs and the worker goes on
  finish :
      {s : Audit} (before : List Task) (t : Task) (after : List Task) (panicked : Bool)
      → s.busy ≡ before ++ t ∷ after
      → Work s (record s { busy = before ++ after; idle = suc s.idle; done = t ∷ s.done })

pub data Step : Audit → Audit → Type 0 where
  work : {s s' : Audit} → Work s s' → Step s s'
  -- a request calls NotifyAll
  call :
      {s : Audit} (event : AuditEvent)
      → Step s (record s {
        senders = notify_all s.observers event (length s.events) ∷ s.senders;
        events = event ∷ s.events;
      })
  -- `close(s.taskCh)` in Stop, which `s.once` runs once
  close : {s : Audit} → s.closed ≡ false → Step s (record s { closed = true })
  -- to send on a closed channel is a panic of the request
  send_closed :
      {s : Audit} (before : List (List Task)) (t : Task) (ts : List Task) (after : List (List Task))
      → s.senders ≡ before ++ (t ∷ ts) ∷ after
      → s.closed ≡ true
      → Step s (record s { senders = before ++ after; lost = (t ∷ ts) ++ s.lost })
  -- `range` ends on a channel that is closed and empty
  exit :
      {s : Audit} (k : ℕ)
      → s.closed ≡ true
      → s.task_ch ≡ []
      → s.idle ≡ suc k
      → Step s (record s { idle = k; exited = suc s.exited })

-- what can come of an audit that InitAudit made
pub data Reach : Audit → Type 0 where
  initial :
      {s : Audit} (opened : Option Error) (audit_file audit_url : String) (max_parallel_workers : ℕ)
      → init_audit opened audit_file audit_url max_parallel_workers ≡ ok s
      → Reach s
  later : {s s' : Audit} → Reach s → Step s s' → Reach s'
