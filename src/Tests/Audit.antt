-- ===== src/Tests/Audit.antt =====
-- The theorems on audit.go for an audit with a file and no buffer.
use shortener.Base.{ℕ, true, refl, none, [], ◌∷◌}
use shortener.Models.{AuditEvent, follow}
use shortener.Audit.{
  Task, Audit, file_observer, start_workers, register, init_audit, notify_all, call, close,
  hand_over, finish, Reach, initial, later,
}
use shortener.Audit.Delivery.{Balanced, Reach-Balanced}
use shortener.Audit.Draining.{Works, rest, next}
use shortener.Audit.Observers.{IsLogged, file_after-IsLogged}
use shortener.Audit.Stopping.{Ending, IsStoppedFrom, stop-Drains}

abbrev visited : AuditEvent
visited = record { timestamp = 1; action = follow; user_id = "anna"; url = "u" }

-- one call of NotifyAll that has not sent its task
abbrev asked : Audit
asked = record (start_workers 0) {
  observers = file_observer "log" ∷ [];
  senders = notify_all (file_observer "log" ∷ []) visited 0 ∷ [];
  events = visited ∷ [];
}

asked-Reach : Reach asked
unfolding init_audit register
asked-Reach = later (initial none "log" "" 0 refl) (call visited)

Reach-Balanced_example : Balanced asked
Reach-Balanced_example = Reach-Balanced asked-Reach

abbrev visit_task : Task
visit_task = record { observer = file_observer "log"; event = visited; group = 0 }

-- a worker has taken the task and its observer has panicked
abbrev notified : Audit
notified = record asked { senders = [] ∷ []; done = visit_task ∷ [] }

asked-notified : Works 2 asked notified
unfolding notify_all
asked-notified =
    next (hand_over [] visit_task [] [] 9 refl refl refl refl)
      (next (finish [] visit_task [] true refl) rest)

abbrev closed_early : Audit
closed_early = record asked { closed = true }

stop-Drains_example : (s' : Audit) × Ending closed_early s' × IsStoppedFrom closed_early s'
stop-Drains_example = stop-Drains closed_early (later asked-Reach (close refl)) refl

file_after-IsLogged_example :
    (m' : ℕ) × (s'' : Audit) × Works m' notified s''
    × IsLogged (λ e. e.url) "log" "of before" (visited ∷ []) s''.done
file_after-IsLogged_example =
    file_after-IsLogged (λ e. e.url) "log" "of before" asked 2 notified asked-Reach refl refl
      asked-notified
