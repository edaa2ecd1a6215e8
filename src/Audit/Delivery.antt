-- ===== src/Audit/Delivery.antt =====
-- No task is lost or notified twice, whatever the interleaving.
use shortener.Base.{
  ℕ, ◌+◌, ◌≤◌, String, Bool, true, ◌==◌, ◌≡◌, refl, ap, ◌∙◌, Option, none, some, List, [], ◌∷◌,
  ◌++◌, arith, inl, inr, Bool-cases,
}
use mathlib.Core.Path.{subst}
use shortener.Base.Lists.{length, length-append}
use shortener.Errors.{Error, ok, err}
use shortener.Audit.{
  Observer, Task, Audit, notify_all, register, init_audit, start_workers, workers, Work, send,
  hand_over, receive, finish, Step, work, call, close, send_closed, exit, Reach, initial, later,
  register_url, file_observer, http_observer,
}
use shortener.Audit.Counts.{
  count, waiting, all_tasks, count-append, count-middle, count-cons, waiting-middle,
}

ok_injective : {A : Type 0} {a b : A} → ok a ≡ ok b → a ≡ b
ok_injective h = ground arith

-- Where a task of the kind can be: with a sender, in the channel, with a worker, done, or lost.
abbrev pub somewhere : (Task → Bool) → Audit → ℕ
somewhere p s =
    waiting p s.senders + count p s.task_ch + count p s.busy + count p s.done + count p s.lost

pub Work-somewhere : (p : Task → Bool) {s s' : Audit} → Work s s' → somewhere p s' ≡ somewhere p s
Work-somewhere p (send {s} before t ts after e live room) = omega (
  arith,
  ap (waiting p) e,
  waiting-middle p before (t ∷ ts) after,
  waiting-middle p before ts after,
  count-cons p t ts,
  count-append p s.task_ch (t ∷ []),
)
Work-somewhere p (hand_over {s} before t ts after k e live none_there ready) = omega (
  arith,
  ap (waiting p) e,
  waiting-middle p before (t ∷ ts) after,
  waiting-middle p before ts after,
  count-cons p t ts,
  count-cons p t s.busy,
)
Work-somewhere p (receive {s} t ts k e ready) =
    omega (arith, ap (count p) e, count-cons p t ts, count-cons p t s.busy)
Work-somewhere p (finish {s} before t after panicked e) =
    omega (arith, ap (count p) e, count-middle p before t after, count-cons p t s.done)

-- The observers stay, and every call of them is somewhere.
abbrev pub Balanced : Audit → Type 0
Balanced s = (p : Task → Bool) → somewhere p s ≡ count p (all_tasks s.observers s.events)

-- Every worker is at the channel, with a task, or has returned, and none returns before the channel
-- is closed and empty. The buffer holds no more than its capacity.
abbrev pub Staffed : Audit → Type 0
Staffed s =
    (s.idle + length s.busy + s.exited ≡ workers)
    × (1 ≤ s.exited → (s.closed ≡ true) × (s.task_ch ≡ []))
    × (length s.task_ch ≤ s.capacity)

pub Work-same : {s s' : Audit} → Work s s' → (s'.observers ≡ s.observers) × (s'.events ≡ s.events)
Work-same (send before t ts after e live room) = (refl, refl)
Work-same (hand_over before t ts after k e live bare ready) = (refl, refl)
Work-same (receive t ts k e ready) = (refl, refl)
Work-same (finish before t after panicked e) = (refl, refl)

Step-Balanced : {s s' : Audit} → Step s s' → Balanced s → Balanced s'
Step-Balanced {s} {s'} (work w) h =
    λ p. let (observers, events) = Work-same w in rw (observers, events) (Work-somewhere p w ∙ h p)
Step-Balanced {s} (call event) h = λ p. omega (
  arith,
  h p,
  count-append p (notify_all s.observers event (length s.events)) (all_tasks s.observers s.events),
)
Step-Balanced (close live) h = h
Step-Balanced {s} (send_closed before t ts after e closed) h = λ p. omega (
  arith,
  h p,
  ap (waiting p) e,
  waiting-middle p before (t ∷ ts) after,
  count-append p (t ∷ ts) s.lost,
)
Step-Balanced (exit k closed bare ready) h = h

pub Work-Staffed : {s s' : Audit} → Work s s' → Staffed s → Staffed s'
Work-Staffed {s} (send before t ts after e live room) (sum, ended, fits) =
    (sum, λ h. absurd (ground (arith, ended h)), omega (arith, length-append s.task_ch (t ∷ [])))
Work-Staffed (hand_over before t ts after k e live bare ready) (sum, ended, fits) =
    (omega arith, ended, fits)
Work-Staffed {s} (receive t ts k e ready) (sum, ended, fits) =
    (omega arith, λ h. absurd (ground (arith, ended h)), omega (arith, ap length e))
Work-Staffed {s} (finish before t after panicked e) (sum, ended, fits) = (
  omega (arith, ap length e, length-append before (t ∷ after), length-append before after),
  ended,
  fits,
)

pub Step-Staffed : {s s' : Audit} → Step s s' → Staffed s → Staffed s'
Step-Staffed (work w) h = Work-Staffed w h
Step-Staffed (call event) h = h
Step-Staffed (close live) (sum, ended, fits) = (sum, λ h. (refl, (ended h).1), fits)
Step-Staffed (send_closed before t ts after e closed) h = h
Step-Staffed (exit k closed bare ready) (sum, ended, fits) =
    (omega arith, λ h. (closed, bare), fits)

-- An audit without a call or a task, and with every worker at the channel.
abbrev pub IsFresh : Audit → Type 0
IsFresh s = (n : ℕ) × (os : List Observer) × (s ≡ record (start_workers n) { observers = os })

register_url-IsFresh : (url : String) (s : Audit) → IsFresh s → IsFresh (register_url url s)
unfolding register
register_url-IsFresh url s (n, os, e) = elim (Bool-cases (url == "")) [
  | inl none_there ↦ (n, os, rw none_there e)
  | inr there ↦ (n, os ++ http_observer url ∷ [], rw (there, e) refl)
]

pub init_audit-IsFresh :
    (failure : Option Error) (file url : String) (n : ℕ) (s : Audit)
    → init_audit failure file url n ≡ ok s
    → IsFresh s
unfolding init_audit register
init_audit-IsFresh failure file url n s h = elim (Bool-cases (file == "")) [
  | inl no_file ↦
      subst IsFresh (ok_injective (rw (no_file, init_audit) at h))
        (register_url-IsFresh url (start_workers n) (n, [], refl))
  | inr with_file ↦ opened failure (rw (with_file, init_audit) at h)
]
  where
    opened :
        (failure : Option Error)
        → (elim failure [
          | some e ↦ err e
          | none ↦ ok (register_url url (register (file_observer file) (start_workers n)))
        ])
          ≡ ok s
        → IsFresh s
    opened (some e) h = absurd (ground (arith, h))
    opened none h =
        subst IsFresh (ok_injective h)
          (register_url-IsFresh url _ (n, file_observer file ∷ [], refl))

-- In every state that the audit can reach, under any interleaving of requests, workers and Stop,
-- each task of each call of NotifyAll is in exactly one place: with its sender, in the channel,
-- with a worker, done, or lost by a send on the closed channel; no other task is anywhere.
pub Reach-Balanced : {s : Audit} → Reach s → Balanced s
Reach-Balanced (initial opened file url n h) =
    let (n, os, e) = init_audit-IsFresh opened file url _ _ h in rw e (λ p. refl)
Reach-Balanced (later r step) = Step-Balanced step (Reach-Balanced r)

pub Reach-Staffed : {s : Audit} → Reach s → Staffed s
Reach-Staffed (initial opened file url n h) =
    let (n, os, e) = init_audit-IsFresh opened file url _ _ h in
    rw e (refl, (λ h. absurd (omega arith)), omega arith)
Reach-Staffed (later r step) = Step-Staffed step (Reach-Staffed r)
