-- ===== src/Audit/Stopping.antt =====
-- Stop closes the channel and waits: the workers return, and everything that the channel had taken
-- is done by then.
use shortener.Base.{
  ℕ, zero, suc, ◌+◌, ◌*◌, ◌≤◌, ◌<◌, Bool, true, false, ◌≡◌, refl, ap, ◌∙◌, ◌⊎◌, inl, inr, [], arith,
}
use shortener.Base.Lists.{length}
use shortener.Audit.{Task, Audit, workers, Work, receive, finish, exit, Reach}
use shortener.Audit.Counts.{count, waiting, all_tasks, count-cons}
use shortener.Audit.Delivery.{Reach-Balanced, Reach-Staffed, Staffed, Work-Staffed, Step-Staffed}
use shortener.Audit.Draining.{cases, idle-cases}

-- The steps after `close(s.taskCh)` of the goroutines that Stop waits for.
pub data Ending : Audit → Audit → Type 0 where
  all_back : {s : Audit} → Ending s s
  worked : {s s' s'' : Audit} → Work s s' → Ending s' s'' → Ending s s''
  back :
      {s s'' : Audit} (k : ℕ)
      → s.closed ≡ true
      → s.task_ch ≡ []
      → s.idle ≡ suc k
      → Ending (record s { idle = k; exited = suc s.exited }) s''
      → Ending s s''

-- what the workers still have to do before they have all returned
abbrev pub remaining : Audit → ℕ
remaining s = 3 * length s.task_ch + 2 * length s.busy + s.idle

-- the tasks of the kind that the channel had taken
abbrev pub accepted : (Task → Bool) → Audit → ℕ
accepted p s = count p s.task_ch + count p s.busy + count p s.done

-- All workers have returned, and exactly what the channel had taken is done.
abbrev pub IsStoppedFrom : Audit → Audit → Type 0
IsStoppedFrom s s' =
    (s'.exited ≡ workers)
    × (s'.task_ch ≡ [])
    × (s'.busy ≡ [])
    × ((p : Task → Bool) → count p s'.done ≡ accepted p s)

-- Either all workers have returned, or one can go on, and less is left to do.
worker_turn :
    (s : Audit)
    → Staffed s
    → s.closed ≡ true
    → IsStoppedFrom s s
      ⊎ ((s' : Audit) × ((s'' : Audit) → Ending s' s'' → Ending s s'')
          × Staffed s'
          × (s'.closed ≡ true)
          × (remaining s' < remaining s)
          × ((p : Task → Bool) → accepted p s' ≡ accepted p s))
worker_turn s (sum, over, fits) closed = elim (cases s.busy) [
  | inr (t, ts, e) ↦
      let w = finish [] t ts false e in
      inr (
        _,
        (λ s'' more. worked w more),
        Work-Staffed w (sum, over, fits),
        closed,
        omega (arith, ap length e),
        λ p. omega (arith, ap (count p) e, count-cons p t ts, count-cons p t s.done),
      )
  | inl no_busy ↦ elim (cases s.task_ch) [
    | inr (t, ts, e) ↦ elim (idle-cases s.idle) [
      | inl no_idle ↦ absurd (ground (arith, over))
      | inr (k, ready) ↦
          let w = receive t ts k e ready in
          inr (
            _,
            (λ s'' more. worked w more),
            Work-Staffed w (sum, over, fits),
            closed,
            omega (arith, ap length e),
            λ p. omega (arith, ap (count p) e, count-cons p t ts, count-cons p t s.busy),
          )
    ]
    | inl bare ↦ elim (idle-cases s.idle) [
      | inl no_idle ↦ inl (
        omega (arith, ap length no_busy),
        bare,
        no_busy,
        λ p. omega (arith, ap (count p) bare, ap (count p) no_busy),
      )
      | inr (k, ready) ↦ inr (
        _,
        (λ s'' more. back k closed bare ready more),
        Step-Staffed (exit {s = s} k closed bare ready) (sum, over, fits),
        closed,
        omega arith,
        λ p. refl,
      )
    ]
  ]
]

drain_closed :
    (n : ℕ) (s : Audit)
    → Staffed s
    → s.closed ≡ true
    → remaining s ≤ n
    → (s' : Audit) × Ending s s' × IsStoppedFrom s s'
drain_closed zero s staffed closed h = elim (worker_turn s staffed closed) [
  | inl stopped ↦ (s, all_back, stopped)
  | inr (s', step, staffed', closed', falls, same) ↦ absurd (omega arith)
]
drain_closed (suc n) s staffed closed h = elim (worker_turn s staffed closed) [
  | inl stopped ↦ (s, all_back, stopped)
  | inr (s', step, staffed', closed', falls, same) ↦
      let (s'', more, (out, bare, no_busy, delivered)) =
        drain_closed n s' staffed' closed' (omega arith) in
      (s'', step s'' more, (out, bare, no_busy, λ p. delivered p ∙ same p))
]

-- From a reachable state in which Stop has closed the channel, the workers can go on until all of
-- them have returned, and then exactly the tasks that the channel had taken are done.
pub stop-Drains :
    (s : Audit) → Reach s → s.closed ≡ true → (s' : Audit) × Ending s s' × IsStoppedFrom s s'
stop-Drains s r closed = drain_closed (remaining s) s (Reach-Staffed r) closed (omega arith)

-- Once all workers have returned, whoever else has gone on, a task that is not done is with a sender
-- that has not sent it, or was lost by a send on the closed channel.
pub exited-IsStopped :
    (s : Audit)
    → Reach s
    → s.exited ≡ workers
    → (s.task_ch ≡ [])
      × (s.busy ≡ [])
      × ((p : Task → Bool)
          → waiting p s.senders + count p s.done + count p s.lost
            ≡ count p (all_tasks s.observers s.events))
exited-IsStopped s r out = elim (cases s.busy) [
  | inr (t, ts, e) ↦ absurd (omega (arith, ap length e, (Reach-Staffed r).0))
  | inl no_busy ↦
      let bare = ((Reach-Staffed r).1 (omega arith)).1 in
      (
        bare,
        no_busy,
        λ p. omega (arith, Reach-Balanced r p, ap (count p) bare, ap (count p) no_busy),
      )
]
