-- ===== src/Audit/Draining.antt =====
-- The workers get through everything that was asked for, and Stop waits until they have.
use shortener.Base.{
  ℕ, zero, suc, ◌+◌, ◌*◌, ◌≤◌, ◌<◌, Bool, false, ◌≡◌, refl, sym, ap, ◌∙◌, ◌⊎◌, inl, inr, List, [],
  ◌∷◌, ◌++◌, arith,
}
use shortener.Audit.{
  Task, Audit, Work, send, hand_over, receive, finish, work, call, close, send_closed, exit, Reach,
  initial, later,
}
use shortener.Audit.Counts.{
  count, waiting, all_tasks, count-append, count-middle, waiting-middle, any,
}
use shortener.Audit.Delivery.{Reach-Balanced, Reach-Staffed, Staffed, init_audit-IsFresh}

-- how many steps are left for the tasks that there are: to be sent, to be taken, to be done
abbrev pub load : Audit → ℕ
load s = 3 * waiting any s.senders + 2 * count any s.task_ch + count any s.busy

-- That many steps of work, one after another.
pub data Works : ℕ → Audit → Audit → Type 0 where
  rest : {s : Audit} → Works 0 s s
  next : {n : ℕ} {s s' s'' : Audit} → Work s s' → Works n s' s'' → Works (suc n) s s''

Work-load : {s s' : Audit} → Work s s' → load s' < load s
Work-load (send {s} before t ts behind e live room) = omega (
  arith,
  ap (waiting any) e,
  waiting-middle any before (t ∷ ts) behind,
  waiting-middle any before ts behind,
  count-append any s.task_ch (t ∷ []),
)
Work-load (hand_over {s} before t ts behind k e live bare ready) = omega (
  arith,
  ap (waiting any) e,
  waiting-middle any before (t ∷ ts) behind,
  waiting-middle any before ts behind,
)
Work-load (receive {s} t ts k e ready) = omega (arith, ap (count any) e)
Work-load (finish {s} before t behind panicked e) =
    omega (arith, ap (count any) e, count-middle any before t behind)

Works-load : {n : ℕ} {s s' : Audit} → Works n s s' → n + load s' ≤ load s
Works-load rest = omega arith
Works-load (next w ws) = omega (arith, Work-load w, Works-load ws)

Works-Reach : {n : ℕ} {s s' : Audit} → Reach s → Works n s s' → Reach s'
Works-Reach r rest = r
Works-Reach r (next w ws) = Works-Reach (later r (work w)) ws

pub Work-closed : {s s' : Audit} → Work s s' → s'.closed ≡ s.closed
Work-closed (send before t ts behind e live room) = refl
Work-closed (hand_over before t ts behind k e live bare ready) = refl
Work-closed (receive t ts k e ready) = refl
Work-closed (finish before t behind panicked e) = refl

Works-closed : {n : ℕ} {s s' : Audit} → Works n s s' → s'.closed ≡ s.closed
Works-closed rest = refl
Works-closed (next w ws) = Works-closed ws ∙ Work-closed w

pub Work-lost : {s s' : Audit} → Work s s' → s'.lost ≡ s.lost
Work-lost (send before t ts behind e live room) = refl
Work-lost (hand_over before t ts behind k e live bare ready) = refl
Work-lost (receive t ts k e ready) = refl
Work-lost (finish before t behind panicked e) = refl

-- Either no sender has a task left, or one has.
next_task :
    (senders : List (List Task))
    → (waiting any senders ≡ 0)
      ⊎ ((before : List (List Task)) × (t : Task) × (ts : List Task) × (behind : List (List Task))
          × (senders ≡ before ++ (t ∷ ts) ∷ behind))
next_task [] = inl refl
next_task ((t ∷ ts) ∷ senders) = inr ([], t, ts, senders, refl)
next_task ([] ∷ senders) = elim (next_task senders) [
  | inl all_sent ↦ inl (omega arith)
  | inr (before, t, ts, behind, e) ↦
      inr ([] ∷ before, t, ts, behind, ap (λ (l : List (List Task)). [] ∷ l) e)
]

pub cases : {A : Type 0} (xs : List A) → (xs ≡ []) ⊎ ((x : A) × (rest : List A) × (xs ≡ x ∷ rest))
cases [] = inl refl
cases (x ∷ xs) = inr (x, xs, refl)

pub idle-cases : (n : ℕ) → (n ≡ 0) ⊎ ((k : ℕ) × (n ≡ suc k))
idle-cases zero = inl refl
idle-cases (suc k) = inr (k, refl)

-- While the channel is open there is work to do, or nothing left to do.
Work-or-load :
    (s : Audit) → Staffed s → s.closed ≡ false → (load s ≡ 0) ⊎ ((s' : Audit) × Work s s')
Work-or-load s (sum, ended, fits) live = elim (cases s.busy) [
  | inr (t, ts, e) ↦ inr (_, finish [] t ts false e)
  | inl no_busy ↦ elim (idle-cases s.idle) [
    | inl no_idle ↦ absurd (ground (arith, ended))
    | inr (k, ready) ↦ elim (cases s.task_ch) [
      | inr (t, ts, e) ↦ inr (_, receive t ts k e ready)
      | inl bare ↦ elim (next_task s.senders) [
        | inl all_sent ↦ inl (omega (arith, ap (count any) no_busy, ap (count any) bare))
        | inr (before, t, ts, behind, e) ↦ inr (_, hand_over before t ts behind k e live bare ready)
      ]
    ]
  ]
]

count-le : (p : Task → Bool) (ts : List Task) → count p ts ≤ count any ts
count-le p [] = omega arith
count-le p (t ∷ ts) = ground (arith, count-le p ts)

waiting-le :
    (p : Task → Bool) (senders : List (List Task)) → waiting p senders ≤ waiting any senders
waiting-le p [] = omega arith
waiting-le p (ts ∷ senders) = omega (arith, count-le p ts, waiting-le p senders)

-- As long as the channel is open no request panics.
pub Reach-lost : {s : Audit} → Reach s → s.closed ≡ false → s.lost ≡ []
Reach-lost (initial failure file url n h) live =
    let (m, os, e) = init_audit-IsFresh failure file url n _ h in ap (λ (s : Audit). s.lost) e
Reach-lost (later r (work w)) live = Work-lost w ∙ Reach-lost r (sym (Work-closed w) ∙ live)
Reach-lost (later r (call event)) live = Reach-lost r live
Reach-lost (later r (close was)) live = absurd (ground arith)
Reach-lost (later r (send_closed before t ts behind e closed)) live = absurd (ground arith)
Reach-lost (later r (exit k closed bare ready)) live = Reach-lost r live

-- Everything that was asked for has been done, once.
abbrev pub Delivered : Audit → Type 0
Delivered s = (p : Task → Bool) → count p s.done ≡ count p (all_tasks s.observers s.events)

Delivered-load : {s : Audit} → Reach s → s.closed ≡ false → load s ≡ 0 → Delivered s
Delivered-load {s} r live empty = λ p. omega (
  arith,
  Reach-Balanced r p,
  ap (count p) (Reach-lost r live),
  waiting-le p s.senders,
  count-le p s.task_ch,
  count-le p s.busy,
)

pub drain :
    (n : ℕ) (s : Audit)
    → Reach s
    → s.closed ≡ false
    → load s ≤ n
    → (m : ℕ) × (s' : Audit) × Works m s s' × (load s' ≡ 0)
drain zero s r live h = (0, s, rest, omega arith)
drain (suc n) s r live h = elim (Work-or-load s (Reach-Staffed r) live) [
  | inl finished ↦ (0, s, rest, finished)
  | inr (s', w) ↦
      let (m, s'', ws, e) =
        drain n s' (later r (work w)) (Work-closed w ∙ live) (omega (arith, Work-load w)) in
      (suc m, s'', next w ws, e)
]

pub notify_all-Delivered :
    (s : Audit) (m : ℕ) (s' : Audit)
    → Reach s
    → s.closed ≡ false
    → Works m s s'
    → (m ≤ load s) × (m' : ℕ) × (s'' : Audit) × Works m' s' s'' × Delivered s''
notify_all-Delivered s m s' r live ws =
    let r' = Works-Reach r ws in
    let live' = Works-closed ws ∙ live in
    let (m', s'', more, e) = drain (load s') s' r' live' (omega arith) in
    (
      omega (arith, Works-load ws),
      m',
      s'',
      more,
      Delivered-load (Works-Reach r' more) (Works-closed more ∙ live') e,
    )
