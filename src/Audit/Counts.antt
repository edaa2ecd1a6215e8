-- ===== src/Audit/Counts.antt =====
-- Counting tasks in the places where they can be.
use shortener.Base.{ℕ, suc, ◌+◌, Bool, true, ◌≡◌, List, [], ◌∷◌, ◌++◌, if◌then◌else◌, arith}
use shortener.Base.Lists.{length}
use shortener.Models.{AuditEvent}
use shortener.Audit.{Observer, Task, notify_all}

abbrev pub count : (Task → Bool) → List Task → ℕ
count p [] = 0
count p (t ∷ ts) = let rest = count p ts in if p t then suc rest else rest

-- the tasks that senders hold
abbrev pub waiting : (Task → Bool) → List (List Task) → ℕ
waiting p [] = 0
waiting p (ts ∷ senders) = count p ts + waiting p senders

-- One task for every observer and every call.
abbrev pub all_tasks : List Observer → List AuditEvent → List Task
all_tasks os [] = []
all_tasks os (event ∷ events) = notify_all os event (length events) ++ all_tasks os events

module _ (p : Task → Bool) where
  pub count-append : (xs ys : List Task) → count p (xs ++ ys) ≡ count p xs + count p ys
  count-append [] ys = omega arith
  count-append (x ∷ xs) ys = ground (arith, count-append xs ys)

  pub count-middle :
      (xs : List Task) (t : Task) (ys : List Task)
      → count p (xs ++ t ∷ ys) ≡ count p (t ∷ []) + count p (xs ++ ys)
  count-middle [] t ys = ground arith
  count-middle (x ∷ xs) t ys = ground (arith, count-middle xs t ys)

  pub waiting-middle :
      (before : List (List Task)) (ts : List Task) (after : List (List Task))
      → waiting p (before ++ ts ∷ after) ≡ count p ts + waiting p (before ++ after)
  waiting-middle [] ts after = omega arith
  waiting-middle (x ∷ before) ts after = omega (arith, waiting-middle before ts after)

  pub count-cons : (t : Task) (ts : List Task) → count p (t ∷ ts) ≡ count p (t ∷ []) + count p ts
  count-cons t ts = ground arith

-- every task
abbrev pub any : Task → Bool
any t = true

pub count-any : (ts : List Task) → count any ts ≡ length ts
count-any [] = omega arith
count-any (t ∷ ts) = omega (arith, count-any ts)
