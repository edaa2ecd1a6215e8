-- ===== src/Main/Steps.antt =====
-- Steps of the process, one after another: how what it waits for comes to an end.
use shortener.Base.{ℕ, zero, suc, ◌≤◌, true, ◌≡◌, refl, ◌∙◌, List, [], ◌∷◌, arith}
use mathlib.Core.Path.{subst}
use shortener.Base.Lists.{length}
use shortener.Config.{Floats}
use shortener.Audit.{Task, Audit}
use shortener.Audit.Counts.{waiting, any}
use shortener.Audit.Draining.{load, Works, rest, drain, Work-lost}
use shortener.Audit.Draining as Draining
use shortener.Audit.Stopping.{Ending, all_back, worked, back}
use shortener.Main.{Outside}
use shortener.Main.Process.{Transport, Process, alive, Sent, Activity, Step, work, Reach}

-- Steps one after another.
pub data Steps (max_parallel_workers : ℕ) : Process → Process → Type 0 where
  here : {p : Process} → Steps max_parallel_workers p p
  next :
      {p q r : Process}
      → Step max_parallel_workers p q
      → Steps max_parallel_workers q r
      → Steps max_parallel_workers p r

pub join : {m : ℕ} {p q r : Process} → Steps m p q → Steps m q r → Steps m p r
join here more = more
join (next s steps) more = next s (join steps more)

pub Steps-Reach :
    {f : Floats} {D F Ip : Type 0} {o : Outside f.Float D F Ip} {m : ℕ} {p q : Process}
    → Steps m p q
    → Reach f o m p
    → Reach f o m q
Steps-Reach here r = r
Steps-Reach (next s steps) r = Steps-Reach steps (Reach.later r s)

module _ {m : ℕ} where
  pub http_all_end :
      (n : ℕ) (p : Process) → alive p.phase ≡ true → p.http ≡ n → Steps m p (record p { http = 0 })
  http_all_end zero p live e = subst (Steps m p) (λ i. record p { http = e i }) here
  http_all_end (suc n) p live e =
      next (work live (Activity.http_ends n e)) (http_all_end n (record p { http = n }) live refl)

  pub grpc_all_end :
      (n : ℕ) (p : Process) → alive p.phase ≡ true → p.grpc ≡ n → Steps m p (record p { grpc = 0 })
  grpc_all_end zero p live e = subst (Steps m p) (λ i. record p { grpc = e i }) here
  grpc_all_end (suc n) p live e =
      next (work live (Activity.grpc_ends n e)) (grpc_all_end n (record p { grpc = n }) live refl)

  pub deletions_all_end :
      (n : ℕ) (p : Process)
      → 1 ≤ m
      → alive p.phase ≡ true
      → p.background ≡ n
      → Steps m p (record p { background = 0 })
  deletions_all_end zero p some_workers live e =
      subst (Steps m p) (λ i. record p { background = e i }) here
  deletions_all_end (suc n) p some_workers live e =
      next (work live (Activity.deletion_ends n e some_workers))
        (deletions_all_end n (record p { background = n }) some_workers live refl)

  pub audit_goes_on :
      {n : ℕ} {a b : Audit} (p : Process)
      → alive p.phase ≡ true
      → Works n a b
      → Steps m (record p { auditor = a }) (record p { auditor = b })
  audit_goes_on p live rest = here
  audit_goes_on p live (Draining.next w ws) =
      next (work live (Activity.audit_works w)) (audit_goes_on p live ws)

  pub audit_ends :
      {a b : Audit} (p : Process)
      → alive p.phase ≡ true
      → Ending a b
      → Steps m (record p { auditor = a }) (record p { auditor = b })
  audit_ends p live all_back = here
  audit_ends p live (worked w more) =
      next (work live (Activity.audit_works w)) (audit_ends p live more)
  audit_ends p live (back k closed bare ready more) =
      next (work live (Activity.worker_exits k closed bare ready)) (audit_ends p live more)

pub Works-lost : {n : ℕ} {a b : Audit} → Works n a b → b.lost ≡ a.lost
Works-lost rest = refl
Works-lost (Draining.next w ws) = Works-lost ws ∙ Work-lost w

pub Ending-lost : {a b : Audit} → Ending a b → b.lost ≡ a.lost
Ending-lost all_back = refl
Ending-lost (worked w more) = Ending-lost more ∙ Work-lost w
Ending-lost (back k closed bare ready more) = Ending-lost more

-- Where no task waits to be sent, every request has left NotifyAll.
pub Sent-idle :
    (k : Transport) (os : List Transport) (senders : List (List Task))
    → length os ≡ length senders
    → waiting any senders ≡ 0
    → Sent k os senders
Sent-idle k [] [] e h = tt
Sent-idle k [] (ts ∷ senders) e h = absurd (omega arith)
Sent-idle k (o ∷ os) [] e h = absurd (omega arith)
Sent-idle k (o ∷ os) ([] ∷ senders) e h =
    ((λ same. refl), Sent-idle k os senders (omega arith) (omega arith))
Sent-idle k (o ∷ os) ((t ∷ ts) ∷ senders) e h = absurd (omega arith)
