-- ===== src/Main/Quiet.antt =====
-- What main's waits give: once it has waited for the requests of a server, none of them runs, in its
-- handler or in NotifyAll.
use shortener.Base.{ℕ, false, ◌≡◌, ◌≢◌, refl, List, [], ◌∷◌, ◌++◌, arith}
use mathlib.Core.Path.{subst}
use shortener.Base.Lists.{length}
use shortener.Audit.{Task, Audit, Work, send, hand_over, receive, finish}
use shortener.Main.Process.{Transport, http_request, grpc_call, Process, Activity, Sent}

module _ (k : Transport) where
  Sent-middle :
      (os : List Transport) (before : List (List Task)) (t : Task) (ts : List Task)
      (after : List (List Task))
      → Sent k os (before ++ (t ∷ ts) ∷ after)
      → Sent k os (before ++ ts ∷ after)
  Sent-middle [] [] t ts after h = h
  Sent-middle [] (x ∷ before) t ts after h = h
  Sent-middle (o ∷ os) [] t ts after (own, others) = ((λ e. let bad = own e in cc), others)
  Sent-middle (o ∷ os) (x ∷ before) t ts after (own, others) =
      (own, Sent-middle os before t ts after others)

  Sent-remove :
      (os : List Transport) (o : Transport) (os' : List Transport) (before : List (List Task))
      (ts : List Task) (after : List (List Task))
      → length os ≡ length before
      → Sent k (os ++ o ∷ os') (before ++ ts ∷ after)
      → Sent k (os ++ os') (before ++ after)
  Sent-remove [] o os' [] ts after e h = h.1
  Sent-remove [] o os' (x ∷ before) ts after e h = absurd (omega arith)
  Sent-remove (o' ∷ os) o os' [] ts after e h = absurd (omega arith)
  Sent-remove (o' ∷ os) o os' (x ∷ before) ts after e (own, others) =
      (own, Sent-remove os o os' before ts after (omega arith) others)

  -- A panic takes its own request away.
  pub panics-Sent :
      (os : List Transport) (o : Transport) (os' : List Transport) (before : List (List Task))
      (ts : List Task) (after : List (List Task)) {owners : List Transport}
      {senders : List (List Task)}
      → length os ≡ length before
      → owners ≡ os ++ o ∷ os'
      → senders ≡ before ++ ts ∷ after
      → Sent k owners senders
      → Sent k (os ++ os') (before ++ after)
  panics-Sent os o os' before ts after e eo es h = Sent-remove os o os' before ts after e (
      subst (λ (pair : List Transport × List (List Task)). Sent k pair.0 pair.1) (λ i. (eo i, es i))
        h)

  -- What the audit's goroutines do adds nothing to be sent.
  pub Work-Sent :
      (os : List Transport) {a b : Audit} → Work a b → Sent k os a.senders → Sent k os b.senders
  Work-Sent os (send before t ts after e live room) h =
      Sent-middle os before t ts after (subst (Sent k os) e h)
  Work-Sent os (hand_over before t ts after n e live bare ready) h =
      Sent-middle os before t ts after (subst (Sent k os) e h)
  Work-Sent os (receive t ts n e ready) h = h
  Work-Sent os (finish before t after panicked e) h = h

-- Nothing of either server is left to be sent, so no sender has a task.
pub Sent-middle_absurd :
    (os : List Transport) (before : List (List Task)) (t : Task) (ts : List Task)
    (after : List (List Task)) {senders : List (List Task)}
    → Sent http_request os senders
    → Sent grpc_call os senders
    → senders ≢ before ++ (t ∷ ts) ∷ after
Sent-middle_absurd os before t ts after h g e =
    none_left os before t ts after (subst (Sent http_request os) e h)
      (subst (Sent grpc_call os) e g)
  where
    own :
        (o : Transport) (t : Task) (ts : List Task)
        → (o ≡ http_request → t ∷ ts ≡ [])
        → (o ≡ grpc_call → t ∷ ts ≡ [])
        → ⊥
    own http_request t ts h g = let e = h refl in cc
    own grpc_call t ts h g = let e = g refl in cc

    none_left :
        (os : List Transport) (before : List (List Task)) (t : Task) (ts : List Task)
        (after : List (List Task))
        → Sent http_request os (before ++ (t ∷ ts) ∷ after)
        → Sent grpc_call os (before ++ (t ∷ ts) ∷ after)
        → ⊥
    none_left [] [] t ts after h g = h
    none_left [] (x ∷ before) t ts after h g = h
    none_left (o ∷ os) [] t ts after h g = own o t ts h.0 g.0
    none_left (o ∷ os) (x ∷ before) t ts after h g = none_left os before t ts after h.1 g.1

-- The server takes no requests and has none in a handler or in NotifyAll.
abbrev pub HttpQuiet : Process → Type 0
HttpQuiet p =
    (p.http_listening ≡ false) × (p.http ≡ 0) × Sent http_request p.owners p.auditor.senders

abbrev pub GrpcQuiet : Process → Type 0
GrpcQuiet p = (p.grpc_listening ≡ false) × (p.grpc ≡ 0) × Sent grpc_call p.owners p.auditor.senders

pub Activity-HttpQuiet : {m : ℕ} {p q : Process} → Activity m p q → HttpQuiet p → HttpQuiet q
Activity-HttpQuiet (Activity.http_arrives listening) (shut, empty, sent) = absurd (ground arith)
Activity-HttpQuiet (Activity.grpc_arrives listening) h = h
Activity-HttpQuiet (Activity.deletion_starts n e) h = h
Activity-HttpQuiet (Activity.deletion_ends n e some_workers) h = h
Activity-HttpQuiet (Activity.http_ends n e) (shut, empty, sent) = absurd (omega arith)
Activity-HttpQuiet (Activity.grpc_ends n e) h = h
Activity-HttpQuiet (Activity.http_notifies n event e) (shut, empty, sent) = absurd (omega arith)
Activity-HttpQuiet (Activity.grpc_notifies n event e) (shut, empty, sent) =
    (shut, empty, ((λ e. cc), sent))
Activity-HttpQuiet (Activity.audit_works {p} w) (shut, empty, sent) =
    (shut, empty, Work-Sent http_request p.owners w sent)
Activity-HttpQuiet (Activity.send_panics before t ts after os os' e eo same closed)
      (shut, empty, sent) =
    (shut, empty, panics-Sent http_request os http_request os' before (t ∷ ts) after same eo e sent)
Activity-HttpQuiet (Activity.worker_exits k closed bare ready) h = h

pub Activity-GrpcQuiet : {m : ℕ} {p q : Process} → Activity m p q → GrpcQuiet p → GrpcQuiet q
Activity-GrpcQuiet (Activity.http_arrives listening) h = h
Activity-GrpcQuiet (Activity.grpc_arrives listening) (shut, empty, sent) = absurd (ground arith)
Activity-GrpcQuiet (Activity.deletion_starts n e) h = h
Activity-GrpcQuiet (Activity.deletion_ends n e some_workers) h = h
Activity-GrpcQuiet (Activity.http_ends n e) h = h
Activity-GrpcQuiet (Activity.grpc_ends n e) (shut, empty, sent) = absurd (omega arith)
Activity-GrpcQuiet (Activity.http_notifies n event e) (shut, empty, sent) =
    (shut, empty, ((λ e. cc), sent))
Activity-GrpcQuiet (Activity.grpc_notifies n event e) (shut, empty, sent) = absurd (omega arith)
Activity-GrpcQuiet (Activity.audit_works {p} w) (shut, empty, sent) =
    (shut, empty, Work-Sent grpc_call p.owners w sent)
Activity-GrpcQuiet (Activity.send_panics before t ts after os os' e eo same closed)
      (shut, empty, sent) =
    (shut, empty, panics-Sent grpc_call os http_request os' before (t ∷ ts) after same eo e sent)
Activity-GrpcQuiet (Activity.worker_exits k closed bare ready) h = h

-- No activity moves main or cuts a wait.
pub Activity-same :
    {m : ℕ} {p q : Process}
    → Activity m p q
    → (q.phase ≡ p.phase)
      × (q.http_cut ≡ p.http_cut)
      × (q.background_cut ≡ p.background_cut)
      × (q.grpc_cut ≡ p.grpc_cut)
      × (q.http_listening ≡ p.http_listening)
      × (q.grpc_listening ≡ p.grpc_listening)
Activity-same (Activity.http_arrives listening) = (refl, refl, refl, refl, refl, refl)
Activity-same (Activity.grpc_arrives listening) = (refl, refl, refl, refl, refl, refl)
Activity-same (Activity.deletion_starts n e) = (refl, refl, refl, refl, refl, refl)
Activity-same (Activity.deletion_ends n e some_workers) = (refl, refl, refl, refl, refl, refl)
Activity-same (Activity.http_ends n e) = (refl, refl, refl, refl, refl, refl)
Activity-same (Activity.grpc_ends n e) = (refl, refl, refl, refl, refl, refl)
Activity-same (Activity.http_notifies n event e) = (refl, refl, refl, refl, refl, refl)
Activity-same (Activity.grpc_notifies n event e) = (refl, refl, refl, refl, refl, refl)
Activity-same (Activity.audit_works w) = (refl, refl, refl, refl, refl, refl)
Activity-same (Activity.send_panics before t ts after os os' e eo same closed) =
    (refl, refl, refl, refl, refl, refl)
Activity-same (Activity.worker_exits k closed bare ready) = (refl, refl, refl, refl, refl, refl)
