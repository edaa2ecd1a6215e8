-- ===== src/Main/Invariant/Activities.antt =====
-- Requests, deletions and the audit's goroutines keep the invariant.
use shortener.Base.{ℕ, true, false, ◌≡◌, refl, sym, ap, ◌∙◌, [], ◌∷◌, arith}
use shortener.Base.Lists.{length, length-append}
use shortener.Audit.{
  Audit, init_audit, workers, Work, send, hand_over, receive, finish, work, call, close,
  send_closed, exit, initial, later,
}
use shortener.Audit as Audits
use shortener.Audit.Draining.{Work-closed, Work-lost}
use shortener.Main.Process.{Phase, http_request, Process, alive, Activity}
use shortener.Main.Quiet.{Activity-HttpQuiet, Activity-GrpcQuiet, Activity-same, Sent-middle_absurd}
use shortener.Main.Invariant.{Inv, past_http, past_background, past_grpc, is_closing}

Activity-audit :
    {m : ℕ} {p q : Process}
    → Activity m p q
    → Audits.Reach p.auditor
    → Audits.Reach q.auditor × (q.auditor.closed ≡ p.auditor.closed)
Activity-audit (Activity.http_arrives listens) r = (r, refl)
Activity-audit (Activity.grpc_arrives listens) r = (r, refl)
Activity-audit (Activity.deletion_starts n e) r = (r, refl)
Activity-audit (Activity.deletion_ends n e some_workers) r = (r, refl)
Activity-audit (Activity.http_ends n e) r = (r, refl)
Activity-audit (Activity.grpc_ends n e) r = (r, refl)
Activity-audit (Activity.http_notifies n event e) r = (later r (call event), refl)
Activity-audit (Activity.grpc_notifies n event e) r = (later r (call event), refl)
Activity-audit (Activity.audit_works w) r = (later r (work w), Work-closed w)
Activity-audit (Activity.send_panics before t ts after os os' e eo same closed) r =
    (later r (send_closed before t ts after e closed), refl)
Activity-audit (Activity.worker_exits k closed bare ready) r =
    (later r (exit k closed bare ready), refl)

-- With no request left of either server, no send can find the channel closed.
Activity-lost :
    {m : ℕ} {p q : Process}
    → Activity m p q
    → Inv p
    → p.http_cut ≡ false
    → p.grpc_cut ≡ false
    → q.auditor.lost ≡ []
Activity-lost (Activity.http_arrives listens) i h g = i.none_lost h g
Activity-lost (Activity.grpc_arrives listens) i h g = i.none_lost h g
Activity-lost (Activity.deletion_starts n e) i h g = i.none_lost h g
Activity-lost (Activity.deletion_ends n e some_workers) i h g = i.none_lost h g
Activity-lost (Activity.http_ends n e) i h g = i.none_lost h g
Activity-lost (Activity.grpc_ends n e) i h g = i.none_lost h g
Activity-lost (Activity.http_notifies n event e) i h g = i.none_lost h g
Activity-lost (Activity.grpc_notifies n event e) i h g = i.none_lost h g
Activity-lost (Activity.audit_works w) i h g = Work-lost w ∙ i.none_lost h g
Activity-lost (Activity.send_panics {p} before t ts after os os' e eo same closed) i h g =
    let (past_h, past_g) = past p.phase (sym i.closes ∙ closed) in
    absurd (
      Sent-middle_absurd p.owners before t ts after (i.http_quiet past_h h).2
        (i.grpc_quiet past_g g).2 e)
  where
    past :
        (phase : Phase)
        → is_closing phase ≡ true
        → (past_http phase ≡ true) × (past_grpc phase ≡ true)
    past Phase.selecting e = cc
    past Phase.http_stopping e = cc
    past Phase.background_waiting e = cc
    past Phase.grpc_stopping e = cc
    past Phase.leaving e = cc
    past Phase.audit_stopping e = (refl, refl)
    past Phase.returned e = (refl, refl)
    past Phase.killed e = cc
    past Phase.crashed e = (refl, refl)
Activity-lost (Activity.worker_exits k closed bare ready) i h g = i.none_lost h g

Work-length : {a b : Audit} → Work a b → length b.senders ≡ length a.senders
Work-length (send before t ts after e live room) = omega (
  arith,
  ap length e,
  length-append {0} before ((t ∷ ts) ∷ after),
  length-append {0} before (ts ∷ after),
)
Work-length (hand_over before t ts after k e live bare ready) = omega (
  arith,
  ap length e,
  length-append {0} before ((t ∷ ts) ∷ after),
  length-append {0} before (ts ∷ after),
)
Work-length (receive t ts k e ready) = refl
Work-length (finish before t after panicked e) = refl

abbrev Aligned : Process → Type 0
Aligned p = length p.owners ≡ length p.auditor.senders

Activity-Aligned : {m : ℕ} {p q : Process} → Activity m p q → Aligned p → Aligned q
Activity-Aligned (Activity.deletion_starts n e) h = h
Activity-Aligned (Activity.deletion_ends n e some_workers) h = h
Activity-Aligned (Activity.http_arrives listens) h = h
Activity-Aligned (Activity.grpc_arrives listens) h = h
Activity-Aligned (Activity.http_ends n e) h = h
Activity-Aligned (Activity.grpc_ends n e) h = h
Activity-Aligned (Activity.http_notifies n event e) h = omega arith
Activity-Aligned (Activity.grpc_notifies n event e) h = omega arith
Activity-Aligned (Activity.audit_works w) h = h ∙ sym (Work-length w)
Activity-Aligned (Activity.send_panics before t ts after os os' e eo same closed) h = omega (
  arith,
  ap length e,
  ap length eo,
  length-append {0} before ((t ∷ ts) ∷ after),
  length-append {0} before after,
  length-append {0} os (http_request ∷ os'),
  length-append {0} os os',
)
Activity-Aligned (Activity.worker_exits k closed bare ready) h = h

Activity-background :
    {m : ℕ} {p q : Process} → Activity m p q → p.http ≡ 0 → p.background ≡ 0 → q.background ≡ 0
Activity-background (Activity.deletion_starts n e) h b = absurd (omega arith)
Activity-background (Activity.deletion_ends n e some_workers) h b = absurd (omega arith)
Activity-background (Activity.http_arrives listens) h b = b
Activity-background (Activity.grpc_arrives listens) h b = b
Activity-background (Activity.http_ends n e) h b = b
Activity-background (Activity.grpc_ends n e) h b = b
Activity-background (Activity.http_notifies n event e) h b = b
Activity-background (Activity.grpc_notifies n event e) h b = b
Activity-background (Activity.audit_works w) h b = b
Activity-background (Activity.send_panics before t ts after os os' e eo same closed) h b = b
Activity-background (Activity.worker_exits k closed bare ready) h b = b

past_background-past_http : (phase : Phase) → past_background phase ≡ true → past_http phase ≡ true
past_background-past_http Phase.selecting h = cc
past_background-past_http Phase.http_stopping h = cc
past_background-past_http Phase.background_waiting h = refl
past_background-past_http Phase.grpc_stopping h = refl
past_background-past_http Phase.leaving h = refl
past_background-past_http Phase.audit_stopping h = refl
past_background-past_http Phase.returned h = refl
past_background-past_http Phase.killed h = refl
past_background-past_http Phase.crashed h = refl

pub Activity-Inv : {m : ℕ} {p q : Process} → alive p.phase ≡ true → Activity m p q → Inv p → Inv q
Activity-Inv {p = p} {q} live w i =
    let (phase, http_cut, background_cut, grpc_cut, http_listening, grpc_listening) =
      Activity-same w in
    let (reached, closed) = Activity-audit w i.audit_reached in
    record {
      audit_reached = reached;
      closes = closed ∙ i.closes ∙ ap is_closing (sym phase);
      all_back = λ e. absurd (ground arith);
      http_shut = λ e. http_listening ∙ i.http_shut (sym phase ∙ e);
      grpc_shut = λ e. grpc_listening ∙ i.grpc_shut (sym phase ∙ e);
      aligned = Activity-Aligned w i.aligned;
      uncut = λ before.
          let (h, b, g) = i.uncut (ap past_http (sym phase) ∙ before) in
          (http_cut ∙ h, background_cut ∙ b, grpc_cut ∙ g);
      http_quiet = λ past cut.
          Activity-HttpQuiet w
            (i.http_quiet (ap past_http (sym phase) ∙ past) (sym http_cut ∙ cut));
      grpc_quiet = λ past cut.
          Activity-GrpcQuiet w
            (i.grpc_quiet (ap past_grpc (sym phase) ∙ past) (sym grpc_cut ∙ cut));
      background_over = λ past cut cut'.
          let past' = ap past_background (sym phase) ∙ past in
          let uncut = sym http_cut ∙ cut in
          Activity-background w (i.http_quiet (past_background-past_http p.phase past') uncut).1
            (i.background_over past' uncut (sym background_cut ∙ cut'));
      none_lost = λ cut cut'. Activity-lost w i (sym http_cut ∙ cut) (sym grpc_cut ∙ cut');
    }
