-- ===== src/Main/Losing.antt =====
-- What a request can lose that outlasts main's wait.
use shortener.Base.{ℕ, suc, true, false, ◌≡◌, refl, sym, ap, ◌∙◌, List, [], ◌∷◌, ◌++◌}
use mathlib.Core.List.{append-nil}
use shortener.Base.Lists.{length}
use shortener.Config.{Floats}
use shortener.Models.{AuditEvent}
use shortener.Audit.{Task, Observer, notify_all}
use shortener.Audit.Draining.{Reach-lost}
use shortener.Audit.Observers.{Works-same}
use shortener.Main.{Outside}
use shortener.Main.Process.{grpc_call, Phase, Process, Activity, Control, work, control, Reach}
use shortener.Main.Invariant.{is_closing}
use shortener.Main.Invariant.Reached.{Reach-Inv}
use shortener.Main.Steps.{
  Steps, here, next, join, Steps-Reach, grpc_all_end, audit_goes_on, Works-lost,
}
use shortener.Main.Returning.{from_audit_stopping, all_sent}

module _ (f : Floats) {D F Ip : Type 0} (o : Outside f.Float D F Ip) (m : ℕ) where
  -- In every reachable state in which main waits for the HTTP requests, one of them is in its handler
  -- and the audit has an observer, the request can outlast the wait: whatever event it then gives to
  -- the audit, there are steps after which main has returned and that event's tasks are lost.
  pub main-CanLose :
      (p : Process) (k : ℕ) (event : AuditEvent) (observer : Observer) (observers : List Observer)
      → Reach f o m p
      → p.phase ≡ Phase.http_stopping
      → p.http ≡ suc k
      → p.auditor.observers ≡ observer ∷ observers
      → (q : Process) × Steps m p q
        × (q.phase ≡ Phase.returned)
        × (q.auditor.lost ≡ notify_all p.auditor.observers event (length p.auditor.events))
  unfolding notify_all
  main-CanLose p k event observer observers r at busy watched =
      let cut =
        next (control (Control.http_deadline at))
          (next (control (Control.background_late refl)) here) in
      let p1 = record p {
        phase = Phase.grpc_stopping;
        http_cut = true;
        background_cut = true;
        grpc_listening = false;
      } in
      let ended = grpc_all_end p.grpc p1 refl refl in
      let (n, a, ws, sent) = all_sent f o m _ (Steps-Reach (join cut ended) r) refl refl in
      let there = join cut (
        join ended (
          join (audit_goes_on (record p1 { grpc = 0 }) refl ws) (
            next (control (Control.grpc_stopped refl refl (sent grpc_call))) (
              next (control (Control.audit_closes refl))
                (next (work refl (Activity.http_notifies k event busy)) here))))) in
      let (watching, same_events) = Works-same ws in
      let group = length a.events in
      let t : Task = record { observer = observer; event = event; group = group } in
      let told : notify_all a.observers event group ≡ t ∷ notify_all observers event group =
        ap (λ os. notify_all os event group) (watching ∙ watched) in
      let panics =
        next
          (work refl (
            Activity.send_panics [] t (notify_all observers event group) a.senders [] p.owners
              (ap (λ ts. ts ∷ a.senders) told) refl refl refl))
          here in
      let path = join there panics in
      let (q, steps, over, h, b, g, lost) = from_audit_stopping f o m _ (Steps-Reach path r) refl in
      let none_before =
        Works-lost ws
        ∙ Reach-lost (Reach-Inv f o m r).audit_reached
            ((Reach-Inv f o m r).closes ∙ ap is_closing at) in
      (
        q,
        join path steps,
        over,
        lost
            ∙ ap (λ ts. (t ∷ notify_all observers event group) ++ ts) none_before
            ∙ append-nil (t ∷ notify_all observers event group)
            ∙ sym told
            ∙ λ i. notify_all (watching i) event (length (same_events i)),
      )
