-- ===== src/Main/Returning.antt =====
-- Once main is past its select it can return, without cutting a wait.
use shortener.Base.{ℕ, ◌≤◌, true, false, ◌≡◌, ◌≢◌, refl, ap, ◌∙◌, arith}
use shortener.Config.{Floats}
use shortener.Audit.{Audit}
use shortener.Audit.Draining.{load, Works, drain}
use shortener.Audit.Stopping.{stop-Drains}
use shortener.Main.{Outside}
use shortener.Main.Process.{
  Transport, http_request, grpc_call, Phase, Process, alive, Sent, Control, control, Reach,
}
use shortener.Main.Invariant.{is_closing}
use shortener.Main.Invariant.Reached.{Reach-Inv}
use shortener.Main.Steps.{
  Steps, here, next, join, Steps-Reach, http_all_end, grpc_all_end, deletions_all_end,
  audit_goes_on, audit_ends, Works-lost, Ending-lost, Sent-idle,
}

-- There are steps after which main has returned, has cut no further wait and has lost no further
-- task.
abbrev pub CanReturn : ℕ → Process → Type 0
CanReturn m p =
    (q : Process) × Steps m p q
    × (q.phase ≡ Phase.returned)
    × (q.http_cut ≡ p.http_cut)
    × (q.background_cut ≡ p.background_cut)
    × (q.grpc_cut ≡ p.grpc_cut)
    × (q.auditor.lost ≡ p.auditor.lost)

module _ (f : Floats) {D F Ip : Type 0} (o : Outside f.Float D F Ip) (m : ℕ) where
  pub from_audit_stopping :
      (p : Process) → Reach f o m p → p.phase ≡ Phase.audit_stopping → CanReturn m p
  from_audit_stopping p r at =
      let i = Reach-Inv f o m r in
      let (a, ending, (out, bare, no_busy, delivered)) =
        stop-Drains p.auditor i.audit_reached (i.closes ∙ ap is_closing at) in
      let live = ap alive at in
      (
        record p { auditor = a; phase = Phase.returned },
        join (audit_ends p live ending) (next (control (Control.main_returns at out)) here),
        refl,
        refl,
        refl,
        refl,
        Ending-lost ending,
      )

  from_leaving : (p : Process) → Reach f o m p → p.phase ≡ Phase.leaving → CanReturn m p
  from_leaving p r at =
      let step = control (Control.audit_closes at) in
      let (q, steps, over, h, b, g, lost) = from_audit_stopping _ (Reach.later r step) refl in
      (q, next step steps, over, h, b, g, lost)

  -- The senders and workers of the audit, while main waits, until no request is in NotifyAll.
  pub all_sent :
      (p : Process)
      → Reach f o m p
      → alive p.phase ≡ true
      → is_closing p.phase ≡ false
      → (n : ℕ) × (a : Audit) × Works n p.auditor a × ((k : Transport) → Sent k p.owners a.senders)
  all_sent p r live open_still =
      let i = Reach-Inv f o m r in
      let (n, a, ws, idle) =
        drain (load p.auditor) p.auditor i.audit_reached (i.closes ∙ open_still) (omega arith) in
      let i' = Reach-Inv f o m (Steps-Reach (audit_goes_on p live ws) r) in
      (n, a, ws, λ k. Sent-idle k p.owners a.senders i'.aligned (omega arith))

  from_grpc_stopping : (p : Process) → Reach f o m p → p.phase ≡ Phase.grpc_stopping → CanReturn m p
  from_grpc_stopping p r at =
      let live = ap alive at in
      let ended = grpc_all_end p.grpc p live refl in
      let (n, a, ws, sent) = all_sent _ (Steps-Reach ended r) live (ap is_closing at) in
      let there = join ended (
        join (audit_goes_on (record p { grpc = 0 }) live ws)
          (next (control (Control.grpc_stopped at refl (sent grpc_call))) here)) in
      let (q, steps, over, h, b, g, lost) = from_leaving _ (Steps-Reach there r) refl in
      (q, join there steps, over, h, b, g, lost ∙ Works-lost ws)

  module _ (some_workers : 1 ≤ m) where
    from_background_waiting :
        (p : Process) → Reach f o m p → p.phase ≡ Phase.background_waiting → CanReturn m p
    from_background_waiting p r at =
        let ended = deletions_all_end p.background p some_workers (ap alive at) refl in
        let there = join ended (next (control (Control.background_done at refl)) here) in
        let (q, steps, over, h, b, g, lost) = from_grpc_stopping _ (Steps-Reach there r) refl in
        (q, join there steps, over, h, b, g, lost)

    from_http_stopping :
        (p : Process) → Reach f o m p → p.phase ≡ Phase.http_stopping → CanReturn m p
    from_http_stopping p r at =
        let live = ap alive at in
        let ended = http_all_end p.http p live refl in
        let (n, a, ws, sent) = all_sent _ (Steps-Reach ended r) live (ap is_closing at) in
        let there = join ended (
          join (audit_goes_on (record p { http = 0 }) live ws)
            (next (control (Control.http_stopped at refl (sent http_request))) here)) in
        let (q, steps, over, h, b, g, lost) =
          from_background_waiting _ (Steps-Reach there r) refl in
        (q, join there steps, over, h, b, g, lost ∙ Works-lost ws)

    -- With at least one parallel worker, in every reachable state in which main is past its select
    -- and the process has not ended, requests, deletions, workers and main can go on until main
    -- returns, main cuts none of the waits that are still to come, and no further task is lost.
    pub main-CanReturn :
        (p : Process)
        → Reach f o m p
        → p.phase ≢ Phase.selecting
        → alive p.phase ≡ true
        → CanReturn m p
    main-CanReturn p r past live = by_phase p.phase refl
      where
        by_phase : (phase : Phase) → p.phase ≡ phase → CanReturn m p
        by_phase Phase.selecting at = absurd (past at)
        by_phase Phase.http_stopping at = from_http_stopping p r at
        by_phase Phase.background_waiting at = from_background_waiting p r at
        by_phase Phase.grpc_stopping at = from_grpc_stopping p r at
        by_phase Phase.leaving at = from_leaving p r at
        by_phase Phase.audit_stopping at = from_audit_stopping p r at
        by_phase Phase.returned at = absurd (ground arith)
        by_phase Phase.killed at = absurd (ground arith)
        by_phase Phase.crashed at = absurd (ground arith)
