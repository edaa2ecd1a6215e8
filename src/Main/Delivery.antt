-- ===== src/Main/Delivery.antt =====
-- What main has seen to by the time it returns.
use shortener.Base.{ℕ, Bool, false, ◌≡◌, refl, ap, List, [], ◌∷◌, arith}
use shortener.Config.{Floats}
use shortener.Audit.{Task}
use shortener.Audit.Counts.{count, waiting}
use shortener.Audit.Draining.{Delivered}
use shortener.Audit.Stopping.{exited-IsStopped}
use shortener.Main.{Outside}
use shortener.Main.Process.{Transport, http_request, grpc_call, Phase, Process, Sent, Reach}
use shortener.Main.Invariant.{past_http, past_background, past_grpc}
use shortener.Main.Invariant.Reached.{Reach-Inv}

own_sent :
    (o : Transport) (ts : List Task)
    → (o ≡ http_request → ts ≡ [])
    → (o ≡ grpc_call → ts ≡ [])
    → ts ≡ []
own_sent http_request ts h g = h refl
own_sent grpc_call ts h g = g refl

-- Where no request of either server has anything to send, nothing waits to be sent.
waiting-Sent :
    (q : Task → Bool) (os : List Transport) (senders : List (List Task))
    → Sent http_request os senders
    → Sent grpc_call os senders
    → waiting q senders ≡ 0
waiting-Sent q [] [] h g = refl
waiting-Sent q [] (ts ∷ senders) h g = absurd h
waiting-Sent q (o ∷ os) [] h g = absurd h
waiting-Sent q (o ∷ os) (ts ∷ senders) h g =
    omega (arith, ap (count q) (own_sent o ts h.0 g.0), waiting-Sent q os senders h.1 g.1)

module _ (f : Floats) {D F Ip : Type 0} (o : Outside f.Float D F Ip)
    (max_parallel_workers : ℕ) where
  -- Whenever main has returned and neither the wait for the HTTP requests nor the one for the gRPC
  -- calls was cut, under any interleaving before: no request is left running, every observer has been
  -- notified exactly once of every event that any request of either server gave to the audit, no
  -- event is lost, and, if the wait for the deletions was not cut either, none of them is left.
  pub main-Delivered :
      (p : Process)
      → Reach f o max_parallel_workers p
      → p.phase ≡ Phase.returned
      → p.http_cut ≡ false
      → p.grpc_cut ≡ false
      → (p.http ≡ 0)
        × (p.grpc ≡ 0)
        × Delivered p.auditor
        × (p.auditor.lost ≡ [])
        × (p.background_cut ≡ false → p.background ≡ 0)
  main-Delivered p r over http_whole grpc_whole =
      let i = Reach-Inv f o max_parallel_workers r in
      let (http_shut, no_http, http_sent) = i.http_quiet (ap past_http over) http_whole in
      let (grpc_shut, no_grpc, grpc_sent) = i.grpc_quiet (ap past_grpc over) grpc_whole in
      let (bare, no_busy, accounted) =
        exited-IsStopped p.auditor i.audit_reached (i.all_back over) in
      let lost = i.none_lost http_whole grpc_whole in
      (
        no_http,
        no_grpc,
        (λ q. omega (
          arith,
          accounted q,
          waiting-Sent q p.owners p.auditor.senders http_sent grpc_sent,
          ap (count q) lost,
        )),
        lost,
        i.background_over (ap past_background over) http_whole,
      )
