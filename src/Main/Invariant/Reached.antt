-- ===== src/Main/Invariant/Reached.antt =====
-- The invariant holds from the start on.
use shortener.Base.{ℕ, false, ◌≡◌, refl, sym, ap, Option}
use shortener.Base.{String}
use shortener.Base.Lists.{length}
use shortener.Errors.{Error, ok}
use shortener.Config.{Floats}
use shortener.Audit.{Audit, init_audit, initial}
use shortener.Audit.Delivery.{init_audit-IsFresh}
use shortener.Audit.Draining.{Reach-lost}
use shortener.Main.{Outside}
use shortener.Main.Starting.{start-Made}
use shortener.Main.Process.{Process, Step, Reach, launched}
use shortener.Main.Invariant.{Inv}
use shortener.Main.Invariant.Activities.{Activity-Inv}
use shortener.Main.Invariant.Controls.{Control-Inv}

Step-Inv : {m : ℕ} {p q : Process} → Step m p q → Inv p → Inv q
Step-Inv (Step.work live w) i = Activity-Inv live w i
Step-Inv (Step.control c) i = Control-Inv c i

init_audit-live :
    (failure : Option Error) (file url : String) (n : ℕ) {a : Audit}
    → init_audit failure file url n ≡ ok a
    → (a.closed ≡ false) × (length a.senders ≡ 0)
init_audit-live failure file url n h =
    let (k, os, e) = init_audit-IsFresh failure file url n _ h in
    (ap (λ (a : Audit). a.closed) e, ap (λ (a : Audit). length a.senders) e)

module _ (f : Floats) {D F Ip : Type 0} (o : Outside f.Float D F Ip) (m : ℕ) where
  pub Reach-Inv : {p : Process} → Reach f o m p → Inv p
  Reach-Inv (launched s started same) =
      let made = (start-Made f o s).0 started in
      let reached = initial _ _ _ _ made.audited in
      let (live, none_there) = init_audit-live _ _ _ _ made.audited in
      record {
        audit_reached = reached;
        closes = live;
        all_back = λ e. absurd (cc);
        http_shut = λ e. absurd (cc);
        grpc_shut = λ e. absurd (cc);
        aligned = sym none_there;
        uncut = λ before. (refl, refl, refl);
        http_quiet = λ past cut. absurd (cc);
        grpc_quiet = λ past cut. absurd (cc);
        background_over = λ past cut cut'. absurd (cc);
        none_lost = λ cut cut'. Reach-lost reached live;
      }
  Reach-Inv (Reach.later r step) = Step-Inv step (Reach-Inv r)
