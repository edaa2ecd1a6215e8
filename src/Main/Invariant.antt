-- ===== src/Main/Invariant.antt =====
-- What holds of the process in every state that it can reach.
pub mod Activities
pub mod Controls
pub mod Reached
use shortener.Base.{
  ℕ, Bool, true, false, ◌≡◌, refl, sym, ap, ◌∙◌, Option, none, some, [], ◌∷◌, arith,
}
use shortener.Base.{String}
use shortener.Base.Lists.{length, length-append}
use shortener.Errors.{Error, ok}
use shortener.Config.{Floats}
use shortener.Audit.{
  Audit, init_audit, workers, Work, send, hand_over, receive, finish, work, call, close,
  send_closed, exit, initial, later,
}
use shortener.Audit as Audits
use shortener.Audit.Delivery.{init_audit-IsFresh}
use shortener.Audit.Draining.{Work-closed, Work-lost, Reach-lost}
use shortener.Main.{Outside}
use shortener.Main.Starting.{start-Made}
use shortener.Main.Process.{
  Phase, Process, alive, Activity, Control, Step, Reach, launched, after_http_error,
  after_grpc_error,
}
use shortener.Main.Quiet.{
  HttpQuiet, GrpcQuiet, Activity-HttpQuiet, Activity-GrpcQuiet, Activity-same, Sent-middle_absurd,
}

abbrev pub past_http : Phase → Bool
past_http Phase.selecting = false
past_http Phase.http_stopping = false
past_http _ = true

abbrev pub past_background : Phase → Bool
past_background Phase.selecting = false
past_background Phase.http_stopping = false
past_background Phase.background_waiting = false
past_background _ = true

abbrev pub past_grpc : Phase → Bool
past_grpc Phase.selecting = false
past_grpc Phase.http_stopping = false
past_grpc Phase.background_waiting = false
past_grpc Phase.grpc_stopping = false
past_grpc _ = true

abbrev pub is_closing : Phase → Bool
is_closing Phase.audit_stopping = true
is_closing Phase.returned = true
is_closing Phase.crashed = true
is_closing _ = false

pub record Inv (p : Process) : Type 0 where
  pub audit_reached : Audits.Reach p.auditor
  pub closes : p.auditor.closed ≡ is_closing p.phase
  pub all_back : p.phase ≡ Phase.returned → p.auditor.exited ≡ workers
  pub http_shut : p.phase ≡ Phase.http_stopping → p.http_listening ≡ false
  pub grpc_shut : p.phase ≡ Phase.grpc_stopping → p.grpc_listening ≡ false
  pub aligned : length p.owners ≡ length p.auditor.senders
  pub uncut :
      past_http p.phase ≡ false
      → (p.http_cut ≡ false) × (p.background_cut ≡ false) × (p.grpc_cut ≡ false)
  pub http_quiet : past_http p.phase ≡ true → p.http_cut ≡ false → HttpQuiet p
  pub grpc_quiet : past_grpc p.phase ≡ true → p.grpc_cut ≡ false → GrpcQuiet p
  pub background_over :
      past_background p.phase ≡ true
      → p.http_cut ≡ false
      → p.background_cut ≡ false
      → p.background ≡ 0
  pub none_lost : p.http_cut ≡ false → p.grpc_cut ≡ false → p.auditor.lost ≡ []
