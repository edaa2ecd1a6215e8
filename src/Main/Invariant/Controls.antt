-- ===== src/Main/Invariant/Controls.antt =====
-- What main does keeps the invariant.
use shortener.Base.{true, false, refl, ap, ◌∙◌, none, some}
use shortener.Audit.{close, later}
use shortener.Main.Process.{Process, Control, after_http_error, after_grpc_error}
use shortener.Main.Invariant.{Inv, past_http, past_background, past_grpc, is_closing}

pub Control-Inv : {p q : Process} → Control p q → Inv p → Inv q
unfolding after_http_error after_grpc_error
Control-Inv (Control.signal {p} at) i = record {
  audit_reached = i.audit_reached;
  closes = i.closes ∙ ap is_closing at;
  all_back = λ e. absurd (cc);
  http_shut = λ e. refl;
  grpc_shut = λ e. absurd (cc);
  aligned = i.aligned;
  uncut = λ before. i.uncut (ap past_http at);
  http_quiet = λ past cut. absurd (cc);
  grpc_quiet = λ past cut. absurd (cc);
  background_over = λ past cut cut'. absurd (cc);
  none_lost = i.none_lost;
}
Control-Inv (Control.http_stopped {p} at empty sent) i = record {
  audit_reached = i.audit_reached;
  closes = i.closes ∙ ap is_closing at;
  all_back = λ e. absurd (cc);
  http_shut = λ e. absurd (cc);
  grpc_shut = λ e. absurd (cc);
  aligned = i.aligned;
  uncut = λ before. absurd (cc);
  http_quiet = λ past cut. (i.http_shut at, empty, sent);
  grpc_quiet = λ past cut. absurd (cc);
  background_over = λ past cut cut'. absurd (cc);
  none_lost = i.none_lost;
}
Control-Inv (Control.http_deadline {p} at) i = record {
  audit_reached = i.audit_reached;
  closes = i.closes ∙ ap is_closing at;
  all_back = λ e. absurd (cc);
  http_shut = λ e. absurd (cc);
  grpc_shut = λ e. absurd (cc);
  aligned = i.aligned;
  uncut = λ before. absurd (cc);
  http_quiet = λ past cut. absurd (cc);
  grpc_quiet = λ past cut. absurd (cc);
  background_over = λ past cut cut'. absurd (cc);
  none_lost = λ cut cut'. absurd (cc);
}
Control-Inv (Control.background_done {p} at none_left) i = record {
  audit_reached = i.audit_reached;
  closes = i.closes ∙ ap is_closing at;
  all_back = λ e. absurd (cc);
  http_shut = λ e. absurd (cc);
  grpc_shut = λ e. refl;
  aligned = i.aligned;
  uncut = λ before. absurd (cc);
  http_quiet = λ past cut. i.http_quiet (ap past_http at) cut;
  grpc_quiet = λ past cut. absurd (cc);
  background_over = λ past cut cut'. none_left;
  none_lost = i.none_lost;
}
Control-Inv (Control.background_late {p} at) i = record {
  audit_reached = i.audit_reached;
  closes = i.closes ∙ ap is_closing at;
  all_back = λ e. absurd (cc);
  http_shut = λ e. absurd (cc);
  grpc_shut = λ e. refl;
  aligned = i.aligned;
  uncut = λ before. absurd (cc);
  http_quiet = λ past cut. i.http_quiet (ap past_http at) cut;
  grpc_quiet = λ past cut. absurd (cc);
  background_over = λ past cut cut'. absurd (cc);
  none_lost = i.none_lost;
}
Control-Inv (Control.grpc_stopped {p} at empty sent) i = record {
  audit_reached = i.audit_reached;
  closes = i.closes ∙ ap is_closing at;
  all_back = λ e. absurd (cc);
  http_shut = λ e. absurd (cc);
  grpc_shut = λ e. absurd (cc);
  aligned = i.aligned;
  uncut = λ before. absurd (cc);
  http_quiet = λ past cut. i.http_quiet (ap past_http at) cut;
  grpc_quiet = λ past cut. (i.grpc_shut at, empty, sent);
  background_over = λ past cut cut'. i.background_over (ap past_background at) cut cut';
  none_lost = i.none_lost;
}
Control-Inv (Control.http_error {p} none at) i = record {
  audit_reached = i.audit_reached;
  closes = i.closes ∙ ap is_closing at;
  all_back = λ e. absurd (cc);
  http_shut = λ e. absurd (cc);
  grpc_shut = λ e. absurd (cc);
  aligned = i.aligned;
  uncut = λ before. absurd (cc);
  http_quiet = λ past cut. absurd (cc);
  grpc_quiet = λ past cut. absurd (cc);
  background_over = λ past cut cut'. absurd (cc);
  none_lost = λ cut cut'. absurd (cc);
}
Control-Inv (Control.http_error {p} (some true) at) i = record {
  audit_reached = i.audit_reached;
  closes = i.closes ∙ ap is_closing at;
  all_back = λ e. absurd (cc);
  http_shut = λ e. absurd (cc);
  grpc_shut = λ e. absurd (cc);
  aligned = i.aligned;
  uncut = λ before. absurd (cc);
  http_quiet = λ past cut. absurd (cc);
  grpc_quiet = λ past cut. absurd (cc);
  background_over = λ past cut cut'. absurd (cc);
  none_lost = λ cut cut'. absurd (cc);
}
Control-Inv (Control.http_error {p} (some false) at) i = record {
  audit_reached = i.audit_reached;
  closes = i.closes ∙ ap is_closing at;
  all_back = λ e. absurd (cc);
  http_shut = λ e. absurd (cc);
  grpc_shut = λ e. absurd (cc);
  aligned = i.aligned;
  uncut = λ before. absurd (cc);
  http_quiet = λ past cut. absurd (cc);
  grpc_quiet = λ past cut. absurd (cc);
  background_over = λ past cut cut'. absurd (cc);
  none_lost = λ cut cut'. absurd (cc);
}
Control-Inv (Control.grpc_error {p} none at) i = record {
  audit_reached = i.audit_reached;
  closes = i.closes ∙ ap is_closing at;
  all_back = λ e. absurd (cc);
  http_shut = λ e. absurd (cc);
  grpc_shut = λ e. absurd (cc);
  aligned = i.aligned;
  uncut = λ before. absurd (cc);
  http_quiet = λ past cut. absurd (cc);
  grpc_quiet = λ past cut. absurd (cc);
  background_over = λ past cut cut'. absurd (cc);
  none_lost = λ cut cut'. absurd (cc);
}
Control-Inv (Control.grpc_error {p} (some closed) at) i = record {
  audit_reached = i.audit_reached;
  closes = i.closes ∙ ap is_closing at;
  all_back = λ e. absurd (cc);
  http_shut = λ e. absurd (cc);
  grpc_shut = λ e. absurd (cc);
  aligned = i.aligned;
  uncut = λ before. absurd (cc);
  http_quiet = λ past cut. absurd (cc);
  grpc_quiet = λ past cut. absurd (cc);
  background_over = λ past cut cut'. absurd (cc);
  none_lost = λ cut cut'. absurd (cc);
}
Control-Inv (Control.audit_closes {p} at) i = record {
  audit_reached = later i.audit_reached (close (i.closes ∙ ap is_closing at));
  closes = refl;
  all_back = λ e. absurd (cc);
  http_shut = λ e. absurd (cc);
  grpc_shut = λ e. absurd (cc);
  aligned = i.aligned;
  uncut = λ before. absurd (cc);
  http_quiet = λ past cut. i.http_quiet (ap past_http at) cut;
  grpc_quiet = λ past cut. i.grpc_quiet (ap past_grpc at) cut;
  background_over = λ past cut cut'. i.background_over (ap past_background at) cut cut';
  none_lost = i.none_lost;
}
Control-Inv (Control.call_panics {p} before t ts after os os' e eo same closed live) i = record {
  audit_reached = i.audit_reached;
  closes = closed;
  all_back = λ e. absurd (cc);
  http_shut = λ e. absurd (cc);
  grpc_shut = λ e. absurd (cc);
  aligned = i.aligned;
  uncut = λ before. absurd (cc);
  http_quiet = λ past cut. absurd (cc);
  grpc_quiet = λ past cut. absurd (cc);
  background_over = λ past cut cut'. absurd (cc);
  none_lost = λ cut cut'. absurd (cc);
}
Control-Inv (Control.main_returns {p} at out) i = record {
  audit_reached = i.audit_reached;
  closes = i.closes ∙ ap is_closing at;
  all_back = λ e. out;
  http_shut = λ e. absurd (cc);
  grpc_shut = λ e. absurd (cc);
  aligned = i.aligned;
  uncut = λ before. absurd (cc);
  http_quiet = λ past cut. i.http_quiet (ap past_http at) cut;
  grpc_quiet = λ past cut. i.grpc_quiet (ap past_grpc at) cut;
  background_over = λ past cut cut'. i.background_over (ap past_background at) cut cut';
  none_lost = i.none_lost;
}
