-- ===== src/Middlewares.antt =====
-- internal/middlewares: auth.go, audit.go and subnet.go, as functions on handlers. A handler takes
-- the context, the AuditData that the context points to, and the storage.
pub mod Authentication
pub mod Logging
pub mod Gzip
use shortener.Base.{
  ℕ, String, Bool, true, false, Option, none, some, List, [], ◌∷◌, ◌++◌, if◌then◌else◌,
}
use shortener.Base.Text.{is_empty}
use shortener.Errors.{Error, no_cookie, is_error, Result, ok, err}
use shortener.Models.{
  AuditAction, no_action, follow, shorten, AuditData, AuditEvent, empty_audit_data,
}
use shortener.Context.{Context, set_user_id_to_context}
use shortener.Http.{WriterCall, set_cookie, http_error}
use shortener.Auth.{Jwt, set_user_cookie, get_user_id_from_request, cookie_name}
use shortener.Handlers.{Served, internal_error}

-- http.Handler over a storage's state, for one request
abbrev pub Handler : Type 0 → Type 0
Handler State = Context → Option AuditData → State → Served State

-- `auditData.UserID = userID` if the context has an AuditData
abbrev pub with_user : String → Option AuditData → Option AuditData
with_user user_id none = none
with_user user_id (some d) = some (record d { user_id = user_id })

-- notifyAudit: the event for NotifyAll, if any
unfoldable pub notify_audit : ℕ → Option AuditData → List AuditEvent
notify_audit now none = []
notify_audit now (some d) = elim d.action [
  | no_action ↦ []
  | follow ↦ record { timestamp = now; action = follow; user_id = d.user_id; url = d.url } ∷ []
  | shorten ↦ record { timestamp = now; action = shorten; user_id = d.user_id; url = d.url } ∷ []
]

module _ {State : Type 0} where
  -- a handler after some calls on the writer
  abbrev after_calls : List WriterCall → Served State → Served State
  after_calls cs served = record served { calls = cs ++ served.calls }

  abbrev answered : List WriterCall → Option AuditData → State → Served State
  answered cs audit st = record { calls = cs; audit = audit; state = st; tasks = [] }

  abbrev serve_user : String → List WriterCall → Handler State → Handler State
  serve_user user_id cs next ctx audit st =
      after_calls cs (next (set_user_id_to_context ctx user_id) (with_user user_id audit) st)

  -- a new user: `new_id` is the result of GenerateUserID
  abbrev serve_new_user : String → Result String → Handler State → Handler State
  serve_new_user new_id (ok token) next ctx audit st =
      serve_user new_id (set_cookie cookie_name token ∷ []) next ctx audit st
  serve_new_user new_id (err e) next ctx audit st = answered internal_error audit st

  abbrev pub authenticated : String → Result String → Result String → Handler State → Handler State
  authenticated new_id cookie (ok user_id) next ctx audit st =
      serve_user user_id [] next ctx audit st
  authenticated new_id cookie (err e) next ctx audit st =
      if is_error e no_cookie
      then serve_new_user new_id cookie next ctx audit st
      else answered (http_error "Unauthorized" 401) audit st

  -- AuthMiddleware, where `cookie` is the request's cookie
  unfoldable pub auth_middleware :
      Jwt → String → ℕ → String → Option String → Handler State → Handler State
  auth_middleware jwt secret_key now new_id cookie next =
      authenticated new_id (set_user_cookie jwt now new_id secret_key)
        (get_user_id_from_request jwt now cookie secret_key) next

  -- AuditMiddleware: what was served and the events for the auditor
  unfoldable pub audit_middleware :
      ℕ → Handler State → Context → State → Served State × List AuditEvent
  unfolding notify_audit
  audit_middleware now next ctx st =
      let served = next ctx (some empty_audit_data) st in (served, notify_audit now served.audit)

  abbrev forbidden : Option AuditData → State → Served State
  forbidden audit st = answered (http_error "Forbidden" 403) audit st

  module _ {Ip : Type 0} where
    abbrev pub admitted : Option (Ip → Bool) → Option Ip → Handler State → Handler State
    admitted trusted none next ctx audit st = forbidden audit st
    admitted none (some ip) next ctx audit st = forbidden audit st
    admitted (some contains) (some ip) next ctx audit st =
        if contains ip then next ctx audit st else forbidden audit st

    -- TrustedSubnetMiddleware: `parse_ip` is net.ParseIP, `trusted_subnet` the test of the
    -- subnet's Contains, if a subnet is configured, and `real_ip` the header X-Real-IP
    unfoldable pub trusted_subnet_middleware :
        (String → Option Ip) → Option (Ip → Bool) → String → Handler State → Handler State
    trusted_subnet_middleware parse_ip trusted_subnet real_ip next ctx audit st =
        if is_empty real_ip
        then forbidden audit st
        else admitted trusted_subnet (parse_ip real_ip) next ctx audit st
