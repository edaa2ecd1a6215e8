-- ===== src/Grpc.antt =====
-- internal/handlers/grpc.go over any Storage, and the interceptors of auth.go and audit.go in
-- internal/middlewares. A request is `none` where the source tests it against nil.
pub mod Expanding
pub mod Authorization
use Prim.Native.Char.{Char, code}
use Prim.Native.String as Str
use text.Mathlib.Text.{starts_with}
use shortener.Base.{
  ℕ, String, Bool, true, false, not, ◌&&◌, ◌==◌, Option, none, some, List, [], ◌∷◌, if◌then◌else◌,
  nat_eq,
}
use shortener.Base.Text.{is_empty, trim_space}
use shortener.Errors.{
  Error, message, is_error, error_text, duplicate, empty_url, not_found, gone, Result, ok, err,
}
use shortener.Models.{AuditData, AuditEvent, follow, shorten, UserUrl, empty_audit_data}
use shortener.Context.{Context, set_user_id_to_context}
use shortener.Repository.{Storage}
use shortener.Service
use shortener.Service.{ServiceConfig}
use shortener.Auth.{Jwt, get_user_id_from_token}
use shortener.Middlewares.{with_user, notify_audit}

-- the codes of the package codes that the program uses
pub data Code : Type 0 where
  invalid_argument internal code_already_exists code_not_found unauthenticated : Code

-- a response, or status.Error
pub data Answer {ℓ} (A : Type ℓ) : Type ℓ where
  response : A → Answer A
  status : Code → String → Answer A

pub record GrpcServed (A State : Type 0) : Type 0 where
  pub answer : Answer A
  -- the AuditData that the context points to, if any
  pub audit : Option AuditData
  pub state : State

abbrev pub internal_status {ℓ} : {A : Type ℓ} → Answer A
internal_status = status internal "Internal error"

-- the answer of ShortenURL to CreateShortURL
abbrev shorten_reply : String × Option Error → Answer String
shorten_reply (result, none) = response result
shorten_reply (result, some e) =
    if is_error e duplicate
    then status code_already_exists (error_text e)
    else if is_error e empty_url
    then status invalid_argument (error_text e)
    else internal_status

-- what ExpandURL does after GetOriginalURL
abbrev expand_reply : Result String → Option AuditData → Answer String × Option AuditData
expand_reply (err e) audit = (
  if is_error e not_found
      then status code_not_found "url not found"
      else if is_error e gone
      then status code_not_found "url has been deleted"
      else internal_status,
  audit,
)
expand_reply (ok url) none = (internal_status, none)
expand_reply (ok url) (some d) = (response url, some (record d { action = follow; url = url }))

abbrev list_reply : Result (List UserUrl) → Answer (List UserUrl)
list_reply (ok urls) = response urls
list_reply (err e) = internal_status

module _ (storage : Storage) (service : ServiceConfig) where
  open storage use {State}

  abbrev shorten_audited :
      Context → String → List ℕ → Option AuditData → State → GrpcServed String State
  shorten_audited ctx url random none st = record {
    answer = internal_status;
    audit = none;
    state = st;
  }
  shorten_audited ctx url random (some d) st =
      let (created, st') = Service.create_short_url storage service ctx url "" "" random st in
      record {
        answer = shorten_reply created;
        audit = some (record d { action = shorten; url = url });
        state = st';
      }

  -- ShortenURL
  unfoldable pub shorten_url :
      Context → Option String → List ℕ → Option AuditData → State → GrpcServed String State
  unfolding is_error error_text
  shorten_url ctx none random audit st = record {
    answer = status invalid_argument "request is nil";
    audit = audit;
    state = st;
  }
  shorten_url ctx (some url) random audit st =
      let original = trim_space url in
      if is_empty original
      then record { answer = status invalid_argument "Empty body"; audit = audit; state = st }
      else shorten_audited ctx original random audit st

  abbrev expand_trimmed : Context → String → Option AuditData → State → GrpcServed String State
  expand_trimmed ctx id audit st =
      let (found, st') = Service.get_original_url storage service ctx id st in
      let (answer, audit') = expand_reply found audit in
      record { answer = answer; audit = audit'; state = st' }

  abbrev id_required : Option AuditData → State → GrpcServed String State
  id_required audit st = record {
    answer = status invalid_argument "id is required";
    audit = audit;
    state = st;
  }

  -- ExpandURL
  unfoldable pub expand_url :
      Context → Option String → Option AuditData → State → GrpcServed String State
  unfolding is_error
  expand_url ctx none audit st = id_required audit st
  expand_url ctx (some id) audit st =
      if is_empty (trim_space id)
      then id_required audit st
      else expand_trimmed ctx (trim_space id) audit st

  -- ListUserURLs
  unfoldable pub list_user_urls :
      Context → Option AuditData → State → GrpcServed (List UserUrl) State
  list_user_urls ctx audit st =
      let (urls, st') = Service.get_user_urls storage service ctx "" "" st in
      record { answer = list_reply urls; audit = audit; state = st' }

-- strings.TrimPrefix of a text that has the prefix
unfoldable pub drop_prefix : String → String → String
drop_prefix Str.[] s = s
drop_prefix (Str.◌∷◌ c p) Str.[] = Str.[]
drop_prefix (Str.◌∷◌ c p) (Str.◌∷◌ d s) = drop_prefix p s

-- grpc.UnaryHandler over a storage's state, for one request
abbrev pub UnaryHandler : Type 0 → Type 0 → Type 0
UnaryHandler A State = Context → Option AuditData → State → GrpcServed A State

abbrev pub bearer_prefix : String
bearer_prefix = "Bearer "

module _ (jwt : Jwt) (secret_key : String) (now : ℕ) where
  abbrev of_token : String → Result String
  of_token token =
      if is_empty token
      then err (message "token is empty")
      else get_user_id_from_token jwt now token secret_key

  abbrev of_value : String → Result String
  of_value value =
      if starts_with value bearer_prefix
      then of_token (trim_space (drop_prefix bearer_prefix value))
      else err (message "invalid authorization scheme")

  abbrev of_values : List String → Result String
  of_values [] = err (message "authorization is missing")
  of_values (value ∷ _) = of_value (trim_space value)

  -- getUserIDFromMetadata, where `metadata` holds the values of the key authorization, if the
  -- context has any metadata
  unfoldable pub get_user_id_from_metadata : Option (List String) → Result String
  unfolding drop_prefix
  get_user_id_from_metadata none = err (message "metadata is missing")
  get_user_id_from_metadata (some values) = of_values values

  module _ {A State : Type 0} where
    abbrev authorized : Result String → UnaryHandler A State → UnaryHandler A State
    authorized (err e) handler ctx audit st = record {
      answer = status unauthenticated "invalid authorization";
      audit = audit;
      state = st;
    }
    authorized (ok user_id) handler ctx audit st =
        handler (set_user_id_to_context ctx user_id) (with_user user_id audit) st

    -- GRPCAuthInterceptor
    unfoldable pub grpc_auth_interceptor :
        String → Option (List String) → UnaryHandler A State → UnaryHandler A State
    grpc_auth_interceptor full_method metadata handler ctx audit st =
        if full_method == "/shortener.ShortenerService/ExpandURL"
        then handler ctx audit st
        else authorized (get_user_id_from_metadata metadata) handler ctx audit st

-- GRPCAuditInterceptor: what was served and the events for the auditor
unfoldable pub grpc_audit_interceptor :
    {A State : Type 0}
    → ℕ
    → UnaryHandler A State
    → Context
    → State
    → GrpcServed A State × List AuditEvent
unfolding notify_audit
grpc_audit_interceptor now handler ctx st =
    let served = handler ctx (some empty_audit_data) st in (served, notify_audit now served.audit)
