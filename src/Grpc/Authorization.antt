-- ===== src/Grpc/Authorization.antt =====
-- The interceptors of auth.go and audit.go, in the order of the server's chain.
use Prim.Native.String as Str
use text.Mathlib.TextLemmas as Text
use text.Mathlib.TextPositions.{starts_with-append}
use shortener.Base.{ℕ, ◌+◌, ◌*◌, ◌<◌, String, ◌≡◌, false, ◌==◌, Option, some, List, [], ◌∷◌, arith}
use shortener.Base.Text.{◌+s◌, is_empty, trim_space}
use shortener.Errors.{ok, err, Error}
use shortener.Models.{empty_audit_data}
use shortener.Context.{Context, set_user_id_to_context}
use shortener.Auth.{Jwt, set_user_cookie, get_user_id_from_token, get_user_id_from_request}
use shortener.Middlewares.{with_user, notify_audit}
use shortener.Middlewares.Authentication.{SignsAndVerifies, get_user_id-set_user_cookie}
use shortener.Grpc.{
  UnaryHandler, status, unauthenticated, bearer_prefix, get_user_id_from_metadata,
  grpc_auth_interceptor, grpc_audit_interceptor, drop_prefix,
}

module _ (jwt : Jwt) (secret_key : String) {A State : Type 0} (handler : UnaryHandler A State)
    (ctx : Context) (st : State) where
  -- A call of any method but ExpandURL whose metadata names no user is answered by Unauthenticated:
  -- the handler behind does nothing, and there is no event for the auditor.
  pub interceptors-unauthenticated :
      (now : ℕ) (full_method : String) (metadata : Option (List String)) (e : Error)
      → (full_method == "/shortener.ShortenerService/ExpandURL") ≡ false
      → get_user_id_from_metadata jwt secret_key now metadata ≡ err e
      → let (served, events) =
          grpc_audit_interceptor now
            (grpc_auth_interceptor jwt secret_key now full_method metadata handler)
            ctx
            st in
        (served.answer ≡ status unauthenticated "invalid authorization")
        × (served.state ≡ st)
        × (events ≡ [])
  unfolding grpc_audit_interceptor grpc_auth_interceptor
  interceptors-unauthenticated now full_method metadata e guarded bad =
      (ground arith, ground arith, ground arith)

  drop_prefix-append : (p s : String) → drop_prefix p (p +s s) ≡ s
  unfolding drop_prefix
  drop_prefix-append Str.[] s = Text.nil-append s
  drop_prefix-append (Str.◌∷◌ c p) s = rw (Text.cons-append c p s) (drop_prefix-append p s)

  metadata-token :
      (now : ℕ) (value rest token : String) (values : List String)
      → trim_space value ≡ bearer_prefix +s rest
      → trim_space rest ≡ token
      → is_empty token ≡ false
      → get_user_id_from_metadata jwt secret_key now (some (value ∷ values))
        ≡ get_user_id_from_token jwt now token secret_key
  unfolding get_user_id_from_metadata
  metadata-token now value rest token values shape trimmed some_token =
      ground (arith, starts_with-append bearer_prefix rest, drop_prefix-append bearer_prefix rest)

  -- Where the package jwt verifies what it signed, a call of a method other than ExpandURL, whose
  -- authorization is Bearer and the token of a cookie set less than 24 hours before for a user
  -- whose id is not empty, is served as that user, and the events are those of what the handler
  -- recorded.
  pub interceptors-set_user_cookie :
      (now later : ℕ) (user_id token value rest : String) (values : List String)
      (full_method : String)
      → SignsAndVerifies jwt secret_key
      → is_empty user_id ≡ false
      → is_empty token ≡ false
      → set_user_cookie jwt now user_id secret_key ≡ ok token
      → later < now + 24 * 3600
      → trim_space value ≡ bearer_prefix +s rest
      → trim_space rest ≡ token
      → (full_method == "/shortener.ShortenerService/ExpandURL") ≡ false
      → let served =
          handler
            (set_user_id_to_context ctx user_id)
            (with_user user_id (some empty_audit_data))
            st in
        grpc_audit_interceptor later
          (grpc_auth_interceptor jwt secret_key later full_method (some (value ∷ values)) handler)
          ctx
          st
        ≡ (served, notify_audit later served.audit)
  unfolding grpc_audit_interceptor grpc_auth_interceptor get_user_id_from_request
  interceptors-set_user_cookie now later user_id token value rest values full_method laws named
        some_token signed alive shape trimmed guarded =
      ground (
        arith,
        metadata-token later value rest token values shape trimmed some_token,
        get_user_id-set_user_cookie jwt secret_key now later user_id token laws named signed alive,
      )
