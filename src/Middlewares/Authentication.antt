-- ===== src/Middlewares/Authentication.antt =====
-- What AuthMiddleware of auth.go lets through, and that its cookie is one it accepts.
use shortener.Base.{
  ℕ, ◌+◌, ◌*◌, ◌<◌, String, ◌≡◌, refl, true, false, Option, none, some, [], ◌∷◌, arith,
}
use shortener.Base.Text.{is_empty}
use shortener.Errors.{Error, sentinel, no_cookie, is_error, ok, err}
use shortener.Models.{AuditData}
use shortener.Context.{Context, set_user_id_to_context}
use shortener.Http.{set_cookie, http_error, new_writer, play, status_of, call, send_header}
use shortener.Auth.{
  Jwt, Claims, hs256, set_user_cookie, get_user_id_from_request, get_user_id_from_token,
  cookie_name,
}
use shortener.Middlewares.{Handler, with_user, auth_middleware}

module _ (jwt : Jwt) (secret_key : String) where
  -- A token that was signed is parsed under the same key as signed by its method, and until it
  -- expires its claims are valid.
  pub record SignsAndVerifies : Type 0 where
    pub method-signed :
        (claims : Claims) (token : String)
        → jwt.signed_string hs256 claims secret_key ≡ ok token
        → jwt.method_of token ≡ ok hs256
    pub verified-signed :
        (claims : Claims) (token : String) (now : ℕ)
        → jwt.signed_string hs256 claims secret_key ≡ ok token
        → now < claims.expires_at
        → jwt.verified_claims now token secret_key ≡ ok (true, claims)

  -- Where the package jwt verifies what it signed, the cookie set for a user whose id is not empty
  -- is read back as that user for the 24 hours of its life.
  pub get_user_id-set_user_cookie :
      (now later : ℕ) (user_id token : String)
      → SignsAndVerifies
      → is_empty user_id ≡ false
      → set_user_cookie jwt now user_id secret_key ≡ ok token
      → later < now + 24 * 3600
      → get_user_id_from_request jwt later (some token) secret_key ≡ ok user_id
  unfolding set_user_cookie get_user_id_from_request get_user_id_from_token
  get_user_id-set_user_cookie now later user_id token laws named signed alive =
      let claims : Claims = record { expires_at = now + 24 * 3600; user_id = user_id } in
      ground (
        arith,
        laws.method-signed claims token signed,
        laws.verified-signed claims token later signed alive,
      )

  with_cookie :
      (now : ℕ) (token : String)
      → get_user_id_from_request jwt now (some token) secret_key
        ≡ get_user_id_from_token jwt now token secret_key
  unfolding get_user_id_from_request
  with_cookie now token = refl

  without_cookie :
      (now : ℕ) → get_user_id_from_request jwt now none secret_key ≡ err (sentinel no_cookie)
  unfolding get_user_id_from_request
  without_cookie now = refl

  module _ {State : Type 0} (next : Handler State) (ctx : Context) (audit : Option AuditData)
      (st : State) where
    refused :
        (now : ℕ) (new_id token : String) (e : Error)
        → get_user_id_from_token jwt now token secret_key ≡ err e
        → is_error e no_cookie ≡ false
        → auth_middleware jwt secret_key now new_id (some token) next ctx audit st
          ≡ record { calls = http_error "Unauthorized" 401; audit = audit; state = st; tasks = [] }
    unfolding auth_middleware
    refused now new_id token e bad other = unfold is_error in ground (arith, with_cookie now token)

    -- A cookie that does not verify, by an error that is not ErrNoCookie, is answered by 401, and
    -- nothing of the handler behind happens.
    pub auth_middleware-unauthorized :
        (now : ℕ) (new_id token : String) (e : Error)
        → get_user_id_from_token jwt now token secret_key ≡ err e
        → is_error e no_cookie ≡ false
        → let served = auth_middleware jwt secret_key now new_id (some token) next ctx audit st in
          (status_of (play served.calls new_writer) ≡ 401)
          × (served.state ≡ st)
          × (served.audit ≡ audit)
          × (served.tasks ≡ [])
    unfolding play call send_header
    auth_middleware-unauthorized now new_id token e bad other =
        rw (refused now new_id token e bad other) (refl, refl, refl, refl)

    -- A request without a cookie, where signing works, is served as the new user, with the cookie
    -- of that user set before anything else is called.
    pub auth_middleware-new_user :
        (now : ℕ) (new_id token : String)
        → set_user_cookie jwt now new_id secret_key ≡ ok token
        → let served = next (set_user_id_to_context ctx new_id) (with_user new_id audit) st in
          auth_middleware jwt secret_key now new_id none next ctx audit st
          ≡ record served { calls = set_cookie cookie_name token ∷ served.calls }
    unfolding auth_middleware
    auth_middleware-new_user now new_id token signed =
        unfold is_error in ground (arith, without_cookie now)

    -- Where the package jwt verifies what it signed, a request that carries a cookie set less than
    -- 24 hours before for a user whose id is not empty is served as that user.
    pub auth_middleware-set_user_cookie :
        (now later : ℕ) (user_id token new_id : String)
        → SignsAndVerifies
        → is_empty user_id ≡ false
        → set_user_cookie jwt now user_id secret_key ≡ ok token
        → later < now + 24 * 3600
        → auth_middleware jwt secret_key later new_id (some token) next ctx audit st
          ≡ next (set_user_id_to_context ctx user_id) (with_user user_id audit) st
    unfolding auth_middleware
    auth_middleware-set_user_cookie now later user_id token new_id laws named signed alive =
        ground (arith, get_user_id-set_user_cookie now later user_id token laws named signed alive)
