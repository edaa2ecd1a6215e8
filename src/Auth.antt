-- ===== src/Auth.antt =====
-- internal/auth/jwt.go. The package github.com/golang-jwt/jwt is a parameter.
use shortener.Base.{ℕ, ◌+◌, ◌*◌, String, Bool, Option, none, some, if◌then◌else◌}
use shortener.Base.Text.{is_empty}
use shortener.Errors.{sentinel, message, no_cookie, Result, ok, err}

pub data SigningMethod : Type 0 where
  hs256 : SigningMethod
  other_method : String → SigningMethod

-- Claims: the user id and the registered claim that the program sets
pub record Claims : Type 0 where
  pub expires_at : ℕ
  pub user_id : String

-- What the program uses of the package jwt, at a time in seconds.
pub record Jwt : Type 0 where
  -- NewWithClaims and SignedString
  pub signed_string : SigningMethod → Claims → String → Result String
  -- the signing method that a token names, or the error of a malformed one
  pub method_of : String → Result SigningMethod
  -- the rest of ParseWithClaims under the key: token.Valid and the claims
  pub verified_claims : ℕ → String → String → Result (Bool × Claims)

abbrev pub cookie_name : String
cookie_name = "token"

module _ (jwt : Jwt) where
  -- SetUserCookie: the cookie's value, or the error of signing
  unfoldable pub set_user_cookie : ℕ → String → String → Result String
  set_user_cookie now user_id secret_key =
      jwt.signed_string hs256 (record { expires_at = now + 24 * 3600; user_id = user_id })
        secret_key

  -- the function that hands ParseWithClaims its key
  abbrev key_of : String → SigningMethod → Result String
  key_of secret_key hs256 = ok secret_key
  key_of secret_key (other_method m) = err (message "unexpected signing method")

  abbrev user_id_of : Result (Bool × Claims) → Result String
  user_id_of (err e) = err e
  user_id_of (ok (valid, claims)) =
      if valid
      then (if is_empty claims.user_id then err (message "userID is empty") else ok claims.user_id)
      else err (message "invalid token")

  abbrev verified_by : ℕ → String → Result String → Result String
  verified_by now token (err e) = err e
  verified_by now token (ok key) = user_id_of (jwt.verified_claims now token key)

  abbrev claimed_by : ℕ → String → String → Result SigningMethod → Result String
  claimed_by now token secret_key (err e) = err e
  claimed_by now token secret_key (ok method) = verified_by now token (key_of secret_key method)

  unfoldable pub get_user_id_from_token : ℕ → String → String → Result String
  get_user_id_from_token now token secret_key =
      claimed_by now token secret_key (jwt.method_of token)

  -- GetUserIDFromRequest, where `cookie` is the request's cookie of the name, if any
  unfoldable pub get_user_id_from_request : ℕ → Option String → String → Result String
  get_user_id_from_request now none secret_key = err (sentinel no_cookie)
  get_user_id_from_request now (some token) secret_key = get_user_id_from_token now token secret_key
