-- ===== src/Errors.antt =====
-- Go errors as values, and errors.Is and errors.As over a chain of wraps. The sentinels are the
-- package variables of internal/repository/errors.go and internal/service/errors.go, and those of the
-- standard library that the program compares with (http.ErrNoCookie, and fs.ErrNotExist).
use Prim.Native.String
use shortener.Base.{String, Bool, true, false, Option, none, some}

pub data Sentinel : Type 0 where
  not_found mutually_exclusive_flags gone empty_url empty_batch duplicate : Sentinel
  no_cookie not_exist : Sentinel

pub data Error : Type 0 where
  -- a variable made by errors.New, compared by identity
  sentinel : Sentinel → Error
  -- *ErrAlreadyExists with its ExistingID
  already_exists : String → Error
  -- an error that the program only passes on: ctx.Err(), the operating system's, the driver's
  message : String → Error
  -- fmt.Errorf("…: %w", err)
  wrapped : String → Error → Error
  -- fmt.Errorf("%w: …", err)
  followed : Error → String → Error

abbrev sentinel_eq : Sentinel → Sentinel → Bool
sentinel_eq Sentinel.not_found Sentinel.not_found = true
sentinel_eq Sentinel.mutually_exclusive_flags Sentinel.mutually_exclusive_flags = true
sentinel_eq Sentinel.gone Sentinel.gone = true
sentinel_eq Sentinel.empty_url Sentinel.empty_url = true
sentinel_eq Sentinel.empty_batch Sentinel.empty_batch = true
sentinel_eq Sentinel.duplicate Sentinel.duplicate = true
sentinel_eq Sentinel.no_cookie Sentinel.no_cookie = true
sentinel_eq Sentinel.not_exist Sentinel.not_exist = true
sentinel_eq _ _ = false

-- errors.Is
unfoldable pub is_error : Error → Sentinel → Bool
is_error (sentinel s) target = sentinel_eq s target
is_error (already_exists id) target = false
is_error (message m) target = false
is_error (wrapped m e) target = is_error e target
is_error (followed e m) target = is_error e target

-- errors.As with a target of type *ErrAlreadyExists: the ExistingID that it finds
unfoldable pub as_already_exists : Error → Option String
as_already_exists (sentinel s) = none
as_already_exists (already_exists id) = some id
as_already_exists (message m) = none
as_already_exists (wrapped m e) = as_already_exists e
as_already_exists (followed e m) = as_already_exists e

-- A pair (T, error) of which the value counts only if the error is nil.
pub data Result {ℓ} (A : Type ℓ) : Type ℓ where
  ok : A → Result A
  err : Error → Result A

-- Error() of the sentinels that the program defines, and of the others
unfoldable pub error_text : Error → String
error_text (sentinel Sentinel.not_found) = "url not found"
error_text (sentinel Sentinel.mutually_exclusive_flags) = "mutually exclusive flags received"
error_text (sentinel Sentinel.gone) = "url has been deleted"
error_text (sentinel Sentinel.empty_url) = "url is empty or contains only whitespace characters"
error_text (sentinel Sentinel.empty_batch) = "empty batch received"
error_text (sentinel Sentinel.duplicate) = "url already exists"
error_text (sentinel Sentinel.no_cookie) = "http: named cookie not present"
error_text (sentinel Sentinel.not_exist) = "file does not exist"
error_text (already_exists id) = String.◌++◌ "url already exists with id " id
error_text (message m) = m
error_text (wrapped m e) = String.◌++◌ m (String.◌++◌ ": " (error_text e))
error_text (followed e m) = String.◌++◌ (error_text e) (String.◌++◌ ": " m)
