-- ===== src/Http.antt =====
-- net/http as far as the program uses it: the calls that a handler makes on its ResponseWriter, in
-- order, what the server's writer makes of them, and http.Error.
pub mod Replies
pub mod Sending
use Prim.Native.String
use shortener.Base.{ℕ, String, Option, none, some, List, [], ◌∷◌, ◌++◌}
use shortener.Base.Dict.{Dict, lookup, insert, delete}

pub data WriterCall : Type 0 where
  -- w.Header().Set(key, value), with the key in the canonical form that it is stored in
  set_header : String → String → WriterCall
  -- w.Header().Del(key)
  del_header : String → WriterCall
  -- http.SetCookie, by the cookie's name and value
  set_cookie : String → String → WriterCall
  write_header : ℕ → WriterCall
  write : String → WriterCall

pub record ResponseWriter : Type 0 where
  pub header : Dict String
  -- the cookies of the Set-Cookie headers
  pub cookies : List (String × String)
  -- the status the headers and the cookies, once they are sent
  pub sent : Option (ℕ × Dict String × List (String × String))
  pub body : String

abbrev pub new_writer : ResponseWriter
new_writer = record { header = []; cookies = []; sent = none; body = "" }

-- A second WriteHeader is ignored.
unfoldable pub send_header : ℕ → ResponseWriter → ResponseWriter
send_header status w = elim w.sent [
  | none ↦ record w { sent = some (status, w.header, w.cookies) }
  | some _ ↦ w
]

-- Write sends the header with status 200 if it was not sent.
unfoldable pub call : WriterCall → ResponseWriter → ResponseWriter
unfolding send_header
call (set_header key value) w = record w { header = insert key value w.header }
call (del_header key) w = record w { header = delete key w.header }
call (set_cookie name value) w = record w { cookies = w.cookies ++ (name, value) ∷ [] }
call (write_header status) w = send_header status w
call (write text) w = let w' = send_header 200 w in record w' { body = String.◌++◌ w'.body text }

unfoldable pub play : List WriterCall → ResponseWriter → ResponseWriter
unfolding call
play [] w = w
play (c ∷ cs) w = play cs (call c w)

-- The status that the client sees: 200 where the handler wrote nothing.
abbrev pub status_of : ResponseWriter → ℕ
status_of w = elim w.sent [ none ↦ 200 | some (status, headers, cookies) ↦ status ]

-- A header that the client sees.
abbrev pub header_of : String → ResponseWriter → Option String
header_of key w = elim w.sent [
  | none ↦ lookup key w.header
  | some (status, headers, cookies) ↦ lookup key headers
]

-- The cookies that the client sees.
abbrev pub cookies_of : ResponseWriter → List (String × String)
cookies_of w = elim w.sent [ none ↦ w.cookies | some (status, headers, cookies) ↦ cookies ]

-- http.Error
abbrev pub http_error : String → ℕ → List WriterCall
http_error text code =
    del_header "Content-Length"
    ∷ set_header "Content-Type" "text/plain; charset=utf-8"
    ∷ set_header "X-Content-Type-Options" "nosniff"
    ∷ write_header code
    ∷ write (String.◌++◌ text "\n")
    ∷ []

-- An http.Request as far as the handlers read it.
pub record HttpRequest : Type 0 where
  -- `none` if reading the body fails
  pub body : Option String
  pub host : String
  -- r.Header.Get("X-Forwarded-Proto")
  pub forwarded_proto : String
  -- chi.URLParam(r, "id")
  pub url_param_id : String
