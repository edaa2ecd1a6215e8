-- ===== src/Client.antt =====
-- cmd/client/main.go: the client that posts a url to the server. The packages net/http and
-- retryablehttp are parameters: whether a request can be made, and what comes of handing it to the
-- client that NewHTTPClient makes, which may post it up to four times. The form is encoded as the
-- package net/url does it.
pub mod Escaping
pub mod Forms
use Prim.Native.Char.{Char, code}
use Prim.Native.String as Str
use shortener.Base.{
  ℕ, ◌+◌, ◌/◌, ◌%◌, String, Bool, true, false, ◌&&◌, ◌||◌, Option, none, some, List, [], ◌∷◌,
  if◌then◌else◌, leb, nat_eq,
}
use shortener.Base.Text.{◌+s◌}
use shortener.Errors.{Error, message, wrapped, Result, ok, err}
use shortener.Utils.{char_at_or}

-- the bytes of a character in UTF-8
unfoldable pub utf8 : Char → List ℕ
utf8 c =
    let n = code c in
    if leb n 127
    then n ∷ []
    else if leb n 2047
    then (192 + n / 64) ∷ (128 + n % 64) ∷ []
    else if leb n 65535
    then (224 + n / 4096) ∷ (128 + n / 64 % 64) ∷ (128 + n % 64) ∷ []
    else (240 + n / 262144) ∷ (128 + n / 4096 % 64) ∷ (128 + n / 64 % 64) ∷ (128 + n % 64) ∷ []

-- letters, digits and `-_.~`
unfoldable pub unreserved : Char → Bool
unreserved c =
    let n = code c in
    (leb b'a' n && leb n b'z')
    || (leb b'A' n && leb n b'Z')
    || (leb b'0' n && leb n b'9')
    || nat_eq n b'-'
    || nat_eq n b'_'
    || nat_eq n b'.'
    || nat_eq n b'~'

abbrev pub hex_digits : String
hex_digits = "0123456789ABCDEF"

unfoldable pub hex_digit : ℕ → Char
hex_digit n = char_at_or "0" hex_digits n

-- %XX for each byte
unfoldable pub percent : List ℕ → String
percent [] = ""
percent (b ∷ bytes) =
    Str.◌∷◌ "%" (Str.◌∷◌ (hex_digit (b / 16)) (Str.◌∷◌ (hex_digit (b % 16)) (percent bytes)))

unfoldable pub escape_char : Char → String
escape_char c =
    if unreserved c then Str.◌∷◌ c Str.[] else if nat_eq (code c) 32 then "+" else percent (utf8 c)

-- url.QueryEscape
unfoldable pub query_escape : String → String
query_escape Str.[] = ""
query_escape (Str.◌∷◌ c s) = escape_char c +s query_escape s

-- Encode of url.Values with one value for each key, in the order of the keys
unfoldable pub encode : List (String × String) → String
encode [] = ""
encode ((key, value) ∷ []) = query_escape key +s "=" +s query_escape value
encode ((key, value) ∷ v ∷ values) =
    query_escape key +s "=" +s query_escape value +s "&" +s encode (v ∷ values)

-- an http.Request by its method POST
pub record PostRequest : Type 0 where
  pub endpoint : String
  pub content_type : String
  pub body : String

-- makeRequest, given the error of http.NewRequest, if it has one
unfoldable pub make_request : Option Error → String → List (String × String) → Result PostRequest
make_request (some e) endpoint data' = err (wrapped "failed to create request" e)
make_request none endpoint data' = ok (record {
  endpoint = endpoint;
  content_type = "application/x-www-form-urlencoded";
  body = encode data';
})

-- ReadString('\n'): the text up to the first line break and with it, or io.EOF
unfoldable pub read_string : String → Option String
read_string Str.[] = none
read_string (Str.◌∷◌ c s) =
    let rest = read_string s in
    if nat_eq (code c) 10
    then some (Str.◌∷◌ c Str.[])
    else (elim rest [ none ↦ none | some line ↦ some (Str.◌∷◌ c line) ])

-- strings.TrimSuffix of "\n"
unfoldable pub trim_newline : String → String
trim_newline Str.[] = Str.[]
trim_newline (Str.◌∷◌ c Str.[]) = if nat_eq (code c) 10 then Str.[] else Str.◌∷◌ c Str.[]
trim_newline (Str.◌∷◌ c (Str.◌∷◌ d s)) = Str.◌∷◌ c (trim_newline (Str.◌∷◌ d s))

-- the end by log.Fatalf after some lines that were printed, or the lines that are printed
pub data Outcome : Type 0 where
  fatal : List String → String → Error → Outcome
  printed : List String → Outcome

-- what main prints after the prompt: the status, and the body
abbrev pub answered : Result (String × Result String) → Outcome
answered (err e) = fatal [] "Error sending request" e
answered (ok (status, err e)) = fatal (("Status code  " +s status) ∷ []) "Error reading response" e
answered (ok (status, ok body)) = printed (("Status code  " +s status) ∷ body ∷ [])

module _ (new_request : Option Error) (do' : PostRequest → Result (String × Result String)) where
  abbrev send : Result PostRequest → Outcome
  send (err e) = fatal [] "Error creating request" e
  send (ok request) = answered (do' request)

  abbrev pub of_line : Option String → Outcome
  of_line none = fatal [] "Error reading input line" (message "EOF")
  of_line (some long) =
      send (make_request new_request "http://localhost:8080/" (("url", trim_newline long) ∷ []))

  -- main, on what can be read from the console
  unfoldable pub run_client : String → Outcome
  run_client input = of_line (read_string input)
