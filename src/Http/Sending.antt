-- ===== src/Http/Sending.antt =====
-- What a sequence of calls on a ResponseWriter comes to once the header is sent.

use text.Mathlib.TextLemmas.{append-nil, append_assoc}
use mathlib.Core.Path.{subst}
use shortener.Base.{ℕ, String, false, ◌==◌, ◌≡◌, sym, ap, none, some, List, [], ◌∷◌, ◌++◌}
use shortener.Base.Dict.{Dict, insert, delete}
use shortener.Http.{
  WriterCall, ResponseWriter, set_header, del_header, set_cookie, write_header, write, call, play,
  send_header,
}
use shortener.Base.Text.{◌+s◌}

-- the texts that a handler writes
abbrev pub texts_of : List WriterCall → List String
texts_of [] = []
texts_of (write text ∷ cs) = text ∷ texts_of cs
texts_of (write_header status ∷ cs) = texts_of cs
texts_of (set_header key value ∷ cs) = texts_of cs
texts_of (del_header key ∷ cs) = texts_of cs
texts_of (set_cookie name value ∷ cs) = texts_of cs

abbrev pub joined : List String → String
joined [] = ""
joined (text ∷ texts) = text +s joined texts

-- The handler sets neither the encoding nor the length of its response.
abbrev pub NoEncoding : List WriterCall → Type 0
NoEncoding [] = Unit
NoEncoding (write text ∷ cs) = NoEncoding cs
NoEncoding (write_header status ∷ cs) = NoEncoding cs
NoEncoding (set_header key value ∷ cs) =
    (((key == "Content-Encoding") ≡ false) × ((key == "Content-Length") ≡ false)) × NoEncoding cs
NoEncoding (del_header key ∷ cs) = NoEncoding cs
NoEncoding (set_cookie name value ∷ cs) = NoEncoding cs

-- a writer whose header is sent, and one whose header is not
abbrev pub Sent : Type 0
Sent = ℕ × Dict String × List (String × String)

abbrev pub sent_writer : Dict String → List (String × String) → Sent → String → ResponseWriter
sent_writer header cookies h body = record {
  header = header;
  cookies = cookies;
  sent = some h;
  body = body;
}

abbrev pub unsent_writer : Dict String → List (String × String) → ResponseWriter
unsent_writer header cookies = record { header = header; cookies = cookies; sent = none; body = "" }

-- After the header only the texts count.
abbrev pub PlayedTo : ResponseWriter → Sent → String → Type 0
PlayedTo w h body =
    (header : Dict String) × (cookies : List (String × String)) × (w
      ≡ sent_writer header cookies h body)

pub play-sent :
    (cs : List WriterCall) (header : Dict String) (cookies : List (String × String)) (h : Sent)
    (body : String)
    → PlayedTo (play cs (sent_writer header cookies h body)) h (body +s joined (texts_of cs))
unfolding play call send_header
play-sent [] header cookies h body =
    (header, cookies, ap (sent_writer header cookies h) (sym (append-nil body)))
play-sent (write text ∷ cs) header cookies h body =
    subst (PlayedTo (play cs (sent_writer header cookies h (body +s text))) h)
      (append_assoc body text (joined (texts_of cs))) (play-sent cs header cookies h (body +s text))
play-sent (write_header status ∷ cs) header cookies h body = play-sent cs header cookies h body
play-sent (set_header key value ∷ cs) header cookies h body =
    play-sent cs (insert key value header) cookies h body
play-sent (del_header key ∷ cs) header cookies h body =
    play-sent cs (delete key header) cookies h body
play-sent (set_cookie name value ∷ cs) header cookies h body =
    play-sent cs header (cookies ++ (name, value) ∷ []) h body
