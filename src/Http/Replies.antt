-- ===== src/Http/Replies.antt =====
-- What the client sees of the sequences of calls that the handlers make.

use text.Mathlib.TextLemmas.{nil-append}
use shortener.Base.{ℕ, String, ◌≡◌, refl, some, List, [], ◌∷◌, ◌++◌, arith}
use shortener.Base.Dict.{insert}
use shortener.Http.{
  WriterCall, ResponseWriter, set_header, del_header, set_cookie, write_header, write, new_writer,
  send_header, call, play,
}

pub play-append :
    (xs ys : List WriterCall) (w : ResponseWriter) → play (xs ++ ys) w ≡ play ys (play xs w)
unfolding play
play-append [] ys w = refl
play-append (x ∷ xs) ys w = play-append xs ys (call x w)

-- The status, once it is sent, is the client's, whatever is called later.
pub play-sent :
    (cs : List WriterCall) (w : ResponseWriter) {sent : _}
    → w.sent ≡ some sent
    → (play cs w).sent ≡ some sent
unfolding play call send_header
play-sent [] w h = h
play-sent (set_header k v ∷ cs) w h = play-sent cs _ h
play-sent (del_header k ∷ cs) w h = play-sent cs _ h
play-sent (set_cookie k v ∷ cs) w h = play-sent cs _ h
play-sent (write_header s ∷ cs) w h = play-sent cs _ (ground arith)
play-sent (write t ∷ cs) w h = play-sent cs _ (ground arith)

-- A reply with a type, a status and a body.
pub play-reply :
    (kind text : String) (status : ℕ)
    → play (set_header "Content-Type" kind ∷ write_header status ∷ write text ∷ []) new_writer
      ≡ record {
        header = ("Content-Type", kind) ∷ [];
        cookies = [];
        sent = some (status, ("Content-Type", kind) ∷ [], []);
        body = text;
      }
unfolding play call send_header insert
play-reply kind text status = rw (nil-append text)
