-- ===== src/Middlewares/Gzip/Writing.antt =====
-- The calls of a handler on a compressWriter, before and after it has sent the header.

use text.Mathlib.TextLemmas.{append-nil, append_assoc}
use mathlib.Core.Path.{subst}
use shortener.Base.{
  ℕ, String, true, false, ◌≡◌, refl, sym, ap, Option, none, some, List, [], ◌∷◌, ◌++◌, Bool-cases,
  inl, inr, ◌⊎◌,
}
use shortener.Base.Dict.{Dict, insert, delete}
use shortener.Http.{
  WriterCall, ResponseWriter, set_header, del_header, set_cookie, write_header, write, call, play,
  send_header, header_of,
}
use shortener.Base.Text.{◌+s◌}
use shortener.Middlewares.Gzip.{
  Gzip, CompressWriter, compress_header, compress_call, compress_calls, is_compressible,
  content_type,
}
use shortener.Http.Sending.{texts_of, joined, Sent, sent_writer, unsent_writer}

module _ (gzip : Gzip) where
  -- what a gzip.Writer writes for texts, and its state then
  abbrev pub feed : List String → gzip.Writer → gzip.Writer × String
  feed [] z = (z, "")
  feed (text ∷ texts) z =
      let (z', bytes) = gzip.write text z in let (z'', more) = feed texts z' in (z'', bytes +s more)

  -- Unzipping what a Writer has written for texts, and at its Close, gives the texts.
  abbrev pub Unzips : (String → Option String) → Type 0
  Unzips unzip =
      (texts : List String)
      → unzip ((feed texts gzip.new_writer).1 +s gzip.close (feed texts gzip.new_writer).0)
        ≡ some (joined texts)

  -- the body that a client reads, who undoes an encoding that the header names
  abbrev pub decoded_as : (String → Option String) → String → Option String → Option String
  decoded_as unzip body none = some body
  decoded_as unzip body (some encoding) = unzip body

  abbrev pub decoded : (String → Option String) → ResponseWriter → Option String
  decoded unzip w = decoded_as unzip w.body (header_of "Content-Encoding" w)

  -- a compressWriter that compresses, and one that does not
  abbrev pub zipping : gzip.Writer → CompressWriter gzip
  zipping z = record { w = true; zw = some z; compressed = true; wrote_header = true }

  abbrev pub plain : CompressWriter gzip
  plain = record { w = true; zw = none; compressed = false; wrote_header = true }

  abbrev pub fresh : CompressWriter gzip
  fresh = record { w = true; zw = none; compressed = false; wrote_header = false }

  pub compress_calls-plain :
      (cs : List WriterCall) (header : Dict String) (cookies : List (String × String)) (h : Sent)
      (body : String)
      → compress_calls gzip cs (plain, sent_writer header cookies h body)
        ≡ some (plain, play cs (sent_writer header cookies h body))
  unfolding compress_calls compress_call compress_header play call send_header
  compress_calls-plain [] header cookies h body = refl
  compress_calls-plain (write text ∷ cs) header cookies h body =
      compress_calls-plain cs header cookies h (body +s text)
  compress_calls-plain (write_header status ∷ cs) header cookies h body =
      compress_calls-plain cs header cookies h body
  compress_calls-plain (set_header key value ∷ cs) header cookies h body =
      compress_calls-plain cs (insert key value header) cookies h body
  compress_calls-plain (del_header key ∷ cs) header cookies h body =
      compress_calls-plain cs (delete key header) cookies h body
  compress_calls-plain (set_cookie name value ∷ cs) header cookies h body =
      compress_calls-plain cs header (cookies ++ (name, value) ∷ []) h body

  -- The compressing writer has passed on the bytes and is in that state.
  abbrev pub ZippedTo :
      Option (CompressWriter gzip × ResponseWriter) → gzip.Writer → Sent → String → Type 0
  ZippedTo r z h body =
      (header : Dict String) × (cookies : List (String × String)) × (r
        ≡ some (zipping z, sent_writer header cookies h body))

  pub compress_calls-zipping :
      (cs : List WriterCall) (z : gzip.Writer) (header : Dict String)
      (cookies : List (String × String)) (h : Sent) (body : String)
      → ZippedTo
          (compress_calls gzip cs (zipping z, sent_writer header cookies h body))
          (feed (texts_of cs) z).0
          h
          (body +s (feed (texts_of cs) z).1)
  unfolding compress_calls compress_call compress_header call send_header
  compress_calls-zipping [] z header cookies h body = (
    header,
    cookies,
    ap (λ (b : String). some (zipping z, sent_writer header cookies h b)) (sym (append-nil body)),
  )
  compress_calls-zipping (write text ∷ cs) z header cookies h body =
      let (z', bytes) = gzip.write text z in
      subst
        (ZippedTo
          (compress_calls gzip cs (zipping z', sent_writer header cookies h (body +s bytes)))
          (feed (texts_of cs) z').0 h)
        (append_assoc body bytes (feed (texts_of cs) z').1)
        (compress_calls-zipping cs z' header cookies h (body +s bytes))
  compress_calls-zipping (write_header status ∷ cs) z header cookies h body =
      compress_calls-zipping cs z header cookies h body
  compress_calls-zipping (set_header key value ∷ cs) z header cookies h body =
      compress_calls-zipping cs z (insert key value header) cookies h body
  compress_calls-zipping (del_header key ∷ cs) z header cookies h body =
      compress_calls-zipping cs z (delete key header) cookies h body
  compress_calls-zipping (set_cookie name value ∷ cs) z header cookies h body =
      compress_calls-zipping cs z header (cookies ++ (name, value) ∷ []) h body

  -- The header is sent with the encoding, or as it is.
  pub compress_header-cases :
      (status : ℕ) (header : Dict String) (cookies : List (String × String))
      → let header' = insert "Content-Encoding" "gzip" header in
        (compress_header gzip status (fresh, unsent_writer header cookies)
          ≡ (zipping gzip.new_writer, sent_writer header' cookies (status, header', cookies) ""))
        ⊎ (compress_header gzip status (fresh, unsent_writer header cookies)
            ≡ (plain, sent_writer header cookies (status, header, cookies) ""))
  unfolding compress_header call send_header
  compress_header-cases status header cookies =
      elim (Bool-cases (
        is_compressible gzip
          (gzip.parse_media_type (content_type gzip (unsent_writer header cookies))))) [
            | inl zips ↦ inl (rw zips refl)
            | inr leaves ↦ inr (rw leaves refl)
          ]
