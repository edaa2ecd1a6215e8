-- ===== src/Middlewares/Gzip/Responses.antt =====
-- What the client makes of a response that passed the compression.

use text.Mathlib.TextLemmas.{nil-append}
use mathlib.Core.Path.{subst}
use shortener.Base.{
  ℕ, String, ◌≡◌, refl, sym, ap, ◌∙◌, Option, none, some, List, [], ◌∷◌, ◌++◌, arith, inl, inr,
}
use shortener.Base.Dict.{Dict, lookup, insert, delete, lookup-insert, lookup-delete}
use shortener.Http.{
  WriterCall, ResponseWriter, set_header, del_header, set_cookie, write_header, write, call, play,
  send_header, status_of,
}
use shortener.Pool.{put}
use shortener.Base.Text.{◌+s◌}
use shortener.Middlewares.Gzip.{
  Gzip, CompressWriter, compress_writers, compress_header, compress_call, compress_calls,
  close_writer, after, compress_body,
}
use shortener.Http.Sending.{texts_of, joined, NoEncoding, sent_writer, unsent_writer, play-sent}
use shortener.Middlewares.Gzip.Writing.{
  feed, Unzips, decoded_as, decoded, zipping, plain, fresh, compress_calls-plain,
  compress_calls-zipping, compress_header-cases,
}

module _ (gzip : Gzip) where
  -- The client reads the status and the body that the handler sent, and the object is as a new one.
  abbrev pub Transparent :
      (String → Option String)
      → ResponseWriter
      → List (CompressWriter gzip)
      → Option (ResponseWriter × List (CompressWriter gzip))
      → Type 0
  Transparent unzip w pool r =
      (w' : ResponseWriter) × (r ≡ some (w', (compress_writers gzip).new ∷ pool))
      × (status_of w' ≡ status_of w)
      × (decoded gzip unzip w' ≡ some w.body)

  abbrev closing :
      List (CompressWriter gzip)
      → CompressWriter gzip × ResponseWriter
      → Option (ResponseWriter × List (CompressWriter gzip))
  closing pool s = some (close_writer gzip s pool)

  module _ (unzip : String → Option String) (unzips : Unzips gzip unzip)
      (pool : List (CompressWriter gzip)) where
    -- once the header is sent
    Transparent-zipping :
        (cs : List WriterCall) (header header' : Dict String) (cookies : List (String × String))
        (status : ℕ)
        → lookup "Content-Encoding" header' ≡ some "gzip"
        → Transparent unzip
            (play cs (sent_writer header cookies (status, header, cookies) ""))
            pool
            (after gzip
              (compress_calls gzip cs (
                zipping gzip gzip.new_writer,
                sent_writer header' cookies (status, header', cookies) "",
              ))
              (closing pool))
    unfolding close_writer put call send_header
    Transparent-zipping cs header header' cookies status named =
        let (h, c, e) = play-sent cs header cookies (status, header, cookies) "" in
        let (h', c', e') =
          compress_calls-zipping gzip cs gzip.new_writer header' cookies (status, header', cookies)
            "" in
        let texts = texts_of cs in
        let (z, bytes) = feed gzip texts gzip.new_writer in
        rw (e', e)
          (
            sent_writer h' c' (status, header', cookies) (("" +s bytes) +s gzip.close z),
            refl,
            refl,
            ap (decoded_as gzip unzip (("" +s bytes) +s gzip.close z)) named
                ∙ ap (λ (b : String). unzip (b +s gzip.close z)) (nil-append bytes)
                ∙ unzips texts
                ∙ ap some (sym (nil-append (joined texts))),
          )

    Transparent-plain :
        (cs : List WriterCall) (header : Dict String) (cookies : List (String × String))
        (status : ℕ)
        → lookup "Content-Encoding" header ≡ none
        → Transparent unzip
            (play cs (sent_writer header cookies (status, header, cookies) ""))
            pool
            (after gzip
              (compress_calls gzip cs
                (plain gzip, sent_writer header cookies (status, header, cookies) ""))
              (closing pool))
    unfolding close_writer put
    Transparent-plain cs header cookies status bare =
        let (h, c, e) = play-sent cs header cookies (status, header, cookies) "" in
        rw (compress_calls-plain gzip cs header cookies (status, header, cookies) "", e)
          (
            sent_writer h c (status, header, cookies) ("" +s joined (texts_of cs)),
            refl,
            refl,
            ap (decoded_as gzip unzip ("" +s joined (texts_of cs))) bare,
          )

    named :
        (header : Dict String)
        → lookup "Content-Encoding" (insert "Content-Encoding" "gzip" header) ≡ some "gzip"
    named header = lookup-insert "Content-Encoding" "Content-Encoding" "gzip" header

    -- before the header is sent
    pub Transparent-fresh :
        (cs : List WriterCall) (header : Dict String) (cookies : List (String × String))
        → lookup "Content-Encoding" header ≡ none
        → NoEncoding cs
        → Transparent unzip (play cs (unsent_writer header cookies)) pool (
            after gzip
              (compress_calls gzip cs (fresh gzip, unsent_writer header cookies))
              (closing pool))
    unfolding compress_calls compress_call compress_header close_writer put play call send_header
    Transparent-fresh [] header cookies bare none_set =
        (unsent_writer header cookies, refl, refl, ap (decoded_as gzip unzip "") bare)
    Transparent-fresh (write text ∷ cs) header cookies bare none_set =
        elim (compress_header-cases gzip 200 header cookies) [
          | inl zips ↦
              subst
                (λ s.
                  Transparent unzip (play (write text ∷ cs) (unsent_writer header cookies)) pool (
                    after gzip (after gzip (compress_body gzip text s) (compress_calls gzip cs))
                      (closing pool)))
                (sym zips)
                (Transparent-zipping (write text ∷ cs) header
                  (insert "Content-Encoding" "gzip" header) cookies 200 (named header))
          | inr leaves ↦
              subst
                (λ s.
                  Transparent unzip (play (write text ∷ cs) (unsent_writer header cookies)) pool (
                    after gzip (after gzip (compress_body gzip text s) (compress_calls gzip cs))
                      (closing pool)))
                (sym leaves) (Transparent-plain (write text ∷ cs) header cookies 200 bare)
        ]
    Transparent-fresh (write_header status ∷ cs) header cookies bare none_set =
        elim (compress_header-cases gzip status header cookies) [
          | inl zips ↦
              subst
                (λ s.
                  Transparent unzip (play (write_header status ∷ cs) (unsent_writer header cookies))
                    pool (after gzip (compress_calls gzip cs s) (closing pool)))
                (sym zips)
                (Transparent-zipping cs header (insert "Content-Encoding" "gzip" header) cookies
                  status (named header))
          | inr leaves ↦
              subst
                (λ s.
                  Transparent unzip (play (write_header status ∷ cs) (unsent_writer header cookies))
                    pool (after gzip (compress_calls gzip cs s) (closing pool)))
                (sym leaves) (Transparent-plain cs header cookies status bare)
        ]
    Transparent-fresh (set_header key value ∷ cs) header cookies bare ((other, sized), none_set) =
        Transparent-fresh cs (insert key value header) cookies
          (lookup-insert key "Content-Encoding" value header ∙ rw other bare) none_set
    Transparent-fresh (del_header key ∷ cs) header cookies bare none_set =
        Transparent-fresh cs (delete key header) cookies
          (ground (arith, lookup-delete key "Content-Encoding" header)) none_set
    Transparent-fresh (set_cookie name value ∷ cs) header cookies bare none_set =
        Transparent-fresh cs header (cookies ++ (name, value) ∷ []) bare none_set
