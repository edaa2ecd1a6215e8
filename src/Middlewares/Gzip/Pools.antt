-- ===== src/Middlewares/Gzip/Pools.antt =====
-- Whatever objects the pools hand out, a response is as without them.
use mathlib.Core.Path.{subst}
use shortener.Base.{
  ℕ, zero, suc, String, Bool, true, false, ◌≡◌, refl, sym, ap, ◌∙◌, Option, none, some, List, [],
  ◌∷◌, ◌++◌, if◌then◌else◌, arith, Bool-cases, Option-cases, inl, inr,
}
use shortener.Base.Lists.{All}
use shortener.Base.Dict.{Dict, lookup, insert, delete, lookup-insert, lookup-delete, lookup-nil}
use shortener.Http.{
  WriterCall, ResponseWriter, set_header, del_header, set_cookie, write_header, write, new_writer,
  call, play, send_header, status_of, header_of,
}
use shortener.Pool.{Resetter, take_at, get, put}
use shortener.Middlewares.Gzip.{
  Gzip, CompressWriter, CompressReader, GzipPools, compress_writers, compress_readers,
  new_compress_writer, new_compress_reader, compress_calls, close_writer, close_reader, after,
  respond, is_gzip, accepts_gzip, gzip_middleware,
}
use shortener.Http.Sending.{NoEncoding, unsent_writer, sent_writer, play-sent}
use shortener.Middlewares.Gzip.Writing.{Unzips, decoded}
use shortener.Middlewares.Gzip.Responses.{Transparent-fresh}

-- Every object of the pool is as a new one.
abbrev pub AllNew : {A : Type 0} → Resetter A → List A → Type 0
AllNew r items = All (λ x. x ≡ r.new) items

take_at-AllNew :
    {A : Type 0} (r : Resetter A) (n : ℕ) (items : List A)
    → AllNew r items
    → ((take_at r.new n items).0 ≡ r.new) × AllNew r (take_at r.new n items).1
take_at-AllNew r n [] h = (refl, tt)
take_at-AllNew r zero (x ∷ xs) (new, h) = (new, h)
take_at-AllNew r (suc n) (x ∷ xs) (new, h) =
    let (taken, left) = take_at-AllNew r n xs h in (taken, (new, left))

-- A response of a handler that sets no encoding has none.
encoding-sent :
    (cs : List WriterCall) (header header' : Dict String)
    (cookies cookies' : List (String × String)) (status : ℕ) (body : String)
    → lookup "Content-Encoding" header' ≡ none
    → header_of "Content-Encoding"
        (play cs (sent_writer header cookies (status, header', cookies') body))
      ≡ none
encoding-sent cs header header' cookies cookies' status body bare =
    let (h, c, e) = play-sent cs header cookies (status, header', cookies') body in
    ap (header_of "Content-Encoding") e ∙ bare

encoding-play :
    (cs : List WriterCall) (header : Dict String) (cookies : List (String × String))
    → lookup "Content-Encoding" header ≡ none
    → NoEncoding cs
    → header_of "Content-Encoding" (play cs (unsent_writer header cookies)) ≡ none
unfolding play call send_header
encoding-play [] header cookies bare h = bare
encoding-play (write text ∷ cs) header cookies bare h =
    encoding-sent (write text ∷ cs) header header cookies cookies 200 "" bare
encoding-play (write_header status ∷ cs) header cookies bare h =
    encoding-sent cs header header cookies cookies status "" bare
encoding-play (set_header key value ∷ cs) header cookies bare ((other, sized), h) =
    encoding-play cs (insert key value header) cookies
      (lookup-insert key "Content-Encoding" value header ∙ rw other bare) h
encoding-play (del_header key ∷ cs) header cookies bare h =
    encoding-play cs (delete key header) cookies
      (ground (arith, lookup-delete key "Content-Encoding" header)) h
encoding-play (set_cookie name value ∷ cs) header cookies bare h =
    encoding-play cs header (cookies ++ (name, value) ∷ []) bare h

module _ (gzip : Gzip) (unzip : String → Option String) (unzips : Unzips gzip unzip) where
  -- The response as the client reads it, and the pool of writers then.
  abbrev Responded : ResponseWriter → Option (ResponseWriter × List (CompressWriter gzip)) → Type 0
  Responded w r =
      (w' : ResponseWriter) × (pool : List (CompressWriter gzip)) × (r ≡ some (w', pool))
      × AllNew (compress_writers gzip) pool
      × (status_of w' ≡ status_of w)
      × (decoded gzip unzip w' ≡ some w.body)

  respond-Responded :
      (accepted : Bool) (choice : ℕ) (cs : List WriterCall) (pool : List (CompressWriter gzip))
      → AllNew (compress_writers gzip) pool
      → NoEncoding cs
      → Responded (play cs new_writer) (respond gzip accepted choice cs pool)
  unfolding respond new_compress_writer get
  respond-Responded false choice cs pool h none_set = (
    play cs new_writer,
    pool,
    refl,
    h,
    refl,
    rw (encoding-play cs [] [] (lookup-nil "Content-Encoding") none_set) refl,
  )
  respond-Responded true choice cs pool h none_set =
      let (new, left) = take_at-AllNew (compress_writers gzip) choice pool h in
      let pool' = (take_at (compress_writers gzip).new choice pool).1 in
      let (w', e, status, body) =
        Transparent-fresh gzip unzip unzips pool' cs [] [] (lookup-nil "Content-Encoding")
          none_set in
      subst
        (λ c. Responded (play cs new_writer) (
          after gzip (compress_calls gzip cs (record c { w = true }, new_writer))
            (λ s. some (close_writer gzip s pool'))))
        (sym new) (w', _, e, (refl, left), status, body)

  -- The body that the handler behind reads, where the request is not refused.
  abbrev pub handed : String → Option String → Option (Option String)
  handed content body =
      if is_gzip gzip content
      then (elim (gzip.new_reader body) [ none ↦ none | some z ↦ some (gzip.read_all z) ])
      else some body

  abbrev pub AllNewPools : GzipPools gzip → Type 0
  AllNewPools pools =
      AllNew (compress_writers gzip) pools.writers × AllNew (compress_readers gzip) pools.readers

  -- The client reads the response of the handler, and the pools hold only what is as new.
  abbrev pub Served : ResponseWriter → Option (ResponseWriter × GzipPools gzip) → Type 0
  Served w r =
      (w' : ResponseWriter) × (pools : GzipPools gzip) × (r ≡ some (w', pools))
      × AllNewPools pools
      × (status_of w' ≡ status_of w)
      × (decoded gzip unzip w' ≡ some w.body)

  Served_of_Responded :
      (w : ResponseWriter) (r : Option (ResponseWriter × List (CompressWriter gzip)))
      (readers : List (CompressReader gzip))
      → AllNew (compress_readers gzip) readers
      → Responded w r
      → Served w (after gzip r (λ a. some (a.0, record { writers = a.1; readers = readers })))
  Served_of_Responded w r readers h (w', pool, e, fresh, status, body) =
      rw e (w', record { writers = pool; readers = readers }, refl, (fresh, h), status, body)

  close_reader-AllNew :
      (z : gzip.Reader) (pool : List (CompressReader gzip))
      → AllNew (compress_readers gzip) pool
      → AllNew (compress_readers gzip) (close_reader gzip (record { r = true; zr = some z }) pool)
  unfolding close_reader put
  close_reader-AllNew z pool h = elim (Bool-cases (gzip.close_fails z)) [
    | inl fails ↦ rw fails h
    | inr closes ↦ rw closes (refl, h)
  ]

  pub gzip_middleware-Served :
      (accept content : String) (writer_choice reader_choice : ℕ)
      (next : Option String → List WriterCall) (body seen : Option String) (pools : GzipPools gzip)
      → AllNewPools pools
      → handed content body ≡ some seen
      → NoEncoding (next seen)
      → Served
          (play (next seen) new_writer)
          (gzip_middleware gzip accept content writer_choice reader_choice next body pools)
  unfolding gzip_middleware new_compress_reader get
  gzip_middleware-Served accept content writer_choice reader_choice next body seen pools
        (writers, readers) passed none_set =
      elim (Bool-cases (is_gzip gzip content)) [
        | inl zipped ↦ elim (Option-cases (gzip.new_reader body)) [
          | inl fails ↦ absurd (ground arith)
          | inr (z, opened) ↦
              let readers' = (take_at (compress_readers gzip).new reader_choice pools.readers).1 in
              let left =
                close_reader-AllNew z readers'
                  (take_at-AllNew (compress_readers gzip) reader_choice pools.readers readers).1 in
              let same : seen ≡ gzip.read_all z = ground arith in
              rw (zipped, opened, gzip_middleware)
                (subst
                  (λ b. Served (play (next seen) new_writer) (
                    after gzip
                      (respond gzip (accepts_gzip gzip accept) writer_choice (next b) pools.writers)
                      (λ a. some (
                        a.0,
                        record {
                          writers = a.1;
                          readers = close_reader gzip (record { r = true; zr = some z }) readers';
                        },
                      ))))
                  same (served _ left))
        ]
        | inr raw ↦
            let same : seen ≡ body = ground arith in
            rw (raw, gzip_middleware)
              (subst
                (λ b. Served (play (next seen) new_writer) (
                  after gzip
                    (respond gzip (accepts_gzip gzip accept) writer_choice (next b) pools.writers)
                    (λ a. some (a.0, record { writers = a.1; readers = pools.readers }))))
                same (served pools.readers readers))
      ]
    where
      served :
          (left : List (CompressReader gzip))
          → AllNew (compress_readers gzip) left
          → Served (play (next seen) new_writer) (
              after gzip
                (respond gzip (accepts_gzip gzip accept) writer_choice (next seen) pools.writers)
                (λ a. some (a.0, record { writers = a.1; readers = left })))
      served left h =
          Served_of_Responded (play (next seen) new_writer)
            (respond gzip (accepts_gzip gzip accept) writer_choice (next seen) pools.writers) left h
            (respond-Responded (accepts_gzip gzip accept) writer_choice (next seen) pools.writers
              writers none_set)
