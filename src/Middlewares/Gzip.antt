-- ===== src/Middlewares/Gzip.antt =====
-- gzip.go of internal/middlewares, and the Reset methods of reset.gen.go that its pools use. The
-- package compress/gzip is a parameter. Writing to the client works.
pub mod Writing
pub mod Responses
pub mod Pools
use Prim.Native.String as Str
use shortener.Base.{
  ℕ, String, Bool, true, false, not, ◌&&◌, ◌||◌, ◌==◌, Option, none, some, List, [], ◌∷◌,
  if◌then◌else◌,
}
use shortener.Base.Dict.{lookup}
use shortener.Http.{
  WriterCall, ResponseWriter, set_header, del_header, set_cookie, write_header, write, new_writer,
  call, play, http_error,
}
use shortener.Headers.{parse_accept_encoding, parse_content_encoding}
use shortener.Pool.{Resetter, get, put}

-- compress/gzip: a Writer's state, the bytes that each of its calls writes to the writer behind it,
-- and a Reader; mime.ParseMediaType, strconv.ParseFloat and `q > 0`
pub record Gzip : Type 1 where
  pub Writer : Type 0
  -- gzip.Writer{} and gzip.NewWriter
  pub zero_writer : Writer
  pub new_writer : Writer
  pub write : String → Writer → Writer × String
  pub close : Writer → String
  pub Reader : Type 0
  pub zero_reader : Reader
  -- gzip.NewReader, and all that reading gives; `none` is an error
  pub new_reader : Option String → Option Reader
  pub read_all : Reader → Option String
  -- the errors of closing it or the body behind it
  pub close_fails : Reader → Bool
  pub parse_media_type : String → Option String
  pub Float : Type 0
  pub parse_float : String → Option Float
  pub one : Float
  pub is_positive : Float → Bool

module _ (gzip : Gzip) where
  -- compressWriter; `w` is whether it has the response's writer, which stands beside it, or nil
  pub record CompressWriter : Type 0 where
    pub w : Bool
    pub zw : Option gzip.Writer
    pub compressed : Bool
    pub wrote_header : Bool

  -- Reset of a compressWriter
  abbrev pub reset_writer : CompressWriter → CompressWriter
  reset_writer c = record {
    w = false;
    zw = elim c.zw [ none ↦ none | some z ↦ some gzip.zero_writer ];
    compressed = false;
    wrote_header = false;
  }

  -- compressWriterPool
  abbrev pub compress_writers : Resetter CompressWriter
  compress_writers = record {
    new = record { w = false; zw = none; compressed = false; wrote_header = false };
    reset = reset_writer;
  }

  -- newCompressWriter
  unfoldable pub new_compress_writer :
      ℕ → List CompressWriter → CompressWriter × List CompressWriter
  unfolding get
  new_compress_writer choice pool =
      let (c, pool') = get compress_writers choice pool in (record c { w = true }, pool')

  abbrev pub is_compressible : Option String → Bool
  is_compressible none = false
  is_compressible (some media_type) = media_type == "application/json" || media_type == "text/html"

  -- Header().Get("Content-Type")
  abbrev pub content_type : ResponseWriter → String
  content_type w = elim (lookup "Content-Type" w.header) [ none ↦ "" | some text ↦ text ]

  -- WriteHeader
  unfoldable pub compress_header :
      ℕ → CompressWriter × ResponseWriter → CompressWriter × ResponseWriter
  compress_header status (c, w) =
      if c.wrote_header
      then (c, w)
      else if is_compressible (gzip.parse_media_type (content_type w))
      then (
        record c { wrote_header = true; compressed = true; zw = some gzip.new_writer },
        call (write_header status) (call (set_header "Content-Encoding" "gzip") w),
      )
      else (record c { wrote_header = true }, call (write_header status) w)

  -- Write after the header; `none` is a nil pointer
  abbrev pub compress_body :
      String → CompressWriter × ResponseWriter → Option (CompressWriter × ResponseWriter)
  compress_body text (c, w) =
      if c.compressed
      then (elim c.zw [
        | none ↦ none
        | some z ↦
            let (z', bytes) = gzip.write text z in
            some (record c { zw = some z' }, call (write bytes) w)
      ])
      else some (c, call (write text) w)

  -- the methods of a compressWriter, as a handler calls them
  unfoldable pub compress_call :
      WriterCall → CompressWriter × ResponseWriter → Option (CompressWriter × ResponseWriter)
  unfolding compress_header
  compress_call (write_header status) s = some (compress_header status s)
  compress_call (write text) s =
      let (c, w) = s in compress_body text (if c.wrote_header then s else compress_header 200 s)
  compress_call (set_header key value) (c, w) = some (c, call (set_header key value) w)
  compress_call (del_header key) (c, w) = some (c, call (del_header key) w)
  compress_call (set_cookie name value) (c, w) = some (c, call (set_cookie name value) w)

  abbrev pub after : {A B : Type 0} → Option A → (A → Option B) → Option B
  after none k = none
  after (some a) k = k a

  unfoldable pub compress_calls :
      List WriterCall → CompressWriter × ResponseWriter → Option (CompressWriter × ResponseWriter)
  unfolding compress_call
  compress_calls [] s = some s
  compress_calls (c ∷ cs) s = after (compress_call c s) (compress_calls cs)

  -- Close of a compressWriter: the response, and the pool with the object
  unfoldable pub close_writer :
      CompressWriter × ResponseWriter → List CompressWriter → ResponseWriter × List CompressWriter
  unfolding put
  close_writer (c, w) pool =
      let plain : ResponseWriter × List CompressWriter =
        (w, put compress_writers (record c { w = false }) pool) in
      if c.compressed
      then (elim c.zw [
        | none ↦ plain
        | some z ↦ (
          call (write (gzip.close z)) w,
          put compress_writers (record c { zw = none; w = false }) pool,
        )
      ])
      else plain

  -- compressReader; `r` is whether it has the request's body, or nil
  pub record CompressReader : Type 0 where
    pub r : Bool
    pub zr : Option gzip.Reader

  -- Reset of a compressReader
  abbrev pub reset_reader : CompressReader → CompressReader
  reset_reader c = record {
    r = false;
    zr = elim c.zr [ none ↦ none | some z ↦ some gzip.zero_reader ];
  }

  -- compressReaderPool
  abbrev pub compress_readers : Resetter CompressReader
  compress_readers = record { new = record { r = false; zr = none }; reset = reset_reader }

  -- newCompressReader
  unfoldable pub new_compress_reader :
      ℕ → Option String → List CompressReader → Option (CompressReader × List CompressReader)
  unfolding get
  new_compress_reader choice body pool = elim (gzip.new_reader body) [
    | none ↦ none
    | some z ↦
        let (c, pool') = get compress_readers choice pool in
        some (record c { r = true; zr = some z }, pool')
  ]

  -- what reading the request's body gives through a compressReader
  abbrev pub body_of : CompressReader → Option String
  body_of c = elim c.zr [ none ↦ none | some z ↦ gzip.read_all z ]

  -- Close of a compressReader, which keeps the object out of the pool where closing fails
  unfoldable pub close_reader : CompressReader → List CompressReader → List CompressReader
  unfolding put
  close_reader c pool = elim c.zr [
    | none ↦ pool
    | some z ↦
        if gzip.close_fails z
        then pool
        else put compress_readers (record c { r = false; zr = none }) pool
  ]

  -- both pools
  pub record GzipPools : Type 0 where
    pub writers : List CompressWriter
    pub readers : List CompressReader

  abbrev contains : List String → String → Bool
  contains [] x = false
  contains (y ∷ ys) x = let rest = contains ys x in if y == x then true else rest

  -- `q, ok := acceptEncoding["gzip"]; ok && q > 0`
  abbrev pub accepts_gzip : String → Bool
  accepts_gzip header =
      elim (lookup "gzip" (parse_accept_encoding gzip.parse_float gzip.one header)) [
        | none ↦ false
        | some q ↦ gzip.is_positive q
      ]

  abbrev pub is_gzip : String → Bool
  is_gzip header = contains (parse_content_encoding header) "gzip"

  -- the handler behind, on the response's writer or on a compressWriter of the pool, which the
  -- deferred Close gives back; `none` is a panic on a nil pointer
  unfoldable pub respond :
      Bool
      → ℕ
      → List WriterCall
      → List CompressWriter
      → Option (ResponseWriter × List CompressWriter)
  unfolding new_compress_writer compress_calls close_writer
  respond false choice calls pool = some (play calls new_writer, pool)
  respond true choice calls pool =
      let (c, pool') = new_compress_writer choice pool in
      after (compress_calls calls (c, new_writer)) (λ s. some (close_writer s pool'))

  -- the failure of newCompressReader, which is answered on the response's writer
  unfoldable pub refuse_body : Bool → ℕ → List CompressWriter → ResponseWriter × List CompressWriter
  unfolding new_compress_writer close_writer
  refuse_body accepted choice pool =
      let w = play (http_error "Internal Server Error" 500) new_writer in
      if accepted
      then (let (c, pool') = new_compress_writer choice pool in close_writer (c, w) pool')
      else (w, pool)

  abbrev with_readers : {A : Type 0} → A × List CompressWriter → List CompressReader → A × GzipPools
  with_readers (a, writers) readers = (a, record { writers = writers; readers = readers })

  -- GzipMiddleware around a handler, which is the calls that it makes for the body that it reads
  unfoldable pub gzip_middleware :
      String
      → String
      → ℕ
      → ℕ
      → (Option String → List WriterCall)
      → Option String
      → GzipPools
      → Option (ResponseWriter × GzipPools)
  unfolding respond refuse_body new_compress_reader close_reader
  gzip_middleware accept content writer_choice reader_choice next body pools =
      if is_gzip content
      then (elim (new_compress_reader reader_choice body pools.readers) [
        | none ↦ some (
            with_readers (refuse_body (accepts_gzip accept) writer_choice pools.writers)
              pools.readers)
        | some (c, readers) ↦
            after (respond (accepts_gzip accept) writer_choice (next (body_of c)) pools.writers)
              (λ r. some (with_readers r (close_reader c readers)))
      ])
      else after (respond (accepts_gzip accept) writer_choice (next body) pools.writers)
          (λ r. some (with_readers r pools.readers))
