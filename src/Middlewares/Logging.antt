-- ===== src/Middlewares/Logging.antt =====
-- LoggerMiddleware of logger.go: what it logs of the calls that a handler makes on its writer.
use shortener.Base.{ℕ, ◌+◌, String, ◌≡◌, refl, none, some, List, [], ◌∷◌, arith}
use shortener.Base.Dict.{Dict}
use shortener.Http.{
  WriterCall, ResponseWriter, set_header, del_header, set_cookie, write_header, write, new_writer,
  play, call, send_header, status_of,
}
use shortener.Handlers.Replies.{SendsOnce, OnlyWrites}
use text.Mathlib.TextPositions.{len-append}
use Prim.Native.String.{len}

-- responseData
pub record ResponseData : Type 0 where
  pub status : ℕ
  pub size : ℕ

-- loggingResponseWriter, with the writer that it wraps
pub record LoggingResponseWriter : Type 0 where
  pub response_writer : ResponseWriter
  pub response_data : ResponseData

-- Write and WriteHeader, and the methods of the wrapped writer; a write that works has the size of
-- its text
unfoldable pub log_call : WriterCall → LoggingResponseWriter → LoggingResponseWriter
log_call (write text) r = record {
  response_writer = call (write text) r.response_writer;
  response_data = record r.response_data { size = r.response_data.size + len text };
}
log_call (write_header status) r = record {
  response_writer = call (write_header status) r.response_writer;
  response_data = record r.response_data { status = status };
}
log_call (set_header key value) r = record r {
  response_writer = call (set_header key value) r.response_writer;
}
log_call (del_header key) r = record r { response_writer = call (del_header key) r.response_writer }
log_call (set_cookie name value) r = record r {
  response_writer = call (set_cookie name value) r.response_writer;
}

unfoldable pub log_calls : List WriterCall → LoggingResponseWriter → LoggingResponseWriter
unfolding log_call
log_calls [] r = r
log_calls (c ∷ cs) r = log_calls cs (log_call c r)

-- what LoggerMiddleware has when the handler is done: the response, and the data for its log line
unfoldable pub logger_middleware : List WriterCall → ResponseWriter → LoggingResponseWriter
unfolding log_calls
logger_middleware calls w =
    log_calls calls
      (record { response_writer = w; response_data = record { status = 0; size = 0 } })

-- Logging changes nothing of the response.
log_calls-play :
    (cs : List WriterCall) (r : LoggingResponseWriter)
    → (log_calls cs r).response_writer ≡ play cs r.response_writer
unfolding log_calls play
log_calls-play [] r = refl
log_calls-play (set_header k v ∷ cs) r = log_calls-play cs (log_call (set_header k v) r)
log_calls-play (del_header k ∷ cs) r = log_calls-play cs (log_call (del_header k) r)
log_calls-play (set_cookie k v ∷ cs) r = log_calls-play cs (log_call (set_cookie k v) r)
log_calls-play (write_header s ∷ cs) r = log_calls-play cs (log_call (write_header s) r)
log_calls-play (write t ∷ cs) r = log_calls-play cs (log_call (write t) r)

-- The logged size goes with the body.
log_calls-size :
    (cs : List WriterCall) (r : LoggingResponseWriter)
    → r.response_data.size ≡ len r.response_writer.body
    → (log_calls cs r).response_data.size ≡ len (log_calls cs r).response_writer.body
unfolding log_calls call send_header
log_calls-size [] r h = h
log_calls-size (set_header k v ∷ cs) r h = log_calls-size cs (log_call (set_header k v) r) h
log_calls-size (del_header k ∷ cs) r h = log_calls-size cs (log_call (del_header k) r) h
log_calls-size (set_cookie k v ∷ cs) r h = log_calls-size cs (log_call (set_cookie k v) r) h
log_calls-size (write_header s ∷ cs) r h =
    log_calls-size cs (log_call (write_header s) r) (ground arith)
log_calls-size (write t ∷ cs) r h =
    log_calls-size cs (log_call (write t) r) (ground (arith, len-append r.response_writer.body t))

-- After the header only writes come: neither status changes.
log_calls-OnlyWrites :
    (cs : List WriterCall) (r : LoggingResponseWriter)
    → OnlyWrites cs
    → (sent : ℕ × Dict String × List (String × String)) → r.response_writer.sent ≡ some sent
    → ((log_calls cs r).response_data.status ≡ r.response_data.status)
      × ((log_calls cs r).response_writer.sent ≡ some sent)
unfolding log_calls call send_header
log_calls-OnlyWrites [] r only sent h = (refl, h)
log_calls-OnlyWrites (set_header _ _ ∷ cs) r only sent h = elim only [ ]
log_calls-OnlyWrites (del_header _ ∷ cs) r only sent h = elim only [ ]
log_calls-OnlyWrites (set_cookie _ _ ∷ cs) r only sent h = elim only [ ]
log_calls-OnlyWrites (write_header _ ∷ cs) r only sent h = elim only [ ]
log_calls-OnlyWrites (write t ∷ cs) r only sent h =
    log_calls-OnlyWrites cs (log_call (write t) r) only sent (ground arith)

log_calls-SendsOnce :
    (cs : List WriterCall) (r : LoggingResponseWriter)
    → SendsOnce cs
    → r.response_writer.sent ≡ none
    → (log_calls cs r).response_data.status ≡ status_of (log_calls cs r).response_writer
unfolding log_calls call send_header
log_calls-SendsOnce [] r once h = elim once [ ]
log_calls-SendsOnce (write _ ∷ cs) r once h = elim once [ ]
log_calls-SendsOnce (set_header k v ∷ cs) r once h =
    log_calls-SendsOnce cs (log_call (set_header k v) r) once h
log_calls-SendsOnce (del_header k ∷ cs) r once h =
    log_calls-SendsOnce cs (log_call (del_header k) r) once h
log_calls-SendsOnce (set_cookie k v ∷ cs) r once h =
    log_calls-SendsOnce cs (log_call (set_cookie k v) r) once h
log_calls-SendsOnce (write_header s ∷ cs) r once h = ground (
  arith,
  log_calls-OnlyWrites cs (log_call (write_header s) r) once
      (s, r.response_writer.header, r.response_writer.cookies),
)

-- A response that sends its header once, before any of its body, passes the logger unchanged, and
-- the logged status and size are those that the client gets.
pub logger_middleware-SendsOnce :
    (calls : List WriterCall)
    → SendsOnce calls
    → let logged = logger_middleware calls new_writer in
      (logged.response_writer ≡ play calls new_writer)
      × (logged.response_data.status ≡ status_of logged.response_writer)
      × (logged.response_data.size ≡ len logged.response_writer.body)
unfolding logger_middleware
logger_middleware-SendsOnce calls once =
    let start : LoggingResponseWriter = record {
      response_writer = new_writer;
      response_data = record { status = 0; size = 0 };
    } in
    (
      log_calls-play calls start,
      log_calls-SendsOnce calls start once refl,
      log_calls-size calls start refl,
    )
