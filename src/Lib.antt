-- ===== src/Lib.antt =====
-- The url shortener: its start, its configuration, storages, service, HTTP and gRPC handlers,
-- middlewares, servers and audit, and their shutdown; its command line client; the generator of
-- Reset methods and the analyzer that it is built with.
--
-- A request passes AuditMiddleware and, on the routes that need a user, AuthMiddleware; then a
-- handler of internal/handlers calls the service of internal/service, which calls a storage of
-- internal/repository. When the handler is done the audit middleware sends an event with what it
-- left in the request's AuditData.
--
-- - Base: names of the library, and Go's maps (Base/Dict), text functions (Base/Text), Boolean
--   tests and lists. The operators on lists and maps keep the source's behaviour on missing keys.
-- - Errors: internal/repository/errors.go and internal/service/errors.go, with errors.Is and
--   errors.As. A Result is a pair (T, error) whose value counts only without an error.
-- - Models: internal/models. Context: internal/requests/context.go and a context's Done.
-- - Repository: internal/repository/storage.go. Its children are Memory (memory.go), Disk (the
--   operating system's file and encoding/json), File (file.go), Database (db.go), and Requests
--   (sequences of calls of any storage). A method takes the storage's state and gives its result
--   and the new state. The mutex makes each method one step, so that an interleaving of requests is
--   a sequence of such calls.
-- - Utils: internal/utils/generators.go. Service: internal/service/service.go, over any storage.
-- - Http: the calls on a ResponseWriter and what net/http makes of them. Handlers:
--   internal/handlers/handlers.go and api.go, over any storage. The goroutine that a deletion
--   starts is a task that runs after the answer.
-- - Auth: internal/auth/jwt.go. Middlewares: auth.go, audit.go and subnet.go of
--   internal/middlewares, as functions on handlers, with logger.go in Middlewares/Logging. Headers:
--   internal/requests/headers.go.
-- - Server: the routes of internal/server/server.go, and in Server/Compression the compression in
--   front. Server/Calls: the methods of internal/server/grpc.go behind their interceptors.
--   Server/Transports is about one storage behind both servers.
-- - Grpc: internal/handlers/grpc.go, and the interceptors of auth.go and audit.go.
-- - Middlewares/Gzip: internal/middlewares/gzip.go and reset.gen.go, with the pools of Pool,
--   internal/pool/pool.go.
-- - Audit: internal/audit/audit.go. The requests that call NotifyAll, the channel and the workers
--   are one state, on which a step is what one goroutine does: an interleaving is a sequence of
--   steps. Audit/Observers: internal/audit/file.go and http.go.
-- - Config: internal/config/config.go, and GetStorage of internal/repository/storage.go.
-- - Main: cmd/shortener/main.go up to its select, and Initialize of internal/logger/logger.go.
--   Main/Process: the running program, with Shutdown of both servers and WaitForBackground. Its
--   state has main's phase, the numbers of requests, calls and deletions that run, who sent which
--   tasks, and the audit's state; a step is what one goroutine does. A wait for requests, calls or
--   deletions that main gives up, or never comes to since a server ends by itself or a panic ends
--   the process, is noted as cut. Of net/http and grpc it relies on what their documentation says
--   of Shutdown and GracefulStop.
-- - Client: cmd/client/main.go. The client that NewHTTPClient makes, with its retries, is a
--   parameter.
-- - Reset: cmd/reset/main.go, which finds the marked structs and writes a Reset method for each.
--   Reset/Syntax has the types and the statements that it handles, and Reset/Safety runs them.
--   Reset/Typing has the rules of Go by which they type-check.
-- - Staticlint: cmd/staticlint/exitcheck/exitcheck.go, over syntax trees by what it looks at in
--   them, with ast.Inspect as its documentation has it.
-- - Tests: the theorems at concrete inputs.
--
-- What Go leaves open is a parameter: the order of a range over a map (`visit`), the random bytes
-- of crypto/rand, the time, the JSON codec, the package jwt, the packages flag, env and gzip,
-- go/types, database/sql with its server, the object that a sync.Pool hands out, and the outcomes
-- of the system calls. A write that fails may leave a part of its text, up to any byte. The loops of the
-- source are recursions on their lists, but for two: resetStatement, which follows types that may
-- lead back to themselves, and findRootDir, which goes up a path. They have fuel, one for each
-- nested call and each directory; a type's weight, and a path's depth and one more, are enough.
-- Of PostgreSQL the laws are those of its documentation for texts within the limits of the
-- migrations, which Repository/Database/Texts states. What a client makes of a Content-Length is
-- not part of Http: where that matters, the theorems have it that none is set.
-- Numbers are natural numbers: the program computes with lengths, sizes, times and settings, and
-- negative settings are left out.
--
-- Not modelled: PostgreSQL itself, and the migrations; the loading of packages, and the printing
-- and writing of generated files; how the observers of the audit open and close their file and
-- client; the sockets that the servers listen on, the profiler's server, and which signal came;
-- the matching of paths; main of cmd/staticlint, which picks analyzers of other packages by their
-- names and hands them to one that runs them; the log lines, on which no
-- answer depends; the attributes of a cookie beside its name and value; the texts of the operating
-- system's errors.
pub mod Audit
pub mod Auth
pub mod Base
pub mod Client
pub mod Config
pub mod Context
pub mod Errors
pub mod Grpc
pub mod Handlers
pub mod Headers
pub mod Http
pub mod Main
pub mod Middlewares
pub mod Models
pub mod Pool
pub mod Repository
pub mod Reset
pub mod Server
pub mod Service
pub mod Staticlint
pub mod Tests
pub mod Utils
