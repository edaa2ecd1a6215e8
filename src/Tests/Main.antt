-- ===== src/Tests/Main.antt =====
-- The theorems on main.go for a program with an audit's file, https and one request.
use shortener.Base.{ℕ, ◌/◌, true, false, ◌≡◌, ◌↔◌, refl, none, some, [], ◌∷◌, arith}
use shortener.Models.{AuditEvent, follow}
use shortener.Errors.{ok}
use shortener.Config.{
  World, Floats, defaults, second, load_config, config_file_of, get_storage, set_from_flags,
  set_from_env, https_port, load_rest, memory,
}
use shortener.Config.Precedence.{nothing}
use shortener.Repository.Memory.{new_mem_storage}
use shortener.Audit.{file_observer, start_workers, init_audit, register, notify_all}
use shortener.Audit.Draining.{Delivered}
use shortener.Main.{Outside, Serving, serving, start, initialize}
use shortener.Main.Starting.{Made, start-Made}
use shortener.Main.Process.{
  Transport, Process, Phase, Activity, Control, work, control, launch, Reach, launched, later,
}
use shortener.Main.Steps.{Steps, Steps-Reach}
use shortener.Main.Delivery.{main-Delivered}
use shortener.Main.Returning.{CanReturn, main-CanReturn}
use shortener.Main.Losing.{main-CanLose}
use shortener.Server.{new_server}

abbrev exact : Floats
exact = record { Float = ℕ; seconds = λ d. d; whole = λ d. d / second }

abbrev world : World ℕ
world = record {
  dotenv = none;
  args = [];
  config_variable = "";
  read_file = λ path. ok path;
  unmarshal = λ text. ok nothing;
  flags = ok nothing;
  env = record nothing { audit_file = some "log"; enable_https = some true };
}

abbrev outside : Outside ℕ (Unit {0}) (Unit {0}) (Unit {0})
outside = record {
  world = world;
  parse_level = λ level. none;
  build_logger = λ level. none;
  new_db_storage = λ url migrations. ok tt;
  new_file_storage = λ path. ok tt;
  open_audit = λ path. none;
  parse_ip = λ text. some tt;
  parse_cidr = λ text. ok (λ ip. true);
  load_certificate = λ cert key. none;
}

abbrev served : Serving (Unit {0}) (Unit {0}) (Unit {0})
served = record {
  config = record defaults { run_addr = ":443"; audit_file = "log"; enable_https = true };
  store = memory new_mem_storage;
  service = record { show_addr = ""; id_size = 8 };
  auditor = record (start_workers 100) { observers = file_observer "log" ∷ [] };
  http = record {
    cookie_secret = "";
    max_parallel_workers = 100;
    parse_ip = λ text. some tt;
    trusted_subnet = none;
  };
  https = true;
  grpc_tls = true;
}

start-served : start exact outside ≡ serving served
unfolding start load_config load_rest config_file_of set_from_flags set_from_env https_port
    get_storage init_audit register new_server initialize
start-served = refl

start-Made_example : (start exact outside ≡ serving served) ↔ Made exact outside served
start-Made_example = start-Made exact outside served

abbrev visited : AuditEvent
visited = record { timestamp = 1; action = follow; user_id = "anna"; url = "u" }

-- a signal has come, one request is in its handler and another is in NotifyAll
abbrev signalled : Process
signalled = record (launch served) {
  phase = Phase.http_stopping;
  http_listening = false;
  http = 1;
  owners = Transport.http_request ∷ [];
  auditor = record served.auditor {
    senders = notify_all served.auditor.observers visited 0 ∷ [];
    events = visited ∷ [];
  };
}

signalled-Reach : Reach exact outside 100 signalled
signalled-Reach =
    later
      (later
        (later (later (launched served start-served refl) (work refl (Activity.http_arrives refl)))
          (work refl (Activity.http_arrives refl)))
        (work refl (Activity.http_notifies 1 visited refl)))
      (control (Control.signal refl))

main-CanReturn_example : CanReturn 100 signalled
main-CanReturn_example =
    main-CanReturn exact outside 100 (omega arith) signalled signalled-Reach (λ e. cc) refl

-- the way to the end
signalled-CanReturn : CanReturn 100 signalled
signalled-CanReturn =
    main-CanReturn exact outside 100 (omega arith) signalled signalled-Reach (λ e. cc) refl

abbrev ended : Process
ended = signalled-CanReturn.0

main-Delivered_example :
    (ended.http ≡ 0)
    × (ended.grpc ≡ 0)
    × Delivered ended.auditor
    × (ended.auditor.lost ≡ [])
    × (ended.background_cut ≡ false → ended.background ≡ 0)
main-Delivered_example =
    main-Delivered exact outside 100 ended (Steps-Reach signalled-CanReturn.1 signalled-Reach)
      signalled-CanReturn.2 signalled-CanReturn.3 signalled-CanReturn.5

main-CanLose_example :
    (q : Process) × Steps 100 signalled q
    × (q.phase ≡ Phase.returned)
    × (q.auditor.lost ≡ notify_all (file_observer "log" ∷ []) visited 1)
main-CanLose_example =
    main-CanLose exact outside 100 signalled 0 visited (file_observer "log") [] signalled-Reach refl
      refl refl
