-- ===== src/Main.antt =====
-- cmd/shortener/main.go: what main makes before it serves. What the operating system and the packages
-- answer is a parameter; log.Fatalf and Fatal of the package zap end the process at once, so that no
-- deferred call runs after them.
pub mod Starting
pub mod Process
pub mod Quiet
pub mod Invariant
pub mod Delivery
pub mod Steps
pub mod Returning
pub mod Losing
use shortener.Base.{ℕ, String, Bool, true, false, Option, none, some, List, [], ◌∷◌, if◌then◌else◌}
use shortener.Base.Text.{is_empty, ◌+s◌}
use shortener.Errors.{Error, wrapped, Result, ok, err}
use shortener.Config.{
  Config, Floats, World, Loaded, fatal, loaded, load_config, Chosen, get_storage,
}
use shortener.Service.{ServiceConfig}
use shortener.Audit
use shortener.Audit.{Audit, init_audit}
use shortener.Server.{ServerConfig, new_server}

-- orNA
unfoldable pub or_na : String → String
or_na s = if is_empty s then "N/A" else s

-- the lines that main prints first, of its build version, date and commit
unfoldable pub banner : String → String → String → List String
unfolding or_na
banner build_version build_date build_commit =
    ("Build version: " +s or_na build_version)
    ∷ ("Build date: " +s or_na build_date)
    ∷ ("Build commit: " +s or_na build_commit)
    ∷ []

-- what the calls of main lead to: zap.ParseAtomicLevel and Build, the storages, the audit's file,
-- the packages net and tls
pub record Outside (Float D F Ip : Type 0) : Type 0 where
  pub world : World Float
  pub parse_level : String → Option Error
  pub build_logger : String → Option Error
  pub new_db_storage : String → String → Result D
  pub new_file_storage : String → Result F
  pub open_audit : String → Option Error
  pub parse_ip : String → Option Ip
  pub parse_cidr : String → Result (Ip → Bool)
  pub load_certificate : String → String → Option Error

-- what serves: both servers over one storage, one service and one auditor
pub record Serving (D F Ip : Type 0) : Type 0 where
  pub config : Config
  pub store : Chosen D F
  pub service : ServiceConfig
  pub auditor : Audit
  pub http : ServerConfig Ip
  -- ListenAndServeTLS in place of ListenAndServe
  pub https : Bool
  -- the credentials of NewGRPCServer
  pub grpc_tls : Bool

pub data Started (D F Ip : Type 0) : Type 0 where
  -- log.Fatalf or Fatal with its message
  exited : String → Error → Started D F Ip
  serving : Serving D F Ip → Started D F Ip

-- Initialize of internal/logger/logger.go, given zap.ParseAtomicLevel and Config.Build
unfoldable pub initialize :
    (String → Option Error) → (String → Option Error) → String → Option Error
initialize parse_level build_logger level = elim (parse_level level) [
  | some e ↦ some (wrapped "failed to initialize logger" e)
  | none ↦ elim (build_logger level) [
    | some e ↦ some (wrapped "failed to initialize logger" e)
    | none ↦ none
  ]
]

module _ (f : Floats) {D F Ip : Type 0} (o : Outside f.Float D F Ip) where
  -- the certificate, where https is enabled
  abbrev certified : Serving D F Ip → Started D F Ip
  certified s =
      if s.config.enable_https
      then (elim (o.load_certificate "server.pem" "server.key") [
        | some e ↦ exited "failed to load TLS certificates" e
        | none ↦ serving s
      ])
      else serving s

  abbrev with_server : Config → Chosen D F → Audit → Result (ServerConfig Ip) → Started D F Ip
  with_server c store auditor (err e) = exited "Unable to create requests handler" e
  with_server c store auditor (ok http) = certified (record {
    config = c;
    store = store;
    service = record { show_addr = c.show_addr; id_size = c.id_size };
    auditor = auditor;
    http = http;
    https = c.enable_https;
    grpc_tls = c.enable_https;
  })

  abbrev with_auditor : Config → Chosen D F → Result Audit → Started D F Ip
  with_auditor c store (err e) = exited "Unable to initialize audit" e
  with_auditor c store (ok auditor) =
      with_server c store auditor
        (new_server o.parse_ip o.parse_cidr c.cookie_secret c.trusted_subnet c.max_parallel_workers)

  abbrev with_storage : Config → Result (Chosen D F) → Started D F Ip
  with_storage c (err e) = exited "Unable to create storage" e
  with_storage c (ok store) =
      with_auditor c store
        (init_audit (o.open_audit c.audit_file) c.audit_file c.audit_url c.max_parallel_workers)

  abbrev with_logger : Config → Option Error → Started D F Ip
  with_logger c (some e) = exited "Unable to initialize logger" e
  with_logger c none = with_storage c (get_storage o.new_db_storage o.new_file_storage c)

  abbrev with_config : Loaded → Started D F Ip
  with_config (fatal e) = exited "" e
  with_config (loaded c) = with_logger c (initialize o.parse_level o.build_logger c.logger_level)

  -- main up to its select
  unfoldable pub start : Started D F Ip
  unfolding new_server initialize
  start = with_config (load_config f o.world)
