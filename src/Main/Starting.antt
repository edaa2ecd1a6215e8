-- ===== src/Main/Starting.antt =====
-- When main comes to serve, and with what.
use shortener.Base.{
  true, ◌≡◌, refl, ap, ◌∙◌, inl, inr, Option, none, some, arith, Bool-cases, Option-cases,
}
use shortener.Errors.{Error, Result, ok, err}
use shortener.Config.{Config, Floats, Loaded, fatal, loaded, load_config, Chosen, get_storage}
use shortener.Audit.{Audit, init_audit}
use shortener.Server.{ServerConfig, new_server}
use mathlib.Core.Path.{subst}
use mathlib.Core.Logic.{◌↔◌}
use shortener.Main.{Outside, Serving, Started, exited, serving, initialize, start}
use shortener.Main as Main

module _ (f : Floats) {D F Ip : Type 0} (o : Outside f.Float D F Ip) where
  -- What main has made from the configuration: every call on the way has succeeded, and both servers
  -- have a certificate, or neither has one.
  pub record Made (s : Serving D F Ip) : Type 0 where
    pub configured : load_config f o.world ≡ loaded s.config
    pub logging : initialize o.parse_level o.build_logger s.config.logger_level ≡ none
    pub stored : get_storage o.new_db_storage o.new_file_storage s.config ≡ ok s.store
    pub addressed :
        s.service ≡ record { show_addr = s.config.show_addr; id_size = s.config.id_size }
    pub audited :
        init_audit
          (o.open_audit s.config.audit_file)
          s.config.audit_file
          s.config.audit_url
          s.config.max_parallel_workers
        ≡ ok s.auditor
    pub routed :
        new_server o.parse_ip o.parse_cidr s.config.cookie_secret s.config.trusted_subnet
          s.config.max_parallel_workers
        ≡ ok s.http
    pub certified :
        s.config.enable_https ≡ true → o.load_certificate "server.pem" "server.key" ≡ none
    pub both : (s.https ≡ s.config.enable_https) × (s.grpc_tls ≡ s.config.enable_https)

  abbrev the : Serving D F Ip → Started D F Ip → Serving D F Ip
  the s (exited m e) = s
  the s (serving t) = t

  module _ (s : Serving D F Ip) (c : Config) (configured : load_config f o.world ≡ loaded c)
      (logging : initialize o.parse_level o.build_logger c.logger_level ≡ none) where
    certified-Made :
        (store : Chosen D F) (auditor : Audit) (http : ServerConfig Ip)
        → get_storage o.new_db_storage o.new_file_storage c ≡ ok store
        → init_audit (o.open_audit c.audit_file) c.audit_file c.audit_url c.max_parallel_workers
          ≡ ok auditor
        → new_server o.parse_ip o.parse_cidr c.cookie_secret c.trusted_subnet c.max_parallel_workers
          ≡ ok http
        → Main.with_server f o c store auditor (ok http) ≡ serving s
        → Made s
    certified-Made store auditor http stored audited routed h =
        subst Made (ground (arith, h)) (record {
          configured = configured;
          logging = logging;
          stored = stored;
          addressed = refl;
          audited = audited;
          routed = routed;
          certified = λ on. elim (Option-cases (o.load_certificate "server.pem" "server.key")) [
            | inl loads ↦ loads
            | inr (e, fails) ↦ absurd (ground (arith, h))
          ];
          both = (refl, refl);
        })

    server-Made :
        (store : Chosen D F) (auditor : Audit) (r : Result (ServerConfig Ip))
        → get_storage o.new_db_storage o.new_file_storage c ≡ ok store
        → init_audit (o.open_audit c.audit_file) c.audit_file c.audit_url c.max_parallel_workers
          ≡ ok auditor
        → new_server o.parse_ip o.parse_cidr c.cookie_secret c.trusted_subnet c.max_parallel_workers
          ≡ r
        → Main.with_server f o c store auditor r ≡ serving s
        → Made s
    server-Made store auditor (err e) stored audited routed h = absurd (cc)
    server-Made store auditor (ok http) stored audited routed h =
        certified-Made store auditor http stored audited routed h

    auditor-Made :
        (store : Chosen D F) (r : Result Audit)
        → get_storage o.new_db_storage o.new_file_storage c ≡ ok store
        → init_audit (o.open_audit c.audit_file) c.audit_file c.audit_url c.max_parallel_workers ≡ r
        → Main.with_auditor f o c store r ≡ serving s
        → Made s
    auditor-Made store (err e) stored audited h = absurd (cc)
    auditor-Made store (ok auditor) stored audited h =
        server-Made store auditor _ stored audited refl h

    storage-Made :
        (r : Result (Chosen D F))
        → get_storage o.new_db_storage o.new_file_storage c ≡ r
        → Main.with_storage f o c r ≡ serving s
        → Made s
    storage-Made (err e) stored h = absurd (cc)
    storage-Made (ok store) stored h = auditor-Made store _ stored refl h

  logger-Made :
      (s : Serving D F Ip) (c : Config) (e : Option Error)
      → load_config f o.world ≡ loaded c
      → initialize o.parse_level o.build_logger c.logger_level ≡ e
      → Main.with_logger f o c e ≡ serving s
      → Made s
  logger-Made s c (some e) configured logging h = absurd (cc)
  logger-Made s c none configured logging h = storage-Made s c configured logging _ refl h

  config-Made :
      (s : Serving D F Ip) (l : Loaded)
      → load_config f o.world ≡ l
      → Main.with_config f o l ≡ serving s
      → Made s
  config-Made s (fatal e) configured h = absurd (cc)
  config-Made s (loaded c) configured h = logger-Made s c _ configured refl h

  certified-serving :
      (s : Serving D F Ip)
      → Made s
      → Main.with_server f o s.config s.store s.auditor (ok s.http) ≡ serving s
  certified-serving s m = elim (Bool-cases s.config.enable_https) [
    | inl on ↦ ground (arith, m.certified on, m.both, m.addressed)
    | inr off ↦ ground (arith, m.both, m.addressed)
  ]

  -- main comes to serve exactly where every call on its way succeeds: LoadConfig, the logger,
  -- GetStorage, InitAudit, NewServer with its subnet, and, where https is enabled, the loading of the
  -- certificate. Both servers are then made from that configuration, and both have the certificate
  -- or neither has.
  pub start-Made : (s : Serving D F Ip) → (start f o ≡ serving s) ↔ Made s
  unfolding start
  start-Made s = (
    config-Made s _ refl,
    λ m.
        ap (Main.with_config f o) m.configured
        ∙ ap (Main.with_logger f o s.config) m.logging
        ∙ ap (Main.with_storage f o s.config) m.stored
        ∙ ap (Main.with_auditor f o s.config s.store) m.audited
        ∙ ap (Main.with_server f o s.config s.store s.auditor) m.routed
        ∙ certified-serving s m,
  )
