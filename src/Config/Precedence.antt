-- ===== src/Config/Precedence.antt =====
-- Which source a field of the configuration comes from.
use mathlib.Core.Path.{subst}
use shortener.Base.{
  ℕ, String, false, ◌&&◌, ◌==◌, ◌≡◌, refl, sym, ◌⊎◌, inl, inr, Option, none, some, if◌then◌else◌,
  arith, Bool-cases, eq_iff,
}
use shortener.Errors.{Error, Result, ok, err}
use shortener.Config.{
  Config, Values, World, Floats, Loaded, loaded, defaults, given, set_from_json, set_from_flags,
  set_from_env, https_port, load_rest, load_json, load_from, parsed, unless_failed, load_config,
  config_file_path,
}

-- A source that has no value.
abbrev pub nothing : {T : Type 0} → Values T
nothing = record {
  run_addr = none;
  grpc_addr = none;
  show_addr = none;
  id_size = none;
  read_timeout = none;
  write_timeout = none;
  logger_level = none;
  file_storage_path = none;
  database_url = none;
  cookie_secret = none;
  max_parallel_workers = none;
  audit_file = none;
  audit_url = none;
  migrations_path = none;
  enable_https = none;
  config_file_path = none;
  trusted_subnet = none;
}

-- The value is that of the environment, else that of the flags, else that of the file, else the last.
abbrev pub Settled : {A : Type 0} → Option A → Option A → Option A → A → A → Type 0
Settled env flag file default' a =
    (env ≡ some a)
    ⊎ ((env ≡ none)
        × ((flag ≡ some a)
            ⊎ ((flag ≡ none) × ((file ≡ some a) ⊎ ((file ≡ none) × (a ≡ default'))))))

Settled-given :
    {A : Type 0} (env flag file : Option A) (default' : A)
    → Settled env flag file default' (given env (given flag (given file default')))
Settled-given (some a) flag file d = inl refl
Settled-given none (some a) file d = inr (refl, inl refl)
Settled-given none none (some a) d = inr (refl, inr (refl, inl refl))
Settled-given none none none d = inr (refl, inr (refl, inr (refl, refl)))

module _ (f : Floats) where
  -- The values of the configuration file that the program reads; without a path there are none.
  abbrev pub FromFile : World f.Float → Values ℕ → Type 0
  FromFile w file =
      ((config_file_path f w ≡ "") × (file ≡ nothing))
      ⊎ ((text : String) × (w.read_file (config_file_path f w) ≡ ok text)
          × (w.unmarshal text ≡ ok file))

  abbrev pub at_start : World f.Float → Config
  at_start w = record defaults { config_file_path = config_file_path f w }

  load_rest-sources :
      (flags : Result (Values f.Float)) (env : Values ℕ) (c c' : Config)
      → load_rest f flags env c ≡ loaded c'
      → (v : Values f.Float) × (flags ≡ ok v)
        × (c' ≡ https_port f (set_from_env env (set_from_flags f v c)))
  unfolding load_rest
  load_rest-sources (err e) env c c' h = absurd (ground arith)
  load_rest-sources (ok v) env c c' h = (v, refl, ground arith)

  not_failed :
      (e : Option Error) (l : Loaded) (c : Config) → unless_failed f e l ≡ loaded c → l ≡ loaded c
  not_failed none l c h = h
  not_failed (some e) l c h = absurd (ground arith)

  -- What the program makes of the sources.
  abbrev pub Sources : World f.Float → Config → Config → Type 0
  Sources w c c' =
      (file : Values ℕ) × (flags : Values f.Float) × FromFile w file
      × (w.flags ≡ ok flags)
      × (c' ≡ https_port f (set_from_env w.env (set_from_flags f flags (set_from_json file c))))

  parsed-Sources :
      (w : World f.Float) (c c' : Config) (text : String) (r : Result (Values ℕ))
      → w.read_file (config_file_path f w) ≡ ok text
      → w.unmarshal text ≡ r
      → parsed f w c r ≡ loaded c'
      → Sources w c c'
  parsed-Sources w c c' text (err e) found read h = absurd (ground arith)
  parsed-Sources w c c' text (ok file) found read h =
      let (flags, given_flags, e) = load_rest-sources w.flags w.env (set_from_json file c) c' h in
      (file, flags, inr (text, found, read), given_flags, e)

  load_json-Sources :
      (w : World f.Float) (c c' : Config) (r : Result String)
      → w.read_file (config_file_path f w) ≡ r
      → load_json f w c r ≡ loaded c'
      → Sources w c c'
  load_json-Sources w c c' (err e) found h = absurd (ground arith)
  load_json-Sources w c c' (ok text) found h =
      parsed-Sources w c c' text (w.unmarshal text) found refl h

  load_from-Sources :
      (w : World f.Float) (c' : Config)
      → load_from f w (config_file_path f w) ≡ loaded c'
      → Sources w (at_start w) c'
  unfolding set_from_json
  load_from-Sources w c' h = elim (Bool-cases (config_file_path f w == "")) [
    | inl unset ↦
        let (flags, given_flags, e) =
          load_rest-sources w.flags w.env (at_start w) c' (rw unset at h) in
        (nothing, flags, inl ((eq_iff (config_file_path f w) "").0 unset, refl), given_flags, e)
    | inr named ↦
        load_json-Sources w (at_start w) c' (w.read_file (config_file_path f w)) refl
          (rw named at h)
  ]

  pub load_config-Sources :
      (w : World f.Float) (c : Config) → load_config f w ≡ loaded c → Sources w (at_start w) c
  unfolding load_config
  load_config-Sources w c h =
      load_from-Sources w c (not_failed w.dotenv (load_from f w (config_file_path f w)) c h)

  -- Every field but the address, the timeouts and the path.
  abbrev pub EachSettled : Values ℕ → Values f.Float → Values ℕ → Config → Type 0
  EachSettled env flags file c =
      Settled env.grpc_addr flags.grpc_addr file.grpc_addr ":3200" c.grpc_addr
      × Settled env.show_addr flags.show_addr file.show_addr "" c.show_addr
      × Settled env.id_size flags.id_size file.id_size 8 c.id_size
      × Settled env.logger_level flags.logger_level file.logger_level "INFO" c.logger_level
      × Settled env.file_storage_path flags.file_storage_path file.file_storage_path ""
          c.file_storage_path
      × Settled env.database_url flags.database_url file.database_url "" c.database_url
      × Settled env.cookie_secret flags.cookie_secret file.cookie_secret "" c.cookie_secret
      × Settled env.max_parallel_workers flags.max_parallel_workers file.max_parallel_workers 100
          c.max_parallel_workers
      × Settled env.audit_file flags.audit_file file.audit_file "" c.audit_file
      × Settled env.audit_url flags.audit_url file.audit_url "" c.audit_url
      × Settled env.migrations_path flags.migrations_path file.migrations_path "./migrations"
          c.migrations_path
      × Settled env.enable_https flags.enable_https file.enable_https false c.enable_https
      × Settled env.trusted_subnet flags.trusted_subnet file.trusted_subnet "" c.trusted_subnet

  -- The address, with the port of https in place of the default.
  abbrev pub AddressSettled : Values ℕ → Values f.Float → Values ℕ → Config → Type 0
  AddressSettled env flags file c =
      (addr : String) × Settled env.run_addr flags.run_addr file.run_addr ":8080" addr
      × (c.run_addr ≡ (if c.enable_https && addr == ":8080" then ":443" else addr))

  EachSettled-sources :
      (env : Values ℕ) (flags : Values f.Float) (file : Values ℕ) (path : String)
      → let c = https_port f (
          set_from_env env (
            set_from_flags f flags
              (set_from_json file (record defaults { config_file_path = path })))) in
        EachSettled env flags file c × AddressSettled env flags file c
  unfolding https_port set_from_env set_from_flags set_from_json
  EachSettled-sources env flags file path = (
    (
      Settled-given _ _ _ _,
      Settled-given _ _ _ _,
      Settled-given _ _ _ _,
      Settled-given _ _ _ _,
      Settled-given _ _ _ _,
      Settled-given _ _ _ _,
      Settled-given _ _ _ _,
      Settled-given _ _ _ _,
      Settled-given _ _ _ _,
      Settled-given _ _ _ _,
      Settled-given _ _ _ _,
      Settled-given _ _ _ _,
      Settled-given _ _ _ _,
    ),
    (_, Settled-given env.run_addr flags.run_addr file.run_addr ":8080", refl),
  )

  -- Whenever LoadConfig returns, each field but the timeouts and the path is that of the
  -- environment, else that of the flags, else that of the configuration file that it read, else the
  -- default; and the HTTP address is found in the same way, with :443 in place of :8080 where https
  -- is enabled.
  pub load_config-Settled :
      (w : World f.Float) (c : Config)
      → load_config f w ≡ loaded c
      → (file : Values ℕ) × (flags : Values f.Float) × FromFile w file
        × (w.flags ≡ ok flags)
        × EachSettled w.env flags file c
        × AddressSettled w.env flags file c
  load_config-Settled w c h =
      let (file, flags, from, parsed_flags, e) = load_config-Sources w c h in
      let (each, address) = EachSettled-sources w.env flags file (config_file_path f w) in
      (
        file,
        flags,
        from,
        parsed_flags,
        subst (EachSettled w.env flags file) (sym e) each,
        subst (AddressSettled w.env flags file) (sym e) address,
      )
