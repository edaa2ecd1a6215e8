-- ===== src/Config.antt =====
-- internal/config/config.go: LoadConfig, and GetStorage of internal/repository/storage.go, which picks
-- a storage by it. The packages flag, env and encoding/json are known by the value that each has for
-- a field, if it has one. A duration counts nanoseconds; negative numbers are left out.
pub mod Arguments
pub mod Precedence
pub mod Timeouts
pub mod Choice
use text.Mathlib.Text.{starts_with}
use Prim.Native.String as Str
use Prim.Native.Char.{Char}
use shortener.Base.{
  ℕ, zero, suc, ◌*◌, String, Bool, true, false, ◌&&◌, ◌||◌, ◌==◌, Option, none, some, List, [], ◌∷◌,
  if◌then◌else◌,
}
use shortener.Errors.{
  Error, sentinel, message, wrapped, followed, mutually_exclusive_flags, Result, ok, err,
}
use shortener.Repository.Memory.{MemStorage, new_mem_storage}

pub record Config : Type 0 where
  pub run_addr : String
  pub grpc_addr : String
  pub show_addr : String
  pub id_size : ℕ
  pub read_timeout : ℕ
  pub write_timeout : ℕ
  pub logger_level : String
  pub file_storage_path : String
  pub database_url : String
  pub cookie_secret : String
  pub max_parallel_workers : ℕ
  pub audit_file : String
  pub audit_url : String
  pub migrations_path : String
  pub enable_https : Bool
  pub config_file_path : String
  pub trusted_subnet : String

-- what a source has for each field; `T` is how it gives a timeout
pub record Values (T : Type 0) : Type 0 where
  pub run_addr : Option String
  pub grpc_addr : Option String
  pub show_addr : Option String
  pub id_size : Option ℕ
  pub read_timeout : Option T
  pub write_timeout : Option T
  pub logger_level : Option String
  pub file_storage_path : Option String
  pub database_url : Option String
  pub cookie_secret : Option String
  pub max_parallel_workers : Option ℕ
  pub audit_file : Option String
  pub audit_url : Option String
  pub migrations_path : Option String
  pub enable_https : Option Bool
  pub config_file_path : Option String
  pub trusted_subnet : Option String

-- time.Second
abbrev pub second : ℕ
second = 1000000000

-- the configuration at the start of LoadConfig
abbrev pub defaults : Config
defaults = record {
  run_addr = ":8080";
  grpc_addr = ":3200";
  show_addr = "";
  id_size = 8;
  read_timeout = 30 * second;
  write_timeout = 30 * second;
  logger_level = "INFO";
  file_storage_path = "";
  database_url = "";
  cookie_secret = "";
  max_parallel_workers = 100;
  audit_file = "";
  audit_url = "";
  migrations_path = "./migrations";
  enable_https = false;
  config_file_path = "";
  trusted_subnet = "";
}

-- a variable keeps its value unless a source has another one
abbrev pub given : {A : Type 0} → Option A → A → A
given none a = a
given (some b) a = b

-- the fields that all three sources set alike
abbrev set_fields : {T : Type 0} → Values T → Config → Config
set_fields v c = record c {
  run_addr = given v.run_addr c.run_addr;
  grpc_addr = given v.grpc_addr c.grpc_addr;
  show_addr = given v.show_addr c.show_addr;
  id_size = given v.id_size c.id_size;
  logger_level = given v.logger_level c.logger_level;
  file_storage_path = given v.file_storage_path c.file_storage_path;
  database_url = given v.database_url c.database_url;
  cookie_secret = given v.cookie_secret c.cookie_secret;
  max_parallel_workers = given v.max_parallel_workers c.max_parallel_workers;
  audit_file = given v.audit_file c.audit_file;
  audit_url = given v.audit_url c.audit_url;
  migrations_path = given v.migrations_path c.migrations_path;
  enable_https = given v.enable_https c.enable_https;
  trusted_subnet = given v.trusted_subnet c.trusted_subnet;
}

-- json.Unmarshal into the configuration: `json:"-"` keeps the path
unfoldable pub set_from_json : Values ℕ → Config → Config
set_from_json v c = record (set_fields v c) {
  read_timeout = given v.read_timeout c.read_timeout;
  write_timeout = given v.write_timeout c.write_timeout;
}

-- env.Parse
unfoldable pub set_from_env : Values ℕ → Config → Config
set_from_env v c = record (set_fields v c) {
  read_timeout = given v.read_timeout c.read_timeout;
  write_timeout = given v.write_timeout c.write_timeout;
  config_file_path = given v.config_file_path c.config_file_path;
}

-- strings.TrimPrefix of a prefix that is there
abbrev pub drop : ℕ → String → String
drop zero s = s
drop (suc n) Str.[] = Str.[]
drop (suc n) (Str.◌∷◌ c s) = drop n s

-- `args[i+1]`, if it is there
abbrev pub following : List String → String → String
following [] path = path
following (value ∷ args) path = value

-- the loop over the arguments that looks for the configuration file
unfoldable pub config_file_of : List String → String → String
config_file_of [] path = path
config_file_of (arg ∷ args) path =
    let path' =
      if arg == "-c" || arg == "-config"
      then following args path
      else if starts_with arg "-c="
      then drop 3 arg
      else if starts_with arg "-config="
      then drop 8 arg
      else path in
    config_file_of args path'

-- float64: Duration.Seconds, and the conversion to a Duration, which cuts the fraction off
pub record Floats : Type 1 where
  pub Float : Type 0
  pub seconds : ℕ → Float
  pub whole : Float → ℕ

-- what surrounds the program: an error of godotenv.Load other than a missing file, the arguments,
-- the variable CONFIG, the files that json.Unmarshal reads, and what flag and
-- env find; an error of flag.Parse ends the program
pub record World (Float : Type 0) : Type 0 where
  pub dotenv : Option Error
  pub args : List String
  pub config_variable : String
  pub read_file : String → Result String
  pub unmarshal : String → Result (Values ℕ)
  pub flags : Result (Values Float)
  pub env : Values ℕ

-- the end by log.Fatalf or by the package flag, or the configuration
pub data Loaded : Type 0 where
  fatal : Error → Loaded
  loaded : Config → Loaded

module _ (f : Floats) where
  -- the flags, and the timeouts by way of `readSec` and `writeSec`
  unfoldable pub set_from_flags : Values f.Float → Config → Config
  set_from_flags v c = record (set_fields v c) {
    config_file_path = given v.config_file_path c.config_file_path;
    read_timeout = f.whole (given v.read_timeout (f.seconds c.read_timeout)) * second;
    write_timeout = f.whole (given v.write_timeout (f.seconds c.write_timeout)) * second;
  }

  unfoldable pub https_port : Config → Config
  https_port c = record c {
    run_addr = if c.enable_https && c.run_addr == ":8080" then ":443" else c.run_addr;
  }

  -- LoadConfig after the configuration file
  unfoldable pub load_rest : Result (Values f.Float) → Values ℕ → Config → Loaded
  load_rest (err e) env c = fatal e
  load_rest (ok v) env c = loaded (https_port (set_from_env env (set_from_flags v c)))

  abbrev pub parsed : World f.Float → Config → Result (Values ℕ) → Loaded
  parsed w c (err e) = fatal (wrapped "failed to parse config file" e)
  parsed w c (ok v) = load_rest w.flags w.env (set_from_json v c)

  abbrev pub load_json : World f.Float → Config → Result String → Loaded
  load_json w c (err e) = fatal (wrapped "failed to read config file" e)
  load_json w c (ok text) = parsed w c (w.unmarshal text)

  -- LoadConfig once it has the path of the configuration file
  abbrev pub load_from : World f.Float → String → Loaded
  load_from w path =
      let c = record defaults { config_file_path = path } in
      if path == "" then load_rest w.flags w.env c else load_json w c (w.read_file path)

  abbrev pub config_file_path : World f.Float → String
  config_file_path w =
      let path = config_file_of w.args "" in if path == "" then w.config_variable else path

  abbrev pub unless_failed : Option Error → Loaded → Loaded
  unless_failed none l = l
  unless_failed (some e) l = fatal (wrapped "Failed to load .env file" e)

  unfoldable pub load_config : World f.Float → Loaded
  load_config w = unless_failed w.dotenv (load_from w (config_file_path w))

-- which storage GetStorage has made
pub data Chosen (D F : Type 0) : Type 0 where
  database : D → Chosen D F
  file : F → Chosen D F
  memory : MemStorage → Chosen D F

-- an error of NewDBStorage or NewFileStorage
abbrev made : {A D F : Type 0} → (A → Chosen D F) → Result A → Result (Chosen D F)
made wrap (ok a) = ok (wrap a)
made wrap (err e) = err (wrapped "failed to create storage" e)

-- GetStorage, given NewDBStorage by url and migrations, and NewFileStorage by path
unfoldable pub get_storage :
    {D F : Type 0}
    → (String → String → Result D)
    → (String → Result F)
    → Config
    → Result (Chosen D F)
get_storage new_db_storage new_file_storage c =
    if c.database_url == ""
    then if c.file_storage_path == ""
      then ok (memory new_mem_storage)
      else made file (new_file_storage c.file_storage_path)
    else if c.file_storage_path == ""
    then made database (new_db_storage c.database_url c.migrations_path)
    else err (
        followed (sentinel mutually_exclusive_flags)
          "cannot use both -d (database storage) and -f (file storage)")
