-- ===== src/Tests/Config.antt =====
-- The theorems on config.go for a program with a few flags and variables.
use shortener.Base.{ℕ, ◌/◌, ◌≡◌, refl, none, some, [], ◌∷◌}
use shortener.Errors.{ok}
use shortener.Config.{
  Config, Values, World, Floats, defaults, second, load_config, config_file_of, set_from_flags,
  set_from_env, https_port, load_rest,
}
use shortener.Config.Precedence.{
  nothing, FromFile, EachSettled, AddressSettled, load_config-Settled,
}

-- seconds that are kept exactly
abbrev exact : Floats
exact = record { Float = ℕ; seconds = λ d. d; whole = λ d. d / second }

-- the flag -f, the variable DATABASE_DSN, and the file "conf" with a read timeout of half a second
abbrev flags_f : Values ℕ
flags_f = record nothing { file_storage_path = some "urls" }

abbrev env_d : Values ℕ
env_d = record nothing { database_url = some "db" }

abbrev conf : Values ℕ
conf = record nothing { read_timeout = some 500000000 }

abbrev world : World ℕ
world = record {
  dotenv = none;
  args = "-f" ∷ "urls" ∷ "--config=conf" ∷ [];
  config_variable = "";
  read_file = λ path. ok path;
  unmarshal = λ text. ok conf;
  flags = ok flags_f;
  env = env_d;
}

abbrev world_c : World ℕ
world_c = record world { args = "-c" ∷ "conf" ∷ [] }

abbrev result : Config
result = record defaults { file_storage_path = "urls"; database_url = "db" }

abbrev result_c : Config
result_c = record result { read_timeout = 0; config_file_path = "conf" }

load_config-Settled_example :
    (file : Values ℕ) × (flags : Values ℕ) × FromFile exact world file
    × (world.flags ≡ ok flags)
    × EachSettled exact world.env flags file result
    × AddressSettled exact world.env flags file result
unfolding load_config load_rest config_file_of set_from_flags set_from_env https_port
load_config-Settled_example = load_config-Settled exact world result refl
