-- ===== src/Config/Arguments.antt =====
-- Which configuration file the arguments name.
use text.Mathlib.Text.{starts_with}
use shortener.Base.{
  String, Bool, false, ◌||◌, ◌==◌, ◌≡◌, refl, sym, ◌∙◌, ap, List, [], ◌∷◌, ◌++◌, arith,
}
use shortener.Base.Lists.{All}
use shortener.Config.{
  config_file_of, World, Floats, load_config, load_from, unless_failed, config_file_path,
}
use shortener.Errors.{Result}

-- An argument of one of the forms that the loop looks for.
abbrev pub is_path_option : String → Bool
is_path_option arg =
    arg == "-c" || arg == "-config" || starts_with arg "-c=" || starts_with arg "-config="

config_file_of-append :
    (args rest : List String) (path : String)
    → (path' : String) × (config_file_of (args ++ rest) path ≡ config_file_of rest path')
unfolding config_file_of
config_file_of-append [] rest path = (path, refl)
config_file_of-append (arg ∷ args) rest path = config_file_of-append args rest _

-- The last `-c` wins.
pub config_file_of-last :
    (args : List String) (value path : String)
    → is_path_option value ≡ false
    → config_file_of (args ++ "-c" ∷ value ∷ []) path ≡ value
unfolding config_file_of
config_file_of-last args value path plain =
    let (path', e) = config_file_of-append args ("-c" ∷ value ∷ []) path in e ∙ ground arith

config_file_of-plain :
    (args : List String) (path : String)
    → All (λ arg. is_path_option arg ≡ false) args
    → config_file_of args path ≡ path
unfolding config_file_of
config_file_of-plain [] path h = refl
config_file_of-plain (arg ∷ args) path (plain, h) = ground (arith, config_file_of-plain args path h)

-- Where no argument has one of the forms -c, -config, -c= and -config= and CONFIG is not set,
-- LoadConfig reads no configuration file, whatever the package flag makes of the arguments: its
-- result is the same for all contents of the files.
pub load_config-unread :
    (f : Floats) (w : World f.Float) (read_file : String → Result String)
    → All (λ arg. is_path_option arg ≡ false) w.args
    → w.config_variable ≡ ""
    → load_config f w ≡ load_config f (record w { read_file = read_file })
unfolding load_config
load_config-unread f w read_file plain unset =
    let no_path : config_file_path f w ≡ "" =
      ground (arith, config_file_of-plain w.args "" plain) in
    ap (unless_failed f w.dotenv) (
      ap (load_from f w) no_path
      ∙ sym (ap (load_from f (record w { read_file = read_file })) no_path))
