-- ===== src/Config/Choice.antt =====
-- The storage that GetStorage picks from what LoadConfig has read.
use shortener.Base.{
  String, true, ◌≡◌, ◌≢◌, refl, sym, ◌∙◌, ap, Option, none, some, arith, eq-false_of_ne,
}
use shortener.Errors.{
  Error, Result, ok, err, followed, sentinel, is_error, mutually_exclusive_flags,
}
use shortener.Config.{Config, Values, World, Floats, loaded, load_config, get_storage}
use shortener.Config.Timeouts.{ok_injective}
use shortener.Config.Precedence.{Settled, load_config-Settled}

get_storage-both :
    {D F : Type 0} (new_db_storage : String → String → Result D)
    (new_file_storage : String → Result F) (c : Config)
    → c.database_url ≢ ""
    → c.file_storage_path ≢ ""
    → (e : Error) × (get_storage new_db_storage new_file_storage c ≡ err e)
      × (is_error e mutually_exclusive_flags ≡ true)
unfolding get_storage is_error
get_storage-both new_db_storage new_file_storage c url path = (
  followed (sentinel mutually_exclusive_flags)
      "cannot use both -d (database storage) and -f (file storage)",
  rw (eq-false_of_ne c.database_url "" url, eq-false_of_ne c.file_storage_path "" path, get_storage)
      refl,
  refl,
)

Settled-env :
    {A : Type 0} {env flag file : Option A} {d a b : A}
    → env ≡ some b
    → Settled env flag file d a
    → a ≡ b
Settled-env set settled = ground arith

Settled-flag :
    {A : Type 0} {env flag file : Option A} {d a b : A}
    → env ≡ none
    → flag ≡ some b
    → Settled env flag file d a
    → a ≡ b
Settled-flag unset set settled = ground arith

-- With a database url that is not empty in the environment, and a file path that is not empty among
-- the flags and none in the environment, GetStorage refuses what LoadConfig returns by
-- ErrMutuallyExclusiveFlags.
pub get_storage-load_config :
    {D F : Type 0} (f : Floats) (w : World f.Float) (c : Config) (flags : Values f.Float)
    (url path : String) (new_db_storage : String → String → Result D)
    (new_file_storage : String → Result F)
    → load_config f w ≡ loaded c
    → w.flags ≡ ok flags
    → w.env.database_url ≡ some url
    → w.env.file_storage_path ≡ none
    → flags.file_storage_path ≡ some path
    → url ≢ ""
    → path ≢ ""
    → (e : Error) × (get_storage new_db_storage new_file_storage c ≡ err e)
      × (is_error e mutually_exclusive_flags ≡ true)
get_storage-load_config f w c flags url path new_db_storage new_file_storage h parsed in_env not_env
      in_flags has_url has_path =
    let (file', flags', from, parsed', each, address) = load_config-Settled f w c h in
    let same : flags' ≡ flags = ok_injective (sym parsed' ∙ parsed) in
    let (
      grpc, show, size, level, store, db, secret, parallel, audit, audit_url, migrations, https,
      subnet,
    ) =
      each in
    let is_url = Settled-env in_env db in
    let is_path =
      Settled-flag not_env (ap (λ (v : Values f.Float). v.file_storage_path) same ∙ in_flags)
        store in
    get_storage-both new_db_storage new_file_storage c
      (λ none_there. has_url (sym is_url ∙ none_there))
      (λ none_there. has_path (sym is_path ∙ none_there))
