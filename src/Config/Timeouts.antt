-- ===== src/Config/Timeouts.antt =====
-- The timeouts go through whole seconds of the flags' temporary variables.
use shortener.Base.{
  ℕ, ◌*◌, ◌/◌, ◌<◌, String, ◌≡◌, ◌≢◌, refl, sym, ◌∙◌, ap, inl, inr, none, some, arith,
}
use shortener.Errors.{ok}
use shortener.Config.{
  Config, Values, World, Floats, loaded, second, set_from_json, set_from_flags, set_from_env,
  https_port, load_config, config_file_path,
}
use shortener.Config.Precedence.{at_start, FromFile, load_config-Sources}

-- The conversion to a Duration cuts the seconds of a Duration to whole ones; to 1125899906842624 nanoseconds,
-- which are thirteen days, rounding in float64 does not reach the next second.
abbrev pub CutsSeconds : Floats → Type 0
CutsSeconds f = (d : ℕ) → d < 1125899906842624 → f.whole (f.seconds d) ≡ d / second

pub ok_injective : {A : Type 0} {a b : A} → ok a ≡ ok b → a ≡ b
ok_injective h = ground arith

module _ (f : Floats) where
  same_file :
      (w : World f.Float) (file file' : Values ℕ) (text : String)
      → config_file_path f w ≢ ""
      → w.read_file (config_file_path f w) ≡ ok text
      → w.unmarshal text ≡ ok file
      → FromFile f w file'
      → file' ≡ file
  same_file w file file' text named found read (inl (unset, e)) = absurd (named unset)
  same_file w file file' text named found read (inr (text', found', read')) =
      ok_injective (sym read' ∙ ap w.unmarshal (ok_injective (sym found' ∙ found)) ∙ read)

  read_timeout-sources :
      (env : Values ℕ) (flags : Values f.Float) (file : Values ℕ) (d : ℕ) (path : Config)
      → env.read_timeout ≡ none
      → flags.read_timeout ≡ none
      → file.read_timeout ≡ some d
      → (https_port f
          (set_from_env env (set_from_flags f flags (set_from_json file path)))).read_timeout
        ≡ f.whole (f.seconds d) * second
  unfolding https_port set_from_env set_from_flags set_from_json
  read_timeout-sources env flags file d path no_env no_flag in_file =
      rw (no_env, no_flag, in_file) refl

  -- Where a conversion of seconds cuts them to whole ones, a read timeout of the configuration file
  -- that neither a flag nor the environment overrides is cut to whole seconds when LoadConfig
  -- returns; it counts nanoseconds and is below 1125899906842624 of them.
  pub load_config-read_timeout :
      (w : World f.Float) (c : Config) (file : Values ℕ) (flags : Values f.Float) (text : String)
      (d : ℕ)
      → load_config f w ≡ loaded c
      → config_file_path f w ≢ ""
      → w.read_file (config_file_path f w) ≡ ok text
      → w.unmarshal text ≡ ok file
      → w.flags ≡ ok flags
      → w.env.read_timeout ≡ none
      → flags.read_timeout ≡ none
      → file.read_timeout ≡ some d
      → CutsSeconds f
      → d < 1125899906842624
      → c.read_timeout ≡ d / second * second
  load_config-read_timeout w c file flags text d h named found read parsed no_env no_flag in_file
        cuts small =
      let (file', flags', from, parsed', e) = load_config-Sources f w c h in
      let same = same_file w file file' text named found read from in
      let same_flags = ok_injective (sym parsed' ∙ parsed) in
      ap (λ (c : Config). c.read_timeout) e
      ∙ read_timeout-sources w.env flags' file' d (at_start f w) no_env
          (ap (λ (v : Values f.Float). v.read_timeout) same_flags ∙ no_flag)
          (ap (λ (v : Values ℕ). v.read_timeout) same ∙ in_file)
      ∙ ap (λ (n : ℕ). n * second) (cuts d small)
