-- ===== src/Config/Loader.antt =====
-- `ConfigLoader` of app/core/config/config.py.
use blog_be.Prelude.{String, ◌≡◌, refl, Bool, Option, none, some, List, [], ◌∷◌, arith}
use blog_be.Exec.{Result, ok, err, Exec, bind, pure, gets, lift, modify, ◌>>=◌, ◌>>◌}
use blog_be.Config.{Config, KeyLibrary, prod_checks, resolve_env_files}

-- `files or None`
abbrev pub files_or_none : List String → Option (List String)
files_or_none [] = none
files_or_none (file ∷ files) = some (file ∷ files)

-- `read` is what pydantic-settings makes of the environment and the files, before the validator.
module _ {K : Type 0} (lib : KeyLibrary K) (read : Option (List String) → Result Config)
    (is_file : String → Bool) where
  -- `Config(_env_file=…)`
  unfoldable pub build_config : List String → Exec (Option Config) Config
  build_config files = do
    settings ← lift (read (files_or_none files))
    lift (prod_checks lib settings)

  abbrev pub cached_or_build : String → Option Config → Exec (Option Config) Config
  cached_or_build env (some c) = pure c
  cached_or_build env none = do
    c ← build_config (resolve_env_files is_file env)
    modify (λ _. some c)
    pure c

  -- the property `config`, for the lower-cased `ENV`
  unfoldable pub config : String → Exec (Option Config) Config
  config env = do cached ← gets (λ c. c); cached_or_build env cached

  kept :
      (x : Result Config × Option Config) {c : Config} {s : Option Config}
      → bind x (λ c' _. (ok c', some c')) ≡ (ok c, s)
      → s ≡ some c
  kept (ok c', t) h = ground arith
  kept (err e, t) h = ground arith

  -- Once the configuration is loaded, it stays the same, whatever `ENV` is later.
  pub config_twice :
      (env later : String) (s : Option Config) {c : Config} {s' : Option Config}
      → config env s ≡ (ok c, s')
      → config later s' ≡ (ok c, s')
  unfolding config
  config_twice env later none {c = c} {s' = s'} h =
      rw (kept (build_config (resolve_env_files is_file env) none) {c = c} {s = s'} h) refl
  config_twice env later (some d) {c = c} {s' = s'} h = ground arith
