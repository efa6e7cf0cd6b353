-- ===== src/EnvConfig.antt =====
-- src/env_config.rs: the boot of the process from its environment. The file system, the placeholders
-- of nexo-config, serde_yaml and the credential loaders of nexo-auth are the record Loaders, by what
-- they answer for a path or a text.
pub mod Order
use nexo_plugin_email.Base.{
  Str, Bool, true, false, Option, none, some, List, [], ◌∷◌, ◌++◌, map, codes, join, if◌then◌else◌,
}
use nexo_plugin_email.Boot.{EmailPluginShape, into_vec}
use nexo_plugin_email.Config.{EmailPluginConfig}
use nexo_plugin_email.Reload.{EmailAccountConfig}

pub data EnvConfigError : Type 0 where
  missing : Str → EnvConfigError
  read_config parse_config placeholder_resolution : Str → EnvConfigError
  google_auth : Str → EnvConfigError
  creds : Str → EnvConfigError

pub data Result {ℓ} (A : Type ℓ) : Type ℓ where
  ok : A → Result A
  err : EnvConfigError → Result A

infixl 5 ◌>>=◌
abbrev pub ◌>>=◌ {ℓ κ} : {A : Type ℓ} {B : Type κ} → Result A → (A → Result B) → Result B
ok a >>= f = f a
err e >>= f = err e

-- `Creds` and `Google` are the credential stores, `Auth` is what google-auth.yaml says. A loader of
-- secrets answers with a store and with the errors that it met.
pub record Loaders (Creds Google Auth : Type 0) : Type 0 where
  pub var : Str → Option Str
  pub read_to_string : Str → Option Str
  pub resolve_placeholders : Str → Option Str
  pub email_from_str : Str → Option EmailPluginShape
  pub google_from_str : Str → Option Auth
  pub load_email_secrets : Str → List (Str × Str) → Creds × List Str
  pub is_file : Str → Bool
  pub load_google_auth : Str → Option Auth
  pub google_empty : Google
  pub google_new : Auth → Google

pub record EmailSubprocessBoot (Creds Google : Type 0) : Type 0 where
  pub cfg : EmailPluginConfig
  pub creds : Creds
  pub google : Google
  pub data_dir : Str

abbrev pub env_config_path : Str
env_config_path = codes "NEXO_PLUGIN_EMAIL_CONFIG_PATH"

abbrev pub env_google_auth_path : Str
env_google_auth_path = codes "NEXO_PLUGIN_EMAIL_GOOGLE_AUTH_PATH"

abbrev pub env_secrets_dir : Str
env_secrets_dir = codes "NEXO_PLUGIN_EMAIL_SECRETS_DIR"

abbrev pub env_data_dir : Str
env_data_dir = codes "NEXO_PLUGIN_EMAIL_DATA_DIR"

abbrev pub ok_or {ℓ} : {A : Type ℓ} → EnvConfigError → Option A → Result A
ok_or e none = err e
ok_or e (some a) = ok a

abbrev pub declared : EmailPluginConfig → List (Str × Str)
declared cfg = map (λ (a : EmailAccountConfig). (a.instance_id, a.address)) cfg.accounts

unfoldable pub first_entry : Str → List EmailPluginConfig → Result EmailPluginConfig
first_entry path [] = err (parse_config path)
first_entry path (c ∷ cs) = ok c

unfoldable pub or_errors {ℓ} : {A : Type ℓ} → A × List Str → Result A
unfolding join
or_errors (store, []) = ok store
or_errors (store, e ∷ es) = err (creds (join (codes "; ") (e ∷ es)))

module _ {Creds Google Auth : Type 0} (io : Loaders Creds Google Auth) where
  unfoldable pub required_env : Str → Result Str
  required_env key = ok_or (missing key) (io.var key)

  unfoldable pub resolved_text : Str → Result Str
  resolved_text path = do
    raw ← ok_or (read_config path) (io.read_to_string path)
    ok_or (placeholder_resolution path) (io.resolve_placeholders raw)

  unfoldable pub load_email_yaml : Str → Result EmailPluginConfig
  unfolding resolved_text into_vec first_entry
  load_email_yaml path = do
    resolved ← resolved_text path
    shape ← ok_or (parse_config path) (io.email_from_str resolved)
    first_entry path (into_vec shape)

  unfoldable pub build_email_store : EmailPluginConfig → Str → Result Creds
  unfolding or_errors
  build_email_store cfg secrets_dir = or_errors (io.load_email_secrets secrets_dir (declared cfg))

  unfoldable pub load_google_auth_from_file : Str → Result Auth
  unfolding resolved_text
  load_google_auth_from_file path = do
    resolved ← resolved_text path
    ok_or (parse_config path) (io.google_from_str resolved)

  unfoldable pub build_google_store : Str → Result Google
  unfolding load_google_auth_from_file
  build_google_store [] = ok io.google_empty
  build_google_store (c ∷ path) = do
    auth ←
        (if io.is_file (c ∷ path)
          then load_google_auth_from_file (c ∷ path)
          else ok_or (google_auth (c ∷ path)) (io.load_google_auth (c ∷ path)))
    ok (io.google_new auth)

  unfoldable pub google_path : Option Str → Str
  google_path none = []
  google_path (some p) = p

  unfoldable pub email_config_from_env : Result (EmailSubprocessBoot Creds Google)
  unfolding required_env load_email_yaml build_email_store build_google_store google_path
  email_config_from_env = do
    cfg_path ← required_env env_config_path
    secrets_dir ← required_env env_secrets_dir
    data_dir ← required_env env_data_dir
    cfg ← load_email_yaml cfg_path
    store ← build_email_store cfg secrets_dir
    google ← build_google_store (google_path (io.var env_google_auth_path))
    ok (record { cfg = cfg; creds = store; google = google; data_dir = data_dir })
