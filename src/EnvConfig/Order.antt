-- ===== src/EnvConfig/Order.antt =====
-- src/env_config.rs, `email_config_from_env`: what a boot has, and why one fails.
use nexo_plugin_email.Base.{
  Str, Bool, true, false, Option, none, some, List, [], ◌∷◌, ◌≡◌, ◌≢◌, ◌⊎◌, inl, inr, refl, ap,
  if◌then◌else◌, Elem,
}
use nexo_plugin_email.Boot.{EmailPluginShape, into_vec}
use nexo_plugin_email.Config.{EmailPluginConfig}
use nexo_plugin_email.EnvConfig.{
  EnvConfigError, missing, read_config, parse_config, placeholder_resolution, google_auth, creds,
  Result, ok, err, ◌>>=◌, Loaders, EmailSubprocessBoot, env_config_path, env_google_auth_path,
  env_secrets_dir, env_data_dir, ok_or, declared, first_entry, or_errors, required_env,
  resolved_text, load_email_yaml, build_email_store, load_google_auth_from_file, build_google_store,
  google_path, email_config_from_env,
}

module _ {Creds Google Auth : Type 0} (io : Loaders Creds Google Auth) where
  -- Why a text at a path does not parse: as the configuration, which may be an empty sequence, or
  -- as the accounts of Google.
  abbrev IsUnparsed : Str → Type 0
  IsUnparsed text =
      (io.email_from_str text ≡ none)
      ⊎ (io.email_from_str text ≡ some (EmailPluginShape.many []))
      ⊎ (io.google_from_str text ≡ none)

  -- The reason that an error names.
  abbrev IsReason : EnvConfigError → Type 0
  IsReason (missing key) =
      (io.var key ≡ none) × Elem key (env_config_path ∷ env_secrets_dir ∷ env_data_dir ∷ [])
  IsReason (read_config path) = io.read_to_string path ≡ none
  IsReason (placeholder_resolution path) =
      (raw : Str) × (io.read_to_string path ≡ some raw) × (io.resolve_placeholders raw ≡ none)
  IsReason (parse_config path) = (text : Str) × (resolved_text io path ≡ ok text) × IsUnparsed text
  IsReason (google_auth path) = io.load_google_auth path ≡ none
  IsReason (creds text) =
      (cfg : EmailPluginConfig) × (dir : Str) × ((io.load_email_secrets dir (declared cfg)).1 ≢ [])

  -- A run that ends well with P, and otherwise with an error whose reason holds.
  abbrev Ends : {A : Type 0} → (A → Type 0) → Result A → Type 0
  Ends P (ok a) = P a
  Ends P (err e) = IsReason e

  >>=-Ends :
      {A B : Type 0} (P : A → Type 0) (Q : B → Type 0) (m : Result A) (f : A → Result B)
      → Ends P m
      → ((a : A) → P a → Ends Q (f a))
      → Ends Q (m >>= f)
  >>=-Ends P Q (ok a) f h k = k a h
  >>=-Ends P Q (err e) f h k = h

  ok_or-Ends :
      {A : Type 0} (e : EnvConfigError) (o : Option A)
      → (o ≡ none → IsReason e)
      → Ends (λ a. o ≡ some a) (ok_or e o)
  ok_or-Ends e none h = h refl
  ok_or-Ends e (some a) h = refl

  with_equation :
      {A : Type 0} (P : A → Type 0) (m : Result A) → Ends P m → Ends (λ a. (m ≡ ok a) × P a) m
  with_equation P (ok a) h = (refl, h)
  with_equation P (err e) h = h

  required_env-Ends :
      (key : Str)
      → Elem key (env_config_path ∷ env_secrets_dir ∷ env_data_dir ∷ [])
      → Ends (λ v. io.var key ≡ some v) (required_env io key)
  unfolding required_env
  required_env-Ends key i = ok_or-Ends (missing key) (io.var key) (λ h. (h, i))

  Read : Str → Str → Type 0
  Read path text =
      (raw : Str) × (io.read_to_string path ≡ some raw) × (io.resolve_placeholders raw ≡ some text)

  resolved_text-Read : (path : Str) → Ends (Read path) (resolved_text io path)
  unfolding resolved_text Read
  resolved_text-Read path =
      >>=-Ends (λ raw. io.read_to_string path ≡ some raw) (Read path) _ _
        (ok_or-Ends (read_config path) (io.read_to_string path) (λ h. h))
        λ raw there. resolved raw there (io.resolve_placeholders raw) refl
    where
      resolved :
          (raw : Str)
          → io.read_to_string path ≡ some raw
          → (o : Option Str) → io.resolve_placeholders raw ≡ o
          → Ends (Read path) (ok_or (placeholder_resolution path) o)
      resolved raw there none e = (raw, there, e)
      resolved raw there (some t) e = (raw, there, e)

  first_entry-Ends :
      (path text : Str) (shape : EmailPluginShape)
      → resolved_text io path ≡ ok text
      → io.email_from_str text ≡ some shape
      → Ends (λ cfg. Unit {0}) (first_entry path (into_vec shape))
  unfolding first_entry into_vec
  first_entry-Ends path text (EmailPluginShape.single c) read parsed = tt
  first_entry-Ends path text (EmailPluginShape.many []) read parsed = (text, read, inr (inl parsed))
  first_entry-Ends path text (EmailPluginShape.many (c ∷ cs)) read parsed = tt

  text-Ends :
      (path : Str)
      → Ends (λ t. (resolved_text io path ≡ ok t) × Read path t) (resolved_text io path)
  text-Ends path = with_equation (Read path) (resolved_text io path) (resolved_text-Read path)

  load_email_yaml-Ends :
      (path : Str) → Ends (λ (cfg : EmailPluginConfig). Unit {0}) (load_email_yaml io path)
  unfolding load_email_yaml
  load_email_yaml-Ends path =
      >>=-Ends (λ t. (resolved_text io path ≡ ok t) × Read path t) (λ cfg. Unit {0}) _ _
        (text-Ends path)
        λ t read.
          >>=-Ends (λ s. io.email_from_str t ≡ some s) (λ cfg. Unit {0}) _ _
            (ok_or-Ends (parse_config path) (io.email_from_str t) (λ e. (t, read.0, inl e)))
            λ shape parsed. first_entry-Ends path t shape read.0 parsed

  google_file-Ends :
      (path : Str) → Ends (λ (auth : Auth). Unit {0}) (load_google_auth_from_file io path)
  unfolding load_google_auth_from_file
  google_file-Ends path =
      >>=-Ends (λ t. (resolved_text io path ≡ ok t) × Read path t) (λ auth. Unit {0}) _ _
        (text-Ends path)
        λ t read.
          weak (λ a. io.google_from_str t ≡ some a)
            (ok_or (parse_config path) (io.google_from_str t))
            (ok_or-Ends (parse_config path) (io.google_from_str t) (λ e. (t, read.0, inr (inr e))))
    where
      weak : (P : Auth → Type 0) (m : Result Auth) → Ends P m → Ends (λ auth. Unit {0}) m
      weak P (ok a) h = tt
      weak P (err e) h = h

  google-Ends : (path : Str) → Ends (λ (g : Google). Unit {0}) (build_google_store io path)
  unfolding build_google_store
  google-Ends [] = tt
  google-Ends (c ∷ path) =
      >>=-Ends (λ auth. Unit {0}) (λ g. Unit {0}) _ _ (by_kind (io.is_file (c ∷ path))) λ auth h. tt
    where
      dir :
          (o : Option Auth)
          → io.load_google_auth (c ∷ path) ≡ o
          → Ends (λ auth. Unit {0}) (ok_or (google_auth (c ∷ path)) o)
      dir none e = e
      dir (some a) e = tt

      by_kind :
          (b : Bool)
          → Ends
              (λ auth. Unit {0})
              (if b
                then load_google_auth_from_file io (c ∷ path)
                else ok_or (google_auth (c ∷ path)) (io.load_google_auth (c ∷ path)))
      by_kind true = google_file-Ends (c ∷ path)
      by_kind false = dir (io.load_google_auth (c ∷ path)) refl

  store-Ends :
      (cfg : EmailPluginConfig) (dir : Str)
      → Ends
          (λ store. io.load_email_secrets dir (declared cfg) ≡ (store, []))
          (build_email_store io cfg dir)
  unfolding build_email_store or_errors
  store-Ends cfg dir = by_errors (io.load_email_secrets dir (declared cfg)) refl
    where
      by_errors :
          (s : Creds × List Str)
          → io.load_email_secrets dir (declared cfg) ≡ s
          → Ends (λ store. io.load_email_secrets dir (declared cfg) ≡ (store, [])) (or_errors s)
      by_errors (store, []) e = e
      by_errors (store, x ∷ xs) e =
          (cfg, dir, λ empty. absurd (cc (ap (λ (t : Creds × List Str). t.1) e, empty)))

  -- What a boot has: the configuration at the path of the environment, the credentials of its
  -- accounts, which were all loaded without an error, the Google accounts, and the data directory.
  pub record IsBoot (b : EmailSubprocessBoot Creds Google) : Type 0 where
    path : Str
    secrets : Str
    at_path : io.var env_config_path ≡ some path
    at_secrets : io.var env_secrets_dir ≡ some secrets
    at_data : io.var env_data_dir ≡ some b.data_dir
    loaded : load_email_yaml io path ≡ ok b.cfg
    known : io.load_email_secrets secrets (declared b.cfg) ≡ (b.creds, [])
    google : build_google_store io (google_path io (io.var env_google_auth_path)) ≡ ok b.google

  abbrev pub IsBooted : Result (EmailSubprocessBoot Creds Google) → Type 0
  IsBooted r = Ends IsBoot r

  -- The boot either gives all parts of the plugin as the environment names them, or an error that
  -- holds: the variable is one of the three that are needed and is not set; the file cannot be
  -- read; a placeholder of its text cannot be resolved; its text does not parse, or is an empty
  -- sequence; the Google accounts do not load; or the loading of the credentials met an error.
  pub email_config_from_env_lem : IsBooted (email_config_from_env io)
  unfolding email_config_from_env
  email_config_from_env_lem =
      >>=-Ends (λ v. io.var env_config_path ≡ some v) IsBoot _ _
        (required_env-Ends env_config_path (inl refl))
        λ path at_path.
          >>=-Ends (λ v. io.var env_secrets_dir ≡ some v) IsBoot _ _
            (required_env-Ends env_secrets_dir (inr (inl refl)))
            λ secrets at_secrets.
              >>=-Ends (λ v. io.var env_data_dir ≡ some v) IsBoot _ _
                (required_env-Ends env_data_dir (inr (inr (inl refl))))
                λ data_dir at_data.
                  >>=-Ends (λ cfg. (load_email_yaml io path ≡ ok cfg) × Unit {0}) IsBoot _ _
                    (with_equation (λ cfg. Unit {0}) _ (load_email_yaml-Ends path))
                    λ cfg loaded.
                      >>=-Ends (λ store. io.load_email_secrets secrets (declared cfg) ≡ (store, []))
                        IsBoot _ _ (store-Ends cfg secrets)
                        λ store known.
                          let path_of = google_path io (io.var env_google_auth_path) in
                          >>=-Ends (λ g. (build_google_store io path_of ≡ ok g) × Unit {0}) IsBoot
                            (build_google_store io path_of)
                            (λ g. ok (record {
                              cfg = cfg;
                              creds = store;
                              google = g;
                              data_dir = data_dir;
                            }))
                            (with_equation (λ g. Unit {0}) (build_google_store io path_of)
                              (google-Ends path_of))
                            λ g google. record {
                              path = path;
                              secrets = secrets;
                              at_path = at_path;
                              at_secrets = at_secrets;
                              at_data = at_data;
                              loaded = loaded.0;
                              known = known;
                              google = google.0;
                            }
