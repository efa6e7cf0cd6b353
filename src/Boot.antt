-- ===== src/Boot.antt =====
-- src/boot.rs, src/instance_registry.rs and src/configured_state.rs: the tenants that a configuration
-- declares, and the plugin that is registered for each. The YAML is read by serde_yaml, whose answer
-- is an argument; so is the factory of plugins. A path is the list of its components.
pub mod Label
pub mod Resolve
pub mod Configure
use nexo_plugin_email.Base.{
  ℕ, Str, Bool, true, false, not, ◌&&◌, ◌||◌, Option, none, some, List, [], ◌∷◌, ◌++◌, map, ◌==◌,
  leb, ltb, if◌then◌else◌, Map, insert, remove, any, str_eq, str_is_eq, codes, length, filter_by,
  trim, trim_start, trim_end, is_whitespace, to_ascii_lowercase,
}
use nexo_plugin_email.Config.{EmailPluginConfig}
use nexo_plugin_email.Plugin.{EmailPlugin}

pub data ConfigureError : Type 0 where
  invalid_config empty_label long_label invalid_characters : ConfigureError
  duplicate_label factory_failed : Str → ConfigureError

pub data Result (A : Type 0) : Type 0 where
  ok : A → Result A
  err : ConfigureError → Result A

-- c.is_ascii_alphanumeric() || c == '_' || c == '-'
unfoldable pub is_label_char : ℕ → Bool
is_label_char c =
    (leb b'a' c && leb c b'z')
    || (leb b'A' c && leb c b'Z')
    || (leb b'0' c && leb c b'9')
    || c == b'_'
    || c == b'-'

unfoldable pub sanitize_trimmed : Str → Result Str
unfolding is_label_char any to_ascii_lowercase
sanitize_trimmed [] = err empty_label
sanitize_trimmed (c ∷ s) =
    if ltb 64 (length (c ∷ s))
    then err long_label
    else if any (λ d. not (is_label_char d)) (c ∷ s)
    then err invalid_characters
    else ok (to_ascii_lowercase (c ∷ s))

unfoldable pub sanitize_tenant_label : Str → Result Str
unfolding trim_start trim_end is_whitespace sanitize_trimmed
sanitize_tenant_label raw = sanitize_trimmed (trim raw)

abbrev pub PathBuf : Type 0
PathBuf = List Str

unfoldable pub resolve_tenant_data_dir : PathBuf → Str → PathBuf
resolve_tenant_data_dir base tenant = base ++ codes "email" ∷ tenant ∷ []

pub data EmailPluginShape : Type 0 where
  single : EmailPluginConfig → EmailPluginShape
  many : List EmailPluginConfig → EmailPluginShape

unfoldable pub into_vec : EmailPluginShape → List EmailPluginConfig
into_vec (single c) = c ∷ []
into_vec (many v) = v

-- The registry, and the state that keeps the configurations.
pub record Tenants : Type 0 where
  pub registry : Map Str EmailPlugin
  pub configured_state : Option (List EmailPluginConfig)

pub record ResolvedTenant : Type 0 where
  pub label : Str
  pub cfg : EmailPluginConfig
  pub data_dir : PathBuf

abbrev pub raw_label_of : Option Str → Str
raw_label_of none = codes "default"
raw_label_of (some label) = label

-- one round of the loop that resolves, from the sanitised label on
unfoldable pub resolve_one :
    PathBuf → List Str → EmailPluginConfig → Result Str → Result ResolvedTenant
unfolding any str_eq resolve_tenant_data_dir
resolve_one data_root seen cfg (err e) = err e
resolve_one data_root seen cfg (ok label) =
    if any (str_eq label) seen
    then err (duplicate_label label)
    else ok (record {
      label = label;
      cfg = record cfg { tenant = some label };
      data_dir = resolve_tenant_data_dir data_root label;
    })

abbrev pub push : ResolvedTenant → Result (List ResolvedTenant) → Result (List ResolvedTenant)
push r (ok rs) = ok (r ∷ rs)
push r (err e) = err e

unfoldable pub resolve_all :
    PathBuf → List Str → List EmailPluginConfig → Result (List ResolvedTenant)
unfolding resolve_one sanitize_tenant_label
resolve_all data_root seen [] = ok []
resolve_all data_root seen (cfg ∷ configs) =
    elim (resolve_one data_root seen cfg (sanitize_tenant_label (raw_label_of cfg.tenant))) [
      | err e ↦ err e
      | ok r ↦ push r (resolve_all data_root (r.label ∷ seen) configs)
    ]

abbrev pub keys : Map Str EmailPlugin → List Str
keys m = map (λ (e : Str × EmailPlugin). e.0) m

unfoldable pub unregister_all : List Str → Map Str EmailPlugin → Map Str EmailPlugin
unfolding remove
unregister_all [] m = m
unregister_all (label ∷ rest) m = unregister_all rest (remove label m)

-- the labels of before that are not declared any more
unfoldable pub stale_labels : List ResolvedTenant → Map Str EmailPlugin → List Str
unfolding filter_by any str_eq
stale_labels resolved registry =
    filter_by (λ k. not (any (str_eq k) (map (λ (r : ResolvedTenant). r.label) resolved)))
      (keys registry)

module _ (factory : EmailPluginConfig → PathBuf → Option EmailPlugin) where
  -- A plugin that is built is registered before the next one is built. The answer is the registry,
  -- and the label that failed.
  unfoldable pub register_all :
      List ResolvedTenant → Map Str EmailPlugin → Map Str EmailPlugin × Option Str
  unfolding insert
  register_all [] m = (m, none)
  register_all (r ∷ rest) m = elim (factory r.cfg r.data_dir) [
    | none ↦ (m, some r.label)
    | some plugin ↦ register_all rest (insert r.label plugin m)
  ]

  unfoldable pub registered :
      List ResolvedTenant
      → Map Str EmailPlugin × Option Str
      → Tenants
      → Tenants × Option ConfigureError
  registered resolved (m, some label) t = (record t { registry = m }, some (factory_failed label))
  registered resolved (m, none) t = (
    record { registry = m; configured_state = some (map (λ (r : ResolvedTenant). r.cfg) resolved) },
    none,
  )

  -- from the resolved labels on
  unfoldable pub configure_resolved :
      Result (List ResolvedTenant) → Tenants → Tenants × Option ConfigureError
  unfolding register_all registered unregister_all stale_labels
  configure_resolved (err e) t = (t, some e)
  configure_resolved (ok resolved) t =
      registered resolved
        (register_all resolved (unregister_all (stale_labels resolved t.registry) t.registry)) t

  unfoldable pub apply_configure :
      PathBuf → Option EmailPluginShape → Tenants → Tenants × Option ConfigureError
  unfolding configure_resolved resolve_all unregister_all
  apply_configure data_root none t = (t, some invalid_config)
  apply_configure data_root (some (single c)) t = (
    record {
      registry = unregister_all (keys t.registry) t.registry;
      configured_state = some (c ∷ []);
    },
    none,
  )
  apply_configure data_root (some (many configs)) t =
      configure_resolved (resolve_all data_root [] configs) t
