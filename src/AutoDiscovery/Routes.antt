-- ===== src/AutoDiscovery/Routes.antt =====
-- src/auto_discovery.rs, src/runtime_handle.rs: the HTTP routes and the admin methods, by what
-- their JSON says. The keys of the health map are sorted by the standard library.
use nexo_plugin_email.Base.{
  ℕ, Str, Bool, true, false, Option, none, some, List, [], ◌∷◌, ◌++◌, ◌&&◌, map, if◌then◌else◌,
  codes, str_eq, str_is_eq, length, lookup, Map,
}
use nexo_plugin_email.Boot.{Tenants, raw_label_of}
use nexo_plugin_email.Config.{EmailPluginConfig}
use nexo_plugin_email.Health.{AccountHealth, HealthMap}
use nexo_plugin_email.Plugin.{EmailPlugin}
use nexo_plugin_email.Reload.{EmailAccountConfig}

abbrev pub instances_of : EmailPluginConfig → List Str
instances_of c = map (λ (a : EmailAccountConfig). a.instance_id) c.accounts

unfoldable pub flattened : List EmailPluginConfig → List Str
flattened [] = []
flattened (c ∷ cs) = instances_of c ++ flattened cs

unfoldable pub configured_instances : Option (List EmailPluginConfig) → List Str
unfolding flattened
configured_instances none = []
configured_instances (some cs) = flattened cs

-- `EmailPlugin::health_map`
unfoldable pub health_map : EmailPlugin → Option HealthMap
health_map p = elim p.inbound [ none ↦ none | some m ↦ some m.health ]

abbrev pub names : HealthMap → List Str
names m = map (λ (e : Str × AccountHealth). e.0) m

-- a row of a key that has gone meanwhile is left out
unfoldable pub health_rows : HealthMap → List Str → List (Str × AccountHealth)
unfolding lookup
health_rows m [] = []
health_rows m (k ∷ ks) =
    let rest = health_rows m ks in elim (lookup k m) [ none ↦ rest | some h ↦ (k, h) ∷ rest ]

pub data HttpBody : Type 0 where
  health_snapshot : List (Str × AccountHealth) → HttpBody
  plugin_status : List Str → HttpBody
  not_found_body : HttpBody

pub record HttpReply : Type 0 where
  pub status : ℕ
  pub body : HttpBody

unfoldable pub or_default_text : Option Str → Str → Str
or_default_text none d = d
or_default_text (some s) d = s

module _ (sort : List Str → List Str) where
  unfoldable pub snapshot_of : Option HealthMap → List (Str × AccountHealth)
  unfolding health_rows
  snapshot_of none = []
  snapshot_of (some m) = health_rows m (sort (names m))

  -- The handle is empty until the plugin has started.
  unfoldable pub render_health_snapshot : Option EmailPlugin → List (Str × AccountHealth)
  unfolding snapshot_of health_map
  render_health_snapshot none = []
  render_health_snapshot (some p) = snapshot_of (health_map p)

  unfoldable pub http_request :
      Option EmailPlugin → Option (List EmailPluginConfig) → Option Str → Option Str → HttpReply
  unfolding or_default_text str_eq render_health_snapshot configured_instances
  http_request handle configured method path =
      let m = or_default_text method (codes "GET") in
      let p = or_default_text path (codes "/") in
      if str_eq m (codes "GET") && str_eq p (codes "/email/health")
      then record { status = 200; body = health_snapshot (render_health_snapshot handle) }
      else if str_eq m (codes "GET") && str_eq p (codes "/email/status")
      then record { status = 200; body = plugin_status (configured_instances configured) }
      else record { status = 404; body = not_found_body }

pub record TenantRow : Type 0 where
  pub tenant : Str
  pub accounts_count : ℕ
  pub registered : Bool
  pub allow_agents : List Str

abbrev pub is_present : Option EmailPlugin → Bool
is_present none = false
is_present (some p) = true

unfoldable pub tenant_row : Map Str EmailPlugin → EmailPluginConfig → TenantRow
unfolding lookup
tenant_row registry cfg = record {
  tenant = raw_label_of cfg.tenant;
  accounts_count = length cfg.accounts;
  registered = is_present (lookup (raw_label_of cfg.tenant) registry);
  allow_agents = cfg.allow_agents;
}

unfoldable pub tenant_rows : Map Str EmailPlugin → Option (List EmailPluginConfig) → List TenantRow
unfolding tenant_row
tenant_rows registry none = []
tenant_rows registry (some cs) = map (tenant_row registry) cs

pub data AdminReply : Type 0 where
  bot_info list_instances : List Str → AdminReply
  list_tenants : List TenantRow → AdminReply
  unknown_method : Str → AdminReply

unfoldable pub admin_method : Tenants → Str → AdminReply
unfolding str_eq configured_instances tenant_rows
admin_method t method =
    if str_eq method (codes "nexo/admin/email/bot_info")
    then bot_info (configured_instances t.configured_state)
    else if str_eq method (codes "nexo/admin/email/list_instances")
    then list_instances (configured_instances t.configured_state)
    else if str_eq method (codes "nexo/admin/email/list_tenants")
    then list_tenants (tenant_rows t.registry t.configured_state)
    else unknown_method method

unfoldable pub admin_handle : Tenants → Option Str → AdminReply
unfolding admin_method
admin_handle t none = admin_method t []
admin_handle t (some method) = admin_method t method
