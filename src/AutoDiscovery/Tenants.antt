-- ===== src/AutoDiscovery/Tenants.antt =====
-- src/auto_discovery.rs with src/boot.rs: the list of tenants after a configuration.
use nexo_plugin_email.AutoDiscovery.Routes.{
  TenantRow, is_present, tenant_row, tenant_rows, flattened, configured_instances, instances_of,
}
use nexo_plugin_email.Base.{
  ℕ, ◌+◌, Str, true, Option, none, some, List, [], ◌∷◌, ◌≡◌, inl, inr, refl, sym, ap, ◌∙◌, subst,
  arith, map, Map, lookup, insert, All, length, length-append, str_eq, str_eq_iff, str_eq_refl,
  str_is_eq, Bool-cases,
}
use nexo_plugin_email.Boot.Configure.{registered_at, WhenResolved, configure_resolved_lem}
use nexo_plugin_email.Boot.Resolve.{find_tenant, HasDistinctLabels, IsResolved, resolve_all_lem}
use nexo_plugin_email.Boot.{
  ConfigureError, Result, ok, err, PathBuf, ResolvedTenant, Tenants, resolve_all, register_all,
  registered, configure_resolved, apply_configure, many, unregister_all, stale_labels, raw_label_of,
}
use nexo_plugin_email.Config.{EmailPluginConfig}
use nexo_plugin_email.Plugin.{EmailPlugin}
use nexo_plugin_email.Reload.{EmailAccountConfig}

abbrev pub sum_accounts : List TenantRow → ℕ
sum_accounts [] = 0
sum_accounts (r ∷ rows) = r.accounts_count + sum_accounts rows

length-map {ℓ κ} :
    {A : Type ℓ} {B : Type κ} (f : A → B) (xs : List A) → length (map f xs) ≡ length xs
length-map f [] = refl
length-map f (x ∷ xs) = omega (arith, length-map f xs)

rows-sum :
    (m : Map Str EmailPlugin) (cs : List EmailPluginConfig)
    → sum_accounts (map (tenant_row m) cs) ≡ length (flattened cs)
unfolding tenant_row flattened
rows-sum m [] = refl
rows-sum m (c ∷ cs) = omega (
  arith,
  length-append (instances_of c) (flattened cs),
  length-map (λ (a : EmailAccountConfig). a.instance_id) c.accounts,
  rows-sum m cs,
)

module _ (factory : EmailPluginConfig → PathBuf → Option EmailPlugin) where
  abbrev IsBuilt : ResolvedTenant → Type 0
  IsBuilt r = is_present (factory r.cfg r.data_dir) ≡ true

  register_all-IsBuilt :
      (rs : List ResolvedTenant) (m : Map Str EmailPlugin)
      → (register_all factory rs m).1 ≡ none
      → All IsBuilt rs
  unfolding register_all
  register_all-IsBuilt [] m h = tt
  register_all-IsBuilt (r ∷ rs) m h =
      built (factory r.cfg r.data_dir) refl h
        (λ p e. register_all-IsBuilt rs (insert r.label p m) e)
    where
      built :
          (o : Option EmailPlugin)
          → factory r.cfg r.data_dir ≡ o
          → (let s : Map Str EmailPlugin × Option Str = elim o [
            | none ↦ (m, some r.label)
            | some plugin ↦ register_all factory rs (insert r.label plugin m)
          ] in
              s.1 ≡ none
              → ((p : EmailPlugin)
                  → (register_all factory rs (insert r.label p m)).1 ≡ none
                  → All IsBuilt rs)
              → All IsBuilt (r ∷ rs))
      built none e h ih = absurd (cc)
      built (some p) e h ih = (ap is_present e, ih p h)

  abbrev FindsItself : List ResolvedTenant → ResolvedTenant → Type 0
  FindsItself rs r = find_tenant r.label rs ≡ some r

  later-FindsItself :
      (r : ResolvedTenant) (rs some_of : List ResolvedTenant)
      → find_tenant r.label rs ≡ none
      → All (FindsItself rs) some_of
      → All (FindsItself (r ∷ rs)) some_of
  later-FindsItself r rs [] absent h = tt
  later-FindsItself r rs (x ∷ xs) absent (e, h) = (
    elim (Bool-cases (str_eq r.label x.label)) [
      | inl same ↦
          let named : r.label ≡ x.label = (str_eq_iff r.label x.label).0 same in
          let gone : find_tenant x.label rs ≡ none =
            subst (λ k. find_tenant k rs ≡ none) named absent in
          absurd (cc (gone, e))
      | inr other ↦ rw other e
    ],
    later-FindsItself r rs xs absent h,
  )

  HasDistinctLabels-FindsItself :
      (rs : List ResolvedTenant) → HasDistinctLabels rs → All (FindsItself rs) rs
  HasDistinctLabels-FindsItself [] distinct = tt
  HasDistinctLabels-FindsItself (r ∷ rs) (absent, distinct) = (
    rw (str_eq_refl r.label),
    later-FindsItself r rs rs absent (HasDistinctLabels-FindsItself rs distinct),
  )

  rows-registered :
      (data_root : PathBuf) (m : Map Str EmailPlugin) (rs some_of : List ResolvedTenant)
      → ((k : Str) → lookup k m ≡ registered_at factory (find_tenant k rs) none)
      → All (FindsItself rs) some_of
      → All (IsResolved data_root) some_of
      → All IsBuilt some_of
      → All
          (λ (row : TenantRow). row.registered ≡ true)
          (map (tenant_row m) (map (λ (r : ResolvedTenant). r.cfg) some_of))
  unfolding tenant_row
  rows-registered data_root m rs [] at finds resolved built = tt
  rows-registered data_root m rs (r ∷ some_of) at (found, finds) (one, resolved) (made, built) = (
    subst (λ o. is_present (lookup (raw_label_of o) m) ≡ true) (sym one.1)
        (ap is_present (at r.label ∙ ap (λ o. registered_at factory o none) found) ∙ made),
    rows-registered data_root m rs some_of at finds resolved built,
  )

  registered-built :
      (rs : List ResolvedTenant) (s : Map Str EmailPlugin × Option Str) (t t' : Tenants)
      → registered factory rs s t ≡ (t', none)
      → s.1 ≡ none
  unfolding registered
  registered-built rs (m, none) t t' e = refl
  registered-built rs (m, some l) t t' e =
      absurd (cc (ap (λ (x : Tenants × Option ConfigureError). x.1) e))

  Listed : Tenants → Type 0
  Listed t =
      All (λ (row : TenantRow). row.registered ≡ true) (tenant_rows t.registry t.configured_state)
      × (sum_accounts (tenant_rows t.registry t.configured_state)
          ≡ length (configured_instances t.configured_state))

  -- After several tenants are configured without an error, every tenant that the admin method lists
  -- is said to be registered, and the accounts it counts for them are together as many as the
  -- instances that the plugin lists.
  pub apply_configure-tenant_rows :
      (data_root : PathBuf) (configs : List EmailPluginConfig) (t t' : Tenants)
      → apply_configure factory data_root (some (many configs)) t ≡ (t', none)
      → All
          (λ (row : TenantRow). row.registered ≡ true)
          (tenant_rows t'.registry t'.configured_state)
        × (sum_accounts (tenant_rows t'.registry t'.configured_state)
            ≡ length (configured_instances t'.configured_state))
  unfolding apply_configure Listed tenant_rows configured_instances
  apply_configure-tenant_rows data_root configs t t' e =
      by_result (resolve_all data_root [] configs)
        (subst (λ s. WhenResolved factory data_root t s (resolve_all data_root [] configs)) e
          (configure_resolved_lem factory data_root configs t (resolve_all data_root [] configs)
            (resolve_all_lem data_root [] configs)))
        e
    where
      by_result :
          (R : Result (List ResolvedTenant))
          → WhenResolved factory data_root t (t', none) R
          → configure_resolved factory R t ≡ (t', none)
          → Listed t'
      by_result (err x) h f = absurd (cc (ap (λ (x : Tenants × Option ConfigureError). x.1) f))
      by_result (ok rs) (distinct, resolved, (at, kept)) f =
          let stale = stale_labels rs t.registry in
          let built = register_all-IsBuilt rs (unregister_all stale t.registry) (
            registered-built rs (register_all factory rs (unregister_all stale t.registry)) t t'
              f) in
          let rows =
            rows-registered data_root t'.registry rs rs at
              (HasDistinctLabels-FindsItself rs distinct) resolved built in
          subst
            (λ o.
              All (λ (row : TenantRow). row.registered ≡ true) (tenant_rows t'.registry o)
              × (sum_accounts (tenant_rows t'.registry o) ≡ length (configured_instances o)))
            (sym kept) (rows, rows-sum t'.registry (map (λ (r : ResolvedTenant). r.cfg) rs))
