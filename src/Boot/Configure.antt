-- ===== src/Boot/Configure.antt =====
-- src/boot.rs, `apply_configure`: the registry and the kept configurations after a call.
use nexo_plugin_email.Base.{
  Str, Bool, false, not, ◌&&◌, Option, none, some, List, [], ◌∷◌, ◌≡◌, refl, sym, ap, ◌∙◌, subst,
  inl, inr, ◌⊎◌, arith, if◌then◌else◌, All, Elem, any, map, Map, lookup, insert, remove, filter_by,
  lookup-insert, lookup-remove, Bool-cases, str_eq, str_eq_iff, str_is_eq,
}
use nexo_plugin_email.Boot.Resolve.{
  find_tenant, HasDistinctLabels, IsResolved, AllDeclared, Refuses, AllResolved, resolve_all_lem,
}
use nexo_plugin_email.Boot.{
  ConfigureError, factory_failed, Result, ok, err, PathBuf, ResolvedTenant, Tenants, resolve_all,
  keys, unregister_all, stale_labels, register_all, registered, configure_resolved, apply_configure,
  many,
}
use nexo_plugin_email.Config.{EmailPluginConfig}
use nexo_plugin_email.Plugin.{EmailPlugin}

lookup-unregister_all :
    (ls : List Str) (m : Map Str EmailPlugin) (k : Str)
    → lookup k (unregister_all ls m) ≡ (if any (str_eq k) ls then none else lookup k m)
unfolding unregister_all any
lookup-unregister_all [] m k = refl
lookup-unregister_all (l ∷ ls) m k = ground (
  arith,
  lookup-unregister_all ls (remove l m) k,
  lookup-remove l k m,
  str_eq_iff k l,
  str_eq_iff l k,
)

lookup_of_not_key :
    (m : Map Str EmailPlugin) (k : Str) → any (str_eq k) (keys m) ≡ false → lookup k m ≡ none
unfolding any lookup
lookup_of_not_key [] k h = refl
lookup_of_not_key ((j, p) ∷ m) k h =
    ground (arith, lookup_of_not_key m k, str_eq_iff k j, str_eq_iff j k)

any-filter_by :
    (q : Str → Bool) (ks : List Str) (k : Str)
    → any (str_eq k) (filter_by q ks) ≡ (any (str_eq k) ks && q k)
unfolding any filter_by
any-filter_by q [] k = refl
any-filter_by q (j ∷ ks) k = elim (Bool-cases (str_eq k j)) [
  | inl same ↦
      let e : k ≡ j = (str_eq_iff k j).0 same in
      let at : q j ≡ q k = ap q (sym e) in ground (arith, any-filter_by q ks k, at, same)
  | inr other ↦ ground (arith, any-filter_by q ks k, other)
]

abbrev is_declared : Str → List ResolvedTenant → Bool
is_declared k rs = any (str_eq k) (map (λ (r : ResolvedTenant). r.label) rs)

lookup-stale :
    (rs : List ResolvedTenant) (m : Map Str EmailPlugin) (k : Str)
    → is_declared k rs ≡ false
    → lookup k (unregister_all (stale_labels rs m) m) ≡ none
unfolding stale_labels
lookup-stale rs m k undeclared = ground (
  arith,
  undeclared,
  lookup-unregister_all (stale_labels rs m) m k,
  any-filter_by (λ j. not (is_declared j rs)) (keys m) k,
  lookup_of_not_key m k,
)

is_declared-find_tenant :
    (k : Str) (rs : List ResolvedTenant) → find_tenant k rs ≡ none → is_declared k rs ≡ false
unfolding any
is_declared-find_tenant k [] h = refl
is_declared-find_tenant k (r ∷ rs) h =
    ground (arith, is_declared-find_tenant k rs, str_eq_iff k r.label, str_eq_iff r.label k)

module _ (factory : EmailPluginConfig → PathBuf → Option EmailPlugin) where
  -- The plugin of a label after every tenant is registered.
  abbrev pub registered_at : Option ResolvedTenant → Option EmailPlugin → Option EmailPlugin
  registered_at none before = before
  registered_at (some r) before = factory r.cfg r.data_dir

  -- What the registering gives over a registry.
  abbrev IsRegistered :
      List ResolvedTenant → Map Str EmailPlugin → Map Str EmailPlugin × Option Str → Type 0
  IsRegistered rs m (m', none) =
      (k : Str) → lookup k m' ≡ registered_at (find_tenant k rs) (lookup k m)
  IsRegistered rs m (m', some label) =
      ((r : ResolvedTenant) × Elem r rs × (factory r.cfg r.data_dir ≡ none) × (label ≡ r.label))
      × ((k : Str) → find_tenant k rs ≡ none → lookup k m' ≡ lookup k m)

  extend-IsRegistered :
      (r : ResolvedTenant) (rs : List ResolvedTenant) (p : EmailPlugin) (m : Map Str EmailPlugin)
      (s : Map Str EmailPlugin × Option Str)
      → find_tenant r.label rs ≡ none
      → factory r.cfg r.data_dir ≡ some p
      → IsRegistered rs (insert r.label p m) s
      → IsRegistered (r ∷ rs) m s
  extend-IsRegistered r rs p m (m', none) absent made h = λ k.
      elim (Bool-cases (str_eq r.label k)) [
        | inl same ↦
            let e : r.label ≡ k = (str_eq_iff r.label k).0 same in
            let gone : find_tenant k rs ≡ none = subst (λ j. find_tenant j rs ≡ none) e absent in
            ground (arith, h k, gone, same, made, lookup-insert r.label k p m)
        | inr other ↦ ground (arith, h k, other, lookup-insert r.label k p m)
      ]
  extend-IsRegistered r rs p m (m', some label) absent made ((x, i, fails, e), h) =
      ((x, inr i, fails, e), λ k missing. ground (arith, h k, missing, lookup-insert r.label k p m))

  register_all_lem :
      (rs : List ResolvedTenant) (m : Map Str EmailPlugin)
      → HasDistinctLabels rs
      → IsRegistered rs m (register_all factory rs m)
  unfolding register_all
  register_all_lem [] m distinct = λ k. refl
  register_all_lem (r ∷ rs) m (absent, distinct) =
      built (factory r.cfg r.data_dir) refl (λ p. register_all_lem rs (insert r.label p m) distinct)
    where
      built :
          (o : Option EmailPlugin)
          → factory r.cfg r.data_dir ≡ o
          → ((p : EmailPlugin)
              → IsRegistered rs (insert r.label p m) (register_all factory rs (insert r.label p m)))
          → (let s : Map Str EmailPlugin × Option Str = elim o [
            | none ↦ (m, some r.label)
            | some plugin ↦ register_all factory rs (insert r.label plugin m)
          ] in
              IsRegistered (r ∷ rs) m s)
      built none fails ih = ((r, inl refl, fails, refl), λ k missing. refl)
      built (some p) made ih =
          extend-IsRegistered r rs p m (register_all factory rs (insert r.label p m)) absent made
            (ih p)

  -- What a call gives for resolved tenants.
  abbrev pub IsConfigured : List ResolvedTenant → Tenants → Tenants × Option ConfigureError → Type 0
  IsConfigured rs t (t', none) =
      ((k : Str) → lookup k t'.registry ≡ registered_at (find_tenant k rs) none)
      × (t'.configured_state ≡ some (map (λ (r : ResolvedTenant). r.cfg) rs))
  IsConfigured rs t (t', some e) =
      ((r : ResolvedTenant) × Elem r rs
        × (factory r.cfg r.data_dir ≡ none)
        × (e ≡ factory_failed r.label))
      × (t'.configured_state ≡ t.configured_state)
      × ((k : Str) → find_tenant k rs ≡ none → lookup k t'.registry ≡ none)

  absent_at :
      (rs : List ResolvedTenant) (m : Map Str EmailPlugin) (k : Str) (o : Option ResolvedTenant)
      → find_tenant k rs ≡ o
      → registered_at o (lookup k (unregister_all (stale_labels rs m) m)) ≡ registered_at o none
  absent_at rs m k none e = lookup-stale rs m k (is_declared-find_tenant k rs e)
  absent_at rs m k (some r) e = refl

  registered_lem :
      (rs : List ResolvedTenant) (t : Tenants) (s : Map Str EmailPlugin × Option Str)
      → IsRegistered rs (unregister_all (stale_labels rs t.registry) t.registry) s
      → IsConfigured rs t (registered factory rs s t)
  unfolding registered
  registered_lem rs t (m', none) h =
      (λ k. h k ∙ absent_at rs t.registry k (find_tenant k rs) refl, refl)
  registered_lem rs t (m', some label) ((r, i, fails, e), h) = (
    (r, i, fails, ap factory_failed e),
    refl,
    λ k missing. h k missing ∙ lookup-stale rs t.registry k (is_declared-find_tenant k rs missing),
  )

  -- What a call gives for each answer of the resolving.
  abbrev pub WhenResolved :
      PathBuf → Tenants → Tenants × Option ConfigureError → Result (List ResolvedTenant) → Type 0
  WhenResolved data_root t s (err e) = s ≡ (t, some e)
  WhenResolved data_root t s (ok rs) =
      HasDistinctLabels rs × All (IsResolved data_root) rs × IsConfigured rs t s

  pub configure_resolved_lem :
      (data_root : PathBuf) (configs : List EmailPluginConfig) (t : Tenants)
      (rs : Result (List ResolvedTenant))
      → AllResolved data_root [] configs rs
      → WhenResolved data_root t (configure_resolved factory rs t) rs
  unfolding configure_resolved
  configure_resolved_lem data_root configs t (err e) h = refl
  configure_resolved_lem data_root configs t (ok rs) (declared, fresh, distinct, resolved) = (
    distinct,
    resolved,
    registered_lem rs t
        (register_all factory rs (unregister_all (stale_labels rs t.registry) t.registry))
        (register_all_lem rs (unregister_all (stale_labels rs t.registry) t.registry) distinct),
  )

  -- The two outcomes of a call with the configurations of several tenants.
  abbrev pub IsOutcome :
      PathBuf → List EmailPluginConfig → Tenants → Tenants × Option ConfigureError → Type 0
  IsOutcome data_root configs t s =
      ((e : ConfigureError) × Refuses [] configs e × (s ≡ (t, some e)))
      ⊎ ((rs : List ResolvedTenant) × AllDeclared configs rs
          × HasDistinctLabels rs
          × All (IsResolved data_root) rs
          × IsConfigured rs t s)

  -- A configuration of several tenants. Either a label is blank, is longer than 64 characters, has
  -- another character than an ASCII letter, a digit, `_` or `-`, or is that of a configuration
  -- before; then the call ends with the error that says so, of the first such configuration, and
  -- changes nothing. Or each configuration gives a tenant, under its label in lower case and without
  -- outer blanks; the labels are distinct, and each tenant has its directory below the root, named
  -- by its label, and the label in its configuration. If the factory builds all of them, the
  -- registry then has for each label its plugin and for any other label none, and the configurations
  -- are kept. If it does not, the error names a tenant that it does not build, the configurations
  -- that were kept before stay, and a label that is not declared has no plugin.
  pub apply_configure_lem :
      (data_root : PathBuf) (configs : List EmailPluginConfig) (t : Tenants)
      → IsOutcome data_root configs t (apply_configure factory data_root (some (many configs)) t)
  unfolding apply_configure
  apply_configure_lem data_root configs t =
      let rs = resolve_all data_root [] configs in
      let answers = resolve_all_lem data_root [] configs in
      outcome rs answers (configure_resolved_lem data_root configs t rs answers)
    where
      outcome :
          (rs : Result (List ResolvedTenant))
          → AllResolved data_root [] configs rs
          → WhenResolved data_root t (configure_resolved factory rs t) rs
          → IsOutcome data_root configs t (configure_resolved factory rs t)
      outcome (err e) h same = inl (e, h, same)
      outcome (ok rs) (declared, fresh, d, all) (distinct, resolved, configured) =
          inr (rs, declared, distinct, resolved, configured)
