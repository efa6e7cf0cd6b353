-- ===== src/Boot/Resolve.antt =====
-- src/boot.rs, `apply_configure`: what the resolving of the labels gives.
use nexo_plugin_email.Base.{
  Str, false, Option, none, some, List, [], ◌∷◌, ◌++◌, ◌≡◌, refl, arith, if◌then◌else◌, All, any,
  codes, Bool-cases, inl, inr, str_eq, str_eq_iff, ◌⊎◌, trim, true,
}
use nexo_plugin_email.Boot.Label.{IsLabel, IsVerdict, sanitize_tenant_label_lem}
use nexo_plugin_email.Boot.{
  ConfigureError, duplicate_label, Result, ok, err, PathBuf, ResolvedTenant, sanitize_tenant_label,
  resolve_tenant_data_dir, raw_label_of, resolve_one, resolve_all, push,
}
use nexo_plugin_email.Config.{EmailPluginConfig}

abbrev pub find_tenant : Str → List ResolvedTenant → Option ResolvedTenant
find_tenant k [] = none
find_tenant k (r ∷ rs) = if str_eq r.label k then some r else find_tenant k rs

abbrev pub HasDistinctLabels : List ResolvedTenant → Type 0
HasDistinctLabels [] = Unit
HasDistinctLabels (r ∷ rs) = (find_tenant r.label rs ≡ none) × HasDistinctLabels rs

-- A tenant's label is one, its configuration has it, and its directory is named by it.
abbrev pub IsResolved : PathBuf → ResolvedTenant → Type 0
IsResolved data_root r =
    IsLabel r.label
    × (r.cfg.tenant ≡ some r.label)
    × (r.data_dir ≡ data_root ++ codes "email" ∷ r.label ∷ [])

abbrev pub IsFresh : List Str → ResolvedTenant → Type 0
IsFresh seen r = any (str_eq r.label) seen ≡ false

-- What the label of a configuration is found to be.
abbrev pub IsFound : EmailPluginConfig → Result Str → Type 0
IsFound cfg l = IsVerdict (trim (raw_label_of cfg.tenant)) l

-- The tenants are those of the configurations, one for each, in their order: each has the label of
-- its configuration, in lower case and without outer blanks, and that configuration with the label.
abbrev pub AllDeclared : List EmailPluginConfig → List ResolvedTenant → Type 0
AllDeclared [] [] = Unit {0}
AllDeclared (cfg ∷ configs) (r ∷ rs) =
    (IsFound cfg (ok r.label) × (r.cfg ≡ record cfg { tenant = some r.label }))
    × AllDeclared configs rs
AllDeclared _ _ = ⊥

-- Why one configuration is refused: its label is invalid in the way that the error says, or it is
-- one of those before.
abbrev pub IsRefused : List Str → EmailPluginConfig → ConfigureError → Type 0
IsRefused seen cfg e =
    IsFound cfg (err e)
    ⊎ ((label : Str) × IsFound cfg (ok label)
        × (any (str_eq label) seen ≡ true)
        × (e ≡ duplicate_label label))

-- The first configuration that is refused, and why; those before it have distinct labels.
abbrev pub Refuses : List Str → List EmailPluginConfig → ConfigureError → Type 0
Refuses seen [] e = ⊥
Refuses seen (cfg ∷ configs) e =
    IsRefused seen cfg e
    ⊎ ((label : Str) × IsFound cfg (ok label)
        × (any (str_eq label) seen ≡ false)
        × Refuses (label ∷ seen) configs e)

module _ (data_root : PathBuf) where
  -- What one round gives.
  abbrev OneResolved : List Str → EmailPluginConfig → Result ResolvedTenant → Type 0
  OneResolved seen cfg (ok r) =
      IsFresh seen r
      × IsResolved data_root r
      × IsFound cfg (ok r.label)
      × (r.cfg ≡ record cfg { tenant = some r.label })
  OneResolved seen cfg (err e) = IsRefused seen cfg e

  resolve_one_lem :
      (seen : List Str) (cfg : EmailPluginConfig) (l : Result Str)
      → IsFound cfg l
      → OneResolved seen cfg (resolve_one data_root seen cfg l)
  unfolding resolve_one resolve_tenant_data_dir
  resolve_one_lem seen cfg (err e) v = inl v
  resolve_one_lem seen cfg (ok label) v = elim (Bool-cases (any (str_eq label) seen)) [
    | inl again ↦ rw again (inr (label, v, again, refl))
    | inr fresh ↦ rw fresh (fresh, (v.1, refl, refl), v, refl)
  ]

  abbrev pub AllResolved : List Str → List EmailPluginConfig → Result (List ResolvedTenant) → Type 0
  AllResolved seen configs (err e) = Refuses seen configs e
  AllResolved seen configs (ok rs) =
      AllDeclared configs rs
      × All (IsFresh seen) rs
      × HasDistinctLabels rs
      × All (IsResolved data_root) rs

  unseen :
      (label : Str) (seen : List Str) (rs : List ResolvedTenant)
      → All (IsFresh (label ∷ seen)) rs
      → (find_tenant label rs ≡ none) × All (IsFresh seen) rs
  unfolding any
  unseen label seen [] h = (refl, tt)
  unseen label seen (r ∷ rs) (one, h) =
      let (absent, fresh) = unseen label seen rs h in
      (ground (arith, str_eq_iff r.label label), (ground arith, fresh))

  push_lem :
      (seen : List Str) (cfg : EmailPluginConfig) (configs : List EmailPluginConfig)
      (r : ResolvedTenant) (rest : Result (List ResolvedTenant))
      → OneResolved seen cfg (ok r)
      → AllResolved (r.label ∷ seen) configs rest
      → AllResolved seen (cfg ∷ configs) (push r rest)
  push_lem seen cfg configs r (err e) (fresh, resolved, is_found, same) h =
      inr (r.label, is_found, fresh, h)
  push_lem seen cfg configs r (ok rs) (fresh, resolved, is_found, same)
        (declared, later, distinct, all) =
      let (absent, still) = unseen r.label seen rs later in
      (((is_found, same), declared), (fresh, still), (absent, distinct), (resolved, all))

  next_lem :
      (seen : List Str) (cfg : EmailPluginConfig) (configs : List EmailPluginConfig)
      (one : Result ResolvedTenant)
      → OneResolved seen cfg one
      → ((label : Str)
          → AllResolved (label ∷ seen) configs (resolve_all data_root (label ∷ seen) configs))
      → (let rest : Result (List ResolvedTenant) = elim one [
        | err e ↦ err e
        | ok r ↦ push r (resolve_all data_root (r.label ∷ seen) configs)
      ] in
          AllResolved seen (cfg ∷ configs) rest)
  next_lem seen cfg configs (err e) h ih = inl h
  next_lem seen cfg configs (ok r) h ih =
      push_lem seen cfg configs r (resolve_all data_root (r.label ∷ seen) configs) h (ih r.label)

  pub resolve_all_lem :
      (seen : List Str) (configs : List EmailPluginConfig)
      → AllResolved seen configs (resolve_all data_root seen configs)
  unfolding resolve_all
  resolve_all_lem seen [] = (tt, tt, tt, tt)
  resolve_all_lem seen (cfg ∷ configs) =
      next_lem seen cfg configs
        (resolve_one data_root seen cfg (sanitize_tenant_label (raw_label_of cfg.tenant)))
        (resolve_one_lem seen cfg (sanitize_tenant_label (raw_label_of cfg.tenant))
          (sanitize_tenant_label_lem (raw_label_of cfg.tenant)).0)
        (λ label. resolve_all_lem (label ∷ seen) configs)
