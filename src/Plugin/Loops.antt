-- ===== src/Plugin/Loops.antt =====
-- src/plugin.rs, the loops of `apply_account_diff`: which accounts have workers after each, in a
-- plugin that is running.
use nexo_plugin_email.Base.{
  Str, true, Option, none, some, List, [], ◌∷◌, ◌≡◌, refl, ap, ◌∙◌, inl, inr, subst, arith,
  if◌then◌else◌, Bool-cases, any, All, str_eq, str_eq_iff,
}
use nexo_plugin_email.Config.{EmailPluginConfig}
use nexo_plugin_email.InboundManager
use nexo_plugin_email.InboundManager.{InboundManager}
use nexo_plugin_email.OutboundDispatcher
use nexo_plugin_email.OutboundDispatcher.{OutboundDispatcher, open_queue}
use nexo_plugin_email.OutboundQueue.{OutboundQueue}
use nexo_plugin_email.Plugin.Spawn.{
  read_at, sent_at, or_account, with_added, without, read_at-add_account, read_at-remove_account,
  sent_at-remove_account, sent_at-add_account,
}
use nexo_plugin_email.Plugin.{
  Host, EmailPlugin, GcTasks, Step, and_then, remove_outbound, remove_inbound, remove_all,
  outbound_added, spawn_outbound, spawn_checked, spawn_account, respawn_all, spawn_all,
}
use nexo_plugin_email.Reload.Diff.{HasDistinctInstances}
use nexo_plugin_email.Reload.{EmailAccountConfig, find_account}

-- A plugin that is running.
abbrev pub up : EmailPluginConfig → GcTasks → InboundManager → OutboundDispatcher → EmailPlugin
up c g m d = record { cfg = c; inbound = some m; outbound = some d; gc_tasks = g }

-- Both managers go on, each with the account of every instance as `f` says.
abbrev pub RunsOn :
    EmailPluginConfig
    → GcTasks
    → (Str → Option EmailAccountConfig → Option EmailAccountConfig)
    → InboundManager
    → OutboundDispatcher
    → Step
    → Type 0
RunsOn c g f m d s =
    (m' : InboundManager) × (d' : OutboundDispatcher) × (s ≡ (up c g m' d', none))
    × ((id : Str) → read_at id m' ≡ f id (read_at id m))
    × ((id : Str) → sent_at id d' ≡ f id (sent_at id d))

abbrev pub removed_at : List Str → Str → Option EmailAccountConfig → Option EmailAccountConfig
removed_at gone id o = if any (str_eq id) gone then none else o

abbrev pub respawned_at :
    List EmailAccountConfig → Str → Option EmailAccountConfig → Option EmailAccountConfig
respawned_at accounts id o = or_account (find_account id accounts) o

abbrev pub spawned_at :
    List EmailAccountConfig → Str → Option EmailAccountConfig → Option EmailAccountConfig
spawned_at accounts id o = or_account o (find_account id accounts)

removed_at-cons :
    (gone : Str) (rest : List Str) (id : Str) (o : Option EmailAccountConfig)
    → removed_at rest id (without gone id o) ≡ removed_at (gone ∷ rest) id o
unfolding any
removed_at-cons gone rest id o = ground (arith, str_eq_iff gone id, str_eq_iff id gone)

respawned_at-cons :
    (a : EmailAccountConfig) (rest : List EmailAccountConfig) (id : Str)
    (o : Option EmailAccountConfig)
    → find_account a.instance_id rest ≡ none
    → respawned_at rest id (with_added a id (without a.instance_id id o))
      ≡ respawned_at (a ∷ rest) id o
unfolding find_account
respawned_at-cons a rest id o alone = elim (Bool-cases (str_eq a.instance_id id)) [
  | inl same ↦
      let gone : find_account id rest ≡ none =
        subst (λ i. find_account i rest ≡ none) ((str_eq_iff a.instance_id id).0 same) alone in
      rw (same, gone) refl
  | inr other ↦ rw other refl
]

pub spawned_at-cons :
    (a : EmailAccountConfig) (rest : List EmailAccountConfig) (id : Str)
    (o : Option EmailAccountConfig)
    → spawned_at rest id (with_added a id o) ≡ spawned_at (a ∷ rest) id o
unfolding find_account
spawned_at-cons a rest id o = ground arith

pub remove_all_lem :
    (c : EmailPluginConfig) (g : GcTasks) (gone : List Str) (m : InboundManager)
    (d : OutboundDispatcher)
    → RunsOn c g (removed_at gone) m d (remove_all gone (up c g m d), none)
unfolding remove_all remove_outbound remove_inbound any
remove_all_lem c g [] m d = (m, d, refl, λ id. refl, λ id. refl)
remove_all_lem c g (x ∷ gone) m d =
    let m1 = (InboundManager.remove_account x m).0 in
    let d1 = (OutboundDispatcher.remove_account x d).0 in
    let (m', d', same, reads, sends) = remove_all_lem c g gone m1 d1 in
    (
      m',
      d',
      same,
      λ id.
          reads id
          ∙ ap (removed_at gone id) (read_at-remove_account x m id)
          ∙ removed_at-cons x gone id (read_at id m),
      λ id.
          sends id
          ∙ ap (removed_at gone id) (sent_at-remove_account x d id)
          ∙ removed_at-cons x gone id (sent_at id d),
    )

-- The account has its credential, and its queue opens.
abbrev pub IsSpawnable : Host → EmailAccountConfig → Type 0
IsSpawnable host a =
    (host.has_credential a.instance_id ≡ true)
    × ((q : OutboundQueue) × (open_queue host.disk a.instance_id ≡ some q))

module _ (host : Host) (new_cfg : EmailPluginConfig) (c : EmailPluginConfig) (g : GcTasks) where
  spawn_account_lem :
      (a : EmailAccountConfig) (m : InboundManager) (d : OutboundDispatcher)
      → IsSpawnable host a
      → RunsOn c g (with_added a) m d (spawn_account host new_cfg a (up c g m d))
  unfolding spawn_account spawn_checked spawn_outbound outbound_added
  spawn_account_lem a m d (credential, (q, opened)) =
      let m1 = (InboundManager.add_account new_cfg a host.bounce_opens host.attachments_open m).0 in
      let (d', h', added, sends) = sent_at-add_account host.disk a q d m1.health opened in
      (
        record m1 { health = h' },
        d',
        ground (arith, credential, added),
        read_at-add_account new_cfg a host.bounce_opens host.attachments_open m,
        sends,
      )

  pub respawn_all_lem :
      (accounts : List EmailAccountConfig) (m : InboundManager) (d : OutboundDispatcher)
      → HasDistinctInstances accounts
      → All (IsSpawnable host) accounts
      → RunsOn c g (respawned_at accounts) m d (respawn_all host new_cfg accounts (up c g m d))
  unfolding respawn_all remove_outbound remove_inbound find_account and_then
  respawn_all_lem [] m d distinct spawnable = (m, d, refl, λ id. refl, λ id. refl)
  respawn_all_lem (a ∷ rest) m d (alone, distinct) (one, spawnable) =
      let m1 = (InboundManager.remove_account a.instance_id m).0 in
      let d1 = (OutboundDispatcher.remove_account a.instance_id d).0 in
      let (m2, d2, spawned, reads2, sends2) = spawn_account_lem a m1 d1 one in
      let (m', d', same, reads, sends) = respawn_all_lem rest m2 d2 distinct spawnable in
      (
        m',
        d',
        rw spawned same,
        λ id.
            reads id
            ∙ ap (respawned_at rest id)
                (reads2 id ∙ ap (with_added a id) (read_at-remove_account a.instance_id m id))
            ∙ respawned_at-cons a rest id (read_at id m) alone,
        λ id.
            sends id
            ∙ ap (respawned_at rest id)
                (sends2 id ∙ ap (with_added a id) (sent_at-remove_account a.instance_id d id))
            ∙ respawned_at-cons a rest id (sent_at id d) alone,
      )

  pub or_account-none : (o : Option EmailAccountConfig) → o ≡ or_account o none
  or_account-none none = refl
  or_account-none (some b) = refl

  pub spawn_all_lem :
      (accounts : List EmailAccountConfig) (m : InboundManager) (d : OutboundDispatcher)
      → All (IsSpawnable host) accounts
      → RunsOn c g (spawned_at accounts) m d (spawn_all host new_cfg accounts (up c g m d))
  unfolding spawn_all find_account and_then
  spawn_all_lem [] m d spawnable =
      (m, d, refl, λ id. or_account-none (read_at id m), λ id. or_account-none (sent_at id d))
  spawn_all_lem (a ∷ rest) m d (one, spawnable) =
      let (m1, d1, spawned, reads1, sends1) = spawn_account_lem a m d one in
      let (m', d', same, reads, sends) = spawn_all_lem rest m1 d1 spawnable in
      (
        m',
        d',
        rw spawned same,
        λ id.
            reads id
            ∙ ap (spawned_at rest id) (reads1 id)
            ∙ spawned_at-cons a rest id (read_at id m),
        λ id.
            sends id
            ∙ ap (spawned_at rest id) (sends1 id)
            ∙ spawned_at-cons a rest id (sent_at id d),
      )
