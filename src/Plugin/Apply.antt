-- ===== src/Plugin/Apply.antt =====
-- src/plugin.rs, `apply_account_diff`: which accounts have workers after a reload of a plugin that is
-- running.
use nexo_plugin_email.Base.{
  Str, true, Option, none, some, List, [], ◌∷◌, ◌≡◌, refl, ap, ◌∙◌, inl, inr, arith, if◌then◌else◌,
  Bool-cases, any, All,
}
use nexo_plugin_email.Config.{EmailPluginConfig}
use nexo_plugin_email.InboundManager.{InboundManager}
use nexo_plugin_email.OutboundDispatcher.{OutboundDispatcher}
use nexo_plugin_email.Plugin.Spawn.{read_at, sent_at, or_account}
use nexo_plugin_email.Plugin.Loops.{
  up, RunsOn, removed_at, respawned_at, spawned_at, IsSpawnable, remove_all_lem, respawn_all_lem,
  spawn_all_lem,
}
use nexo_plugin_email.Plugin.{
  Host, GcTasks, and_then, is_empty, respawn_all, spawn_all, apply_diff, apply_account_diff,
}
use nexo_plugin_email.Reload.Diff.{
  HasDistinctInstances, added_of, changed_of, is_removed, changed_of-none, diff_new_lem,
  compute_account_diff_lem,
}
use nexo_plugin_email.Reload.{
  EmailAccountConfig, AccountDiff, accounts_equal, find_account, push_new, diff_new,
  compute_account_diff,
}

-- What the new accounts that are added or changed have of the new accounts.
module _ (P : EmailAccountConfig → Type 0) where
  All-push_new :
      (o : Option EmailAccountConfig) (a : EmailAccountConfig) (d : AccountDiff)
      → P a
      → All P d.changed × All P d.added
      → All P (push_new o a d).changed × All P (push_new o a d).added
  unfolding push_new
  All-push_new none a d p (changed, added) = (changed, (p, added))
  All-push_new (some b) a d p (changed, added) = elim (Bool-cases (accounts_equal b a)) [
    | inl same ↦ rw same (changed, added)
    | inr other ↦ rw other ((p, changed), added)
  ]

  pub All-diff_new :
      (old new : List EmailAccountConfig)
      → All P new
      → All P (diff_new old new).changed × All P (diff_new old new).added
  unfolding diff_new
  All-diff_new old [] h = (h, h)
  All-diff_new old (a ∷ rest) (p, h) =
      All-push_new (find_account a.instance_id old) a (diff_new old rest) p
        (All-diff_new old rest h)

push_new-HasDistinctInstances :
    (o : Option EmailAccountConfig) (a : EmailAccountConfig) (d : AccountDiff)
    → find_account a.instance_id d.changed ≡ none
    → HasDistinctInstances d.changed
    → HasDistinctInstances (push_new o a d).changed
unfolding push_new
push_new-HasDistinctInstances none a d alone h = h
push_new-HasDistinctInstances (some b) a d alone h = elim (Bool-cases (accounts_equal b a)) [
  | inl same ↦ rw same h
  | inr other ↦ rw other (alone, h)
]

changed-HasDistinctInstances :
    (old new : List EmailAccountConfig)
    → HasDistinctInstances new
    → HasDistinctInstances (diff_new old new).changed
unfolding diff_new
changed-HasDistinctInstances old [] h = h
changed-HasDistinctInstances old (a ∷ rest) (alone, h) =
    push_new-HasDistinctInstances (find_account a.instance_id old) a (diff_new old rest)
      ((diff_new_lem old rest a.instance_id h).1
        ∙ ap (changed_of (find_account a.instance_id old)) alone
        ∙ changed_of-none (find_account a.instance_id old))
      (changed-HasDistinctInstances old rest h)

-- What a reload makes of the account that an instance has a worker for, from its accounts in the
-- configuration that the plugin was built with and in the new one.
abbrev pub reloaded : (booted new running : Option EmailAccountConfig) → Option EmailAccountConfig
reloaded none new running = or_account running new
reloaded (some b) none running = none
reloaded (some b) (some a) running = if accounts_equal b a then running else some a

reloaded_lem :
    (b n o : Option EmailAccountConfig)
    → or_account (or_account (changed_of b n) (if is_removed b n then none else o)) (added_of b n)
      ≡ reloaded b n o
reloaded_lem none n none = refl
reloaded_lem none n (some o) = refl
reloaded_lem (some b) none o = refl
reloaded_lem (some b) (some a) none = ground arith
reloaded_lem (some b) (some a) (some o) = ground arith

-- The three loops at one instance.
abbrev looped : AccountDiff → Str → Option EmailAccountConfig → Option EmailAccountConfig
looped diff id o =
    spawned_at diff.added id (respawned_at diff.changed id (removed_at diff.removed id o))

looped_lem :
    (old new : List EmailAccountConfig) (id : Str) (o : Option EmailAccountConfig)
    → HasDistinctInstances new
    → looped (compute_account_diff old new) id o
      ≡ reloaded (find_account id old) (find_account id new) o
looped_lem old new id o distinct =
    let (added, changed, removed) = compute_account_diff_lem old new id distinct in
    rw (added, changed, removed) (reloaded_lem (find_account id old) (find_account id new) o)

looped-is_empty :
    (diff : AccountDiff) (id : Str) (o : Option EmailAccountConfig)
    → is_empty diff ≡ true
    → o ≡ looped diff id o
unfolding is_empty find_account any
looped-is_empty diff id o h = ground arith

module _ (host : Host) (new_cfg : EmailPluginConfig) (c : EmailPluginConfig) (g : GcTasks) where
  apply_diff_lem :
      (diff : AccountDiff) (m : InboundManager) (d : OutboundDispatcher)
      → HasDistinctInstances diff.changed
      → All (IsSpawnable host) diff.changed
      → All (IsSpawnable host) diff.added
      → RunsOn c g (looped diff) m d (apply_diff host new_cfg diff (up c g m d))
  unfolding apply_diff and_then
  apply_diff_lem diff m d distinct changed added =
      let (m1, d1, e1, reads1, sends1) = remove_all_lem c g diff.removed m d in
      let (m2, d2, e2, reads2, sends2) =
        respawn_all_lem host new_cfg c g diff.changed m1 d1 distinct changed in
      let (m3, d3, e3, reads3, sends3) = spawn_all_lem host new_cfg c g diff.added m2 d2 added in
      (
        m3,
        d3,
        ap
              (λ s.
                and_then (respawn_all host new_cfg diff.changed s.0)
                  (spawn_all host new_cfg diff.added))
              e1
            ∙ ap (λ s. and_then s (spawn_all host new_cfg diff.added)) e2
            ∙ e3,
        λ id.
            reads3 id
            ∙ ap (λ o. spawned_at diff.added id o)
                (reads2 id ∙ ap (λ o. respawned_at diff.changed id o) (reads1 id)),
        λ id.
            sends3 id
            ∙ ap (λ o. spawned_at diff.added id o)
                (sends2 id ∙ ap (λ o. respawned_at diff.changed id o) (sends1 id)),
      )

  -- For a running plugin, when the new accounts have distinct instances and each has its credential
  -- and a queue that opens, and the cursor store opens: a reload succeeds, and both managers run on;
  -- for every instance, its worker to read and its worker to send are afterwards as follows. With no
  -- account in the configuration that the plugin was built with, a worker that runs stays, and
  -- otherwise one is spawned for the new account, if there is one. With an account there and none
  -- in the new configuration, there is no worker. With two that do not differ the worker stays, and
  -- with two that differ it is one for the new account.
  pub apply_account_diff_lem :
      (m : InboundManager) (d : OutboundDispatcher)
      → HasDistinctInstances new_cfg.accounts
      → All (IsSpawnable host) new_cfg.accounts
      → host.cursor_opens ≡ true
      → RunsOn c g
          (λ id. reloaded (find_account id c.accounts) (find_account id new_cfg.accounts))
          m
          d
          (apply_account_diff host new_cfg (up c g m d))
  unfolding apply_account_diff compute_account_diff
  apply_account_diff_lem m d distinct spawnable cursor =
      let diff = compute_account_diff c.accounts new_cfg.accounts in
      let at = looped_lem c.accounts new_cfg.accounts in
      elim (Bool-cases (is_empty diff)) [
        | inl none_changed ↦ (
          m,
          d,
          ground (arith, none_changed),
          λ id. looped-is_empty diff id (read_at id m) none_changed ∙ at id (read_at id m) distinct,
          λ id. looped-is_empty diff id (sent_at id d) none_changed ∙ at id (sent_at id d) distinct,
        )
        | inr some_changed ↦
            let parts = All-diff_new (IsSpawnable host) c.accounts new_cfg.accounts spawnable in
            let (m', d', same, reads, sends) =
              apply_diff_lem diff m d
                (changed-HasDistinctInstances c.accounts new_cfg.accounts distinct) parts.0
                parts.1 in
            (
              m',
              d',
              ground (arith, some_changed, cursor, same),
              λ id. reads id ∙ at id (read_at id m) distinct,
              λ id. sends id ∙ at id (sent_at id d) distinct,
            )
      ]
