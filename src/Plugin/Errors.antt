-- ===== src/Plugin/Errors.antt =====
-- src/plugin.rs, `apply_account_diff`: what its errors say, and what they leave.
use nexo_plugin_email.Base.{
  Bool, true, false, Option, none, some, List, [], ◌∷◌, ◌≡◌, refl, sym, ◌⊎◌, inl, inr, subst, arith,
  All, Elem, Option-cases, lookup, str_is_eq,
}
use nexo_plugin_email.Config.{EmailPluginConfig}
use nexo_plugin_email.InboundManager
use nexo_plugin_email.InboundManager.{InboundManager}
use nexo_plugin_email.OutboundDispatcher
use nexo_plugin_email.OutboundDispatcher.{OutboundDispatcher, add_opened, open_queue}
use nexo_plugin_email.OutboundQueue.{OutboundQueue}
use nexo_plugin_email.Plugin.Apply.{All-diff_new}
use nexo_plugin_email.Plugin.Loops.{up, remove_all_lem}
use nexo_plugin_email.Plugin.{
  Host, EmailPlugin, GcTasks, Step, PluginError, cursor_failed, no_credential, queue_failed,
  inbound_not_running, outbound_not_running, and_then, remove_outbound, remove_inbound, teardown,
  remove_all, outbound_added, spawn_outbound, spawn_checked, spawn_account, respawn_all, spawn_all,
  is_empty, apply_diff, apply_account_diff,
}
use nexo_plugin_email.Reload.{EmailAccountConfig, AccountDiff, compute_account_diff}

-- An error tells of one account that its credential is missing or that its queue does not open.
abbrev pub Blames : Host → EmailAccountConfig → PluginError → Type 0
Blames host a (no_credential id) =
    (id ≡ a.instance_id) × (host.has_credential a.instance_id ≡ false)
Blames host a queue_failed = open_queue host.disk a.instance_id ≡ none
Blames host a cursor_failed = ⊥
Blames host a inbound_not_running = ⊥
Blames host a outbound_not_running = ⊥

-- The plugin runs on, and an error blames an account that has the property.
abbrev pub StaysUp :
    (EmailAccountConfig → Type 0) → Host → EmailPluginConfig → GcTasks → Step → Type 0
StaysUp P host c g (p, e) =
    ((m : InboundManager) × (d : OutboundDispatcher) × (p ≡ up c g m d))
    × ((e ≡ none)
        ⊎ ((err : PluginError) × (a : EmailAccountConfig) × (e ≡ some err)
            × P a
            × Blames host a err))

module _ (P : EmailAccountConfig → Type 0) (host : Host) (new_cfg : EmailPluginConfig)
    (c : EmailPluginConfig) (g : GcTasks) where
  add_opened-StaysUp :
      (a : EmailAccountConfig) (o : Option OutboundQueue) (m0 m : InboundManager)
      (d : OutboundDispatcher)
      → P a
      → open_queue host.disk a.instance_id ≡ o
      → StaysUp P host c g (outbound_added (add_opened a o d m.health) m (up c g m0 d))
  unfolding outbound_added add_opened
  add_opened-StaysUp a none m0 m d h e = ((m, d, refl), inr (queue_failed, a, refl, h, e))
  add_opened-StaysUp a (some queue) m0 m d h e = ((_, _, refl), inl refl)

  spawn_outbound-StaysUp :
      (a : EmailAccountConfig) (m0 m : InboundManager) (d : OutboundDispatcher)
      → P a
      → StaysUp P host c g (spawn_outbound host a (some d) m (up c g m0 d))
  unfolding spawn_outbound OutboundDispatcher.add_account outbound_added
  spawn_outbound-StaysUp a m0 m d h = elim (Option-cases (lookup a.instance_id d.workers)) [
    | inl fresh ↦
        let same : OutboundDispatcher.add_account host.disk a d m.health
            ≡ add_opened a (open_queue host.disk a.instance_id) d m.health =
          ground (arith, fresh) in
        subst (λ r. StaysUp P host c g (outbound_added r m (up c g m0 d))) (sym same)
          (add_opened-StaysUp a (open_queue host.disk a.instance_id) m0 m d h refl)
    | inr (w, busy) ↦
        let same : OutboundDispatcher.add_account host.disk a d m.health ≡ some (d, m.health) =
          ground (arith, busy) in
        subst (λ r. StaysUp P host c g (outbound_added r m (up c g m0 d))) (sym same)
          ((_, _, refl), inl refl)
  ]

  spawn_account-StaysUp :
      (a : EmailAccountConfig) (m : InboundManager) (d : OutboundDispatcher)
      → P a
      → StaysUp P host c g (spawn_account host new_cfg a (up c g m d))
  unfolding spawn_account spawn_checked
  spawn_account-StaysUp a m d h = checked (host.has_credential a.instance_id) refl
    where
      checked :
          (b : Bool)
          → host.has_credential a.instance_id ≡ b
          → (let s : Step = elim b [
            | false ↦ (up c g m d, some (no_credential a.instance_id))
            | true ↦ spawn_checked host new_cfg a (some m) (up c g m d)
          ] in
              StaysUp P host c g s)
      checked false e = ((m, d, refl), inr (no_credential a.instance_id, a, refl, h, (refl, e)))
      checked true e =
          spawn_outbound-StaysUp a m
            (InboundManager.add_account new_cfg a host.bounce_opens host.attachments_open m).0 d h

  and_then-StaysUp :
      (s : Step) (next : EmailPlugin → Step)
      → StaysUp P host c g s
      → ((m : InboundManager) (d : OutboundDispatcher) → StaysUp P host c g (next (up c g m d)))
      → StaysUp P host c g (and_then s next)
  unfolding and_then
  and_then-StaysUp (p, none) next ((m, d, same), h) go =
      subst (λ q. StaysUp P host c g (next q)) (sym same) (go m d)
  and_then-StaysUp (p, some e) next h go = h

  respawn_all-StaysUp :
      (accounts : List EmailAccountConfig) (m : InboundManager) (d : OutboundDispatcher)
      → All P accounts
      → StaysUp P host c g (respawn_all host new_cfg accounts (up c g m d))
  unfolding respawn_all remove_outbound remove_inbound
  respawn_all-StaysUp [] m d h = ((m, d, refl), inl refl)
  respawn_all-StaysUp (a ∷ rest) m d (one, h) =
      and_then-StaysUp (spawn_account host new_cfg a (teardown a.instance_id (up c g m d)))
        (respawn_all host new_cfg rest)
        (spawn_account-StaysUp a (InboundManager.remove_account a.instance_id m).0
          (OutboundDispatcher.remove_account a.instance_id d).0 one)
        (λ m' d'. respawn_all-StaysUp rest m' d' h)

  spawn_all-StaysUp :
      (accounts : List EmailAccountConfig) (m : InboundManager) (d : OutboundDispatcher)
      → All P accounts
      → StaysUp P host c g (spawn_all host new_cfg accounts (up c g m d))
  unfolding spawn_all
  spawn_all-StaysUp [] m d h = ((m, d, refl), inl refl)
  spawn_all-StaysUp (a ∷ rest) m d (one, h) =
      and_then-StaysUp (spawn_account host new_cfg a (up c g m d)) (spawn_all host new_cfg rest)
        (spawn_account-StaysUp a m d one) (λ m' d'. spawn_all-StaysUp rest m' d' h)

  apply_diff-StaysUp :
      (diff : AccountDiff) (m : InboundManager) (d : OutboundDispatcher)
      → All P diff.changed
      → All P diff.added
      → StaysUp P host c g (apply_diff host new_cfg diff (up c g m d))
  unfolding apply_diff
  apply_diff-StaysUp diff m d changed added =
      let (m1, d1, same, _, _) = remove_all_lem c g diff.removed m d in
      and_then-StaysUp
        (respawn_all host new_cfg diff.changed (remove_all diff.removed (up c g m d)))
        (spawn_all host new_cfg diff.added)
        (subst (λ (s : Step). StaysUp P host c g (respawn_all host new_cfg diff.changed s.0))
          (sym same) (respawn_all-StaysUp diff.changed m1 d1 changed))
        (λ m' d'. spawn_all-StaysUp diff.added m' d' added)

All-Elem :
    (xs ys : List EmailAccountConfig)
    → ((a : EmailAccountConfig) → Elem a xs → Elem a ys)
    → All (λ a. Elem a ys) xs
All-Elem [] ys h = tt
All-Elem (x ∷ xs) ys h = (h x (inl refl), All-Elem xs ys (λ a i. h a (inr i)))

-- A reload of a running plugin leaves it running, with its configuration. It either succeeds, or
-- changes nothing and says that the cursor store does not open, which is so, or ends with an error
-- about an account of the new configuration: that its credential is missing, or that its queue does
-- not open; and that is so.
pub apply_account_diff-error :
    (host : Host) (new_cfg c : EmailPluginConfig) (g : GcTasks) (m : InboundManager)
    (d : OutboundDispatcher)
    → ((apply_account_diff host new_cfg (up c g m d) ≡ (up c g m d, some cursor_failed))
        × (host.cursor_opens ≡ false))
      ⊎ StaysUp
          (λ a. Elem a new_cfg.accounts)
          host
          c
          g
          (apply_account_diff host new_cfg (up c g m d))
unfolding apply_account_diff compute_account_diff
apply_account_diff-error host new_cfg c g m d = applied (is_empty diff) host.cursor_opens refl
  where
    diff : AccountDiff
    diff = compute_account_diff c.accounts new_cfg.accounts

    P : EmailAccountConfig → Type 0
    P a = Elem a new_cfg.accounts

    applied :
        (b o : Bool)
        → host.cursor_opens ≡ o
        → (let s : Step = elim b [
          | true ↦ (up c g m d, none)
          | false ↦ elim o [
            | false ↦ (up c g m d, some cursor_failed)
            | true ↦ apply_diff host new_cfg diff (up c g m d)
          ]
        ] in
            ((s ≡ (up c g m d, some cursor_failed)) × (host.cursor_opens ≡ false))
            ⊎ StaysUp P host c g s)
    applied true o e = inr ((m, d, refl), inl refl)
    applied false false e = inl (refl, e)
    applied false true e =
        let parts =
          All-diff_new P c.accounts new_cfg.accounts
            (All-Elem new_cfg.accounts new_cfg.accounts (λ a i. i)) in
        inr (apply_diff-StaysUp P host new_cfg c g diff m d parts.0 parts.1)
