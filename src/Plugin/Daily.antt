-- ===== src/Plugin/Daily.antt =====
-- src/plugin.rs, the daily task: the sweep of the attachments and the pruning of the bounces, with
-- what the task was armed with.
use nexo_plugin_email.AttachmentStore.{AttachmentTable, Sweeping, gc}
use nexo_plugin_email.Base.{
  ℕ, ◌*◌, ◌-◌, ◌^◌, min, Str, Bool, true, Option, none, some, List, [], ◌∷◌, ◌≡◌, refl, ◌∙◌, arith,
  ◌&&◌, map, ltb, if◌then◌else◌, any, str_eq, not, filter_by, ◌<◌,
}
use nexo_plugin_email.BounceStore.Prune.{is_kept, has_no_instance, prune_lem}
use nexo_plugin_email.BounceStore.{
  BounceKey, BounceRow, BounceTable, prune, is_recent, is_kept_instance,
}
use nexo_plugin_email.Config.{EmailPluginConfig}
use nexo_plugin_email.Plugin.{Host, GcTask, gc_task_of}
use nexo_plugin_email.Reload.{EmailAccountConfig}

-- `(days as i64).saturating_mul(86_400)`, for days below 2 ^ 63; from there on it is negative
abbrev pub retention_secs : ℕ → ℕ
retention_secs days = min (days * 86400) (2 ^ 63 - 1)

-- What one tick leaves: the files and rows of the attachments, and the bounces.
pub record Tick : Type 0 where
  pub sweeping : Option Sweeping
  pub bounces : BounceTable

unfoldable pub gc_tick :
    GcTask → (remove_file : Str → Bool) → ℕ → AttachmentTable → BounceTable → Tick
unfolding gc prune
gc_tick task remove_file now attachments bounces = record {
  sweeping =
      if task.attachment_gc_enabled
      then some (gc remove_file (retention_secs task.attachment_retention_days) now attachments)
      else none;
  bounces =
      if task.bounce_gc_enabled
      then (prune (retention_secs task.bounce_retention_days) task.kept_instances now bounces).0
      else bounces;
}

-- A bounce that is recent, of an instance of these accounts.
abbrev pub is_live_bounce : ℕ → List EmailAccountConfig → BounceKey × BounceRow → Bool
is_live_bounce cutoff accounts ((i, r), row) =
    not (ltb row.last_seen cutoff)
    && any (λ (a : EmailAccountConfig). str_eq i a.instance_id) accounts

filter_by-cong :
    (p q : BounceKey × BounceRow → Bool) (t : BounceTable)
    → ((x : BounceKey × BounceRow) → p x ≡ q x)
    → filter_by p t ≡ filter_by q t
unfolding filter_by
filter_by-cong p q [] h = refl
filter_by-cong p q (x ∷ t) h = rw (h x, filter_by-cong p q t h) refl

any-map :
    (i : Str) (accounts : List EmailAccountConfig)
    → any (str_eq i) (map (λ (a : EmailAccountConfig). a.instance_id) accounts)
      ≡ any (λ (a : EmailAccountConfig). str_eq i a.instance_id) accounts
unfolding any
any-map i [] = refl
any-map i (a ∷ accounts) = rw (any-map i accounts) refl

is_kept-is_live_bounce :
    (secs now : ℕ) (a : EmailAccountConfig) (rest : List EmailAccountConfig)
    (x : BounceKey × BounceRow)
    → 0 < secs
    → is_kept secs (map (λ (a : EmailAccountConfig). a.instance_id) (a ∷ rest)) now x
      ≡ is_live_bounce (now - secs) (a ∷ rest) x
unfolding is_kept is_recent is_kept_instance has_no_instance any
is_kept-is_live_bounce secs now a rest ((i, r), row) pos = ground (arith, any-map i rest)

-- With a bounce retention of at least a day, a bounce store that opens, and an account in the
-- configuration: one tick of the task that a start arms leaves of the bounces, in their order,
-- exactly those that are recent and of an instance that this configuration has.
pub gc_tick_lem :
    (host : Host) (cfg : EmailPluginConfig) (a : EmailAccountConfig)
    (rest : List EmailAccountConfig) (remove_file : Str → Bool) (now : ℕ)
    (attachments : AttachmentTable) (bounces : BounceTable)
    → 0 < cfg.bounce_retention_days
    → host.bounce_opens ≡ true
    → cfg.accounts ≡ a ∷ rest
    → (gc_tick (gc_task_of host cfg) remove_file now attachments bounces).bounces
      ≡ filter_by
          (is_live_bounce (now - retention_secs cfg.bounce_retention_days) cfg.accounts)
          bounces
unfolding gc_tick gc_task_of
gc_tick_lem host cfg a rest remove_file now attachments bounces pos opens some_account =
    let secs = retention_secs cfg.bounce_retention_days in
    let ids = map (λ (a : EmailAccountConfig). a.instance_id) cfg.accounts in
    let pruned : (gc_tick (gc_task_of host cfg) remove_file now attachments bounces).bounces
        ≡ (prune secs ids now bounces).0 =
      ground (arith, pos, opens) in
    pruned
    ∙ (prune_lem secs ids now bounces).0
    ∙ filter_by-cong _ _ bounces
        (λ x. rw some_account (is_kept-is_live_bounce secs now a rest x (omega (arith, pos))))
