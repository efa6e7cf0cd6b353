-- ===== src/Metrics/Render.antt =====
-- src/metrics.rs: `render_prometheus`. The sorts of the standard library are the record Sorting.
use nexo_plugin_email.AutoDiscovery.Routes.{names}
use nexo_plugin_email.Base.{
  ℕ, Str, Option, none, some, List, [], ◌∷◌, ◌++◌, codes, decimal, concat, map, lookup, str_is_eq,
}
use nexo_plugin_email.Boot.{raw_label_of}
use nexo_plugin_email.BounceStore.{BounceKey}
use nexo_plugin_email.Config.{EmailPluginConfig}
use nexo_plugin_email.Health.{AccountHealth, HealthMap, as_metric_value}
use nexo_plugin_email.Metrics.Counters.{Counters}
use nexo_plugin_email.Metrics.{escape, render_instance_counter}

pub record Sorting : Type 0 where
  pub rows : List (Str × ℕ) → List (Str × ℕ)
  pub bounce_rows : List (BounceKey × ℕ) → List (BounceKey × ℕ)
  pub sorted_keys : List Str → List Str

-- A `# HELP` and a `# TYPE` line.
abbrev pub heading : Str → Str → Str → Str
heading name help kind =
    codes "# HELP "
    ++ (name
        ++ (codes " "
            ++ (help ++ (codes "\n# TYPE " ++ (name ++ (codes " " ++ (kind ++ 10 ∷ [])))))))

unfoldable pub tenant_of : Option (List EmailPluginConfig) → Str
tenant_of none = codes "default"
tenant_of (some []) = codes "default"
tenant_of (some (c ∷ cs)) = raw_label_of c.tenant

-- The reasons are the labels of the code, which need no escape.
unfoldable pub skipped_row : Str × ℕ → Str
unfolding decimal
skipped_row (reason, v) =
    codes "email_loop_skipped_total{reason=\""
    ++ (reason ++ (codes "\"} " ++ (decimal v ++ 10 ∷ [])))

unfoldable pub render_skipped : List (Str × ℕ) → Str
unfolding skipped_row concat
render_skipped [] = codes "email_loop_skipped_total{reason=\"\"} 0\n"
render_skipped (r ∷ rows) = concat (map skipped_row (r ∷ rows))

unfoldable pub bounce_row : BounceKey × ℕ → Str
unfolding decimal escape
bounce_row ((instance_id, classification), v) =
    codes "email_bounces_total{classification=\""
    ++ (classification
        ++ (codes "\",instance=\""
            ++ (escape instance_id ++ (codes "\"} " ++ (decimal v ++ 10 ∷ [])))))

unfoldable pub render_bounces : List (BounceKey × ℕ) → Str
unfolding bounce_row concat
render_bounces [] = codes "email_bounces_total{classification=\"\",instance=\"\"} 0\n"
render_bounces (r ∷ rows) = concat (map bounce_row (r ∷ rows))

unfoldable pub gauge_line : Str → Str → ℕ → Str
unfolding decimal escape
gauge_line name instance_id v =
    name
    ++ (codes "{instance=\"" ++ (escape instance_id ++ (codes "\"} " ++ (decimal v ++ 10 ∷ []))))

-- the lines of one gauge, of the keys that the map still has
unfoldable pub gauge_lines : Str → (AccountHealth → ℕ) → HealthMap → List Str → List Str
unfolding gauge_line lookup
gauge_lines name read m [] = []
gauge_lines name read m (k ∷ ks) =
    let rest = gauge_lines name read m ks in
    elim (lookup k m) [ none ↦ rest | some h ↦ gauge_line name k (read h) ∷ rest ]

unfoldable pub render_gauges : List Str → List Str → List Str → Str
unfolding concat
render_gauges [] queue dlq =
    codes "email_imap_state{instance=\"\"} 0\n"
    ++ (codes "email_outbound_queue_depth{instance=\"\"} 0\n"
        ++ codes "email_outbound_dlq_depth{instance=\"\"} 0\n")
render_gauges (s ∷ state) queue dlq = concat (s ∷ state) ++ (concat queue ++ concat dlq)

module _ (sort : Sorting) where
  unfoldable pub gauges_of : Option HealthMap → Str
  unfolding render_gauges gauge_lines as_metric_value
  gauges_of none = render_gauges [] [] []
  gauges_of (some m) =
      let ks = sort.sorted_keys (names m) in
      render_gauges (gauge_lines (codes "email_imap_state") (λ h. as_metric_value h.state) m ks)
        (gauge_lines (codes "email_outbound_queue_depth") (λ h. h.outbound_queue_depth) m ks)
        (gauge_lines (codes "email_outbound_dlq_depth") (λ h. h.outbound_dlq_depth) m ks)

  unfoldable pub render_prometheus :
      Counters → Option (List EmailPluginConfig) → Option HealthMap → Str
  unfolding tenant_of render_skipped render_bounces render_instance_counter gauges_of escape decimal
      concat
  render_prometheus c configured health = concat (
      heading (codes "email_plugin_tenant_info")
        (codes "Identifies the tenant served by this plugin process (label join target).")
        (codes "gauge")
      ∷ (codes "email_plugin_tenant_info{tenant=\""
          ++ (escape (tenant_of configured) ++ codes "\"} 1\n"))
      ∷ heading (codes "email_imap_messages_fetched_total")
          (codes "Total IMAP messages fetched per instance.") (codes "counter")
      ∷ render_instance_counter (codes "email_imap_messages_fetched_total")
          (sort.rows c.messages_fetched)
      ∷ heading (codes "email_loop_skipped_total")
          (codes "Inbound messages suppressed by the loop guard.") (codes "counter")
      ∷ render_skipped (sort.rows c.loop_skipped)
      ∷ heading (codes "email_bounces_total")
          (codes "DSN events received per instance + classification.") (codes "counter")
      ∷ render_bounces (sort.bounce_rows c.bounces)
      ∷ heading (codes "email_outbound_sent_total") (codes "SMTP messages accepted by the relay.")
          (codes "counter")
      ∷ render_instance_counter (codes "email_outbound_sent_total") (sort.rows c.outbound_sent)
      ∷ heading (codes "email_outbound_failed_total")
          (codes "SMTP messages that ended in DLQ (5xx or 5+ transients).") (codes "counter")
      ∷ render_instance_counter (codes "email_outbound_failed_total") (sort.rows c.outbound_failed)
      ∷ heading (codes "email_attachment_write_errors_total")
          (codes
            "Attachment write failures (disk full, fs error). Process-global because the de-dup dir is shared.")
          (codes "counter")
      ∷ (codes "email_attachment_write_errors_total "
          ++ (decimal c.attachment_write_errors ++ 10 ∷ []))
      ∷ heading (codes "email_parse_errors_total")
          (codes "Inbound MIME parse failures per instance — message published raw-only.")
          (codes "counter")
      ∷ render_instance_counter (codes "email_parse_errors_total") (sort.rows c.parse_errors)
      ∷ heading (codes "email_imap_state")
          (codes "IMAP worker state (0=connecting, 1=idle, 2=polling, 3=down).") (codes "gauge")
      ∷ heading (codes "email_outbound_queue_depth") (codes "Pending outbound jobs per instance.")
          (codes "gauge")
      ∷ heading (codes "email_outbound_dlq_depth")
          (codes "Dead-lettered outbound jobs per instance.") (codes "gauge")
      ∷ gauges_of health
      ∷ [])
