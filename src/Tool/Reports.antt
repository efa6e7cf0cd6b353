-- ===== src/Tool/Reports.antt =====
-- src/tool/bounces_summary.rs, src/tool/health.rs and src/tool/instances_list.rs: the tools that
-- report, from their parsed arguments to the rows of their answers.
use nexo_plugin_email.Base.{
  ℕ, min, Str, Bool, true, Option, none, some, List, codes, map, filter_by, any, length, str_eq,
  sort_by, str_leb,
}
use nexo_plugin_email.BounceStore.Summary.{InstanceSummary, summary}
use nexo_plugin_email.BounceStore.{BounceTable, RecipientStatus, classification_label}
use nexo_plugin_email.Health.{
  WorkerState, connecting, idle, polling, down, as_metric_value, AccountHealth, HealthMap,
}
use nexo_plugin_email.Reload.{EmailAccountConfig}

pub record RecipientReport : Type 0 where
  pub recipient : Str
  pub classification : Str
  pub status_code : Option Str
  pub action : Option Str
  pub last_seen : ℕ
  pub count : ℕ

pub record BounceReport : Type 0 where
  pub instance_id : Str
  pub total_rows : ℕ
  pub permanent_rows : ℕ
  pub transient_rows : ℕ
  pub unknown_rows : ℕ
  pub top_recipients : List RecipientReport

unfoldable pub recipient_report : RecipientStatus → RecipientReport
unfolding classification_label
recipient_report r = record {
  recipient = r.recipient;
  classification = classification_label r.classification;
  status_code = r.status_code;
  action = r.action;
  last_seen = r.last_seen;
  count = r.count;
}

unfoldable pub bounce_report : InstanceSummary → BounceReport
unfolding recipient_report
bounce_report s = record {
  instance_id = s.instance_id;
  total_rows = s.total_rows;
  permanent_rows = s.permanent_rows;
  transient_rows = s.transient_rows;
  unknown_rows = s.unknown_rows;
  top_recipients = map recipient_report s.top_recipients;
}

abbrev pub default_top_n : ℕ
default_top_n = 10

abbrev pub max_top_n : ℕ
max_top_n = 200

unfoldable pub effective_top_n : Option ℕ → ℕ
effective_top_n none = min default_top_n max_top_n
effective_top_n (some n) = min n max_top_n

-- email_bounces_summary: nothing without a store, and otherwise `instances` and `instance_count`
unfoldable pub run_bounces_summary :
    Option BounceTable → Option Str → Option ℕ → Option (List BounceReport × ℕ)
unfolding summary effective_top_n bounce_report
run_bounces_summary none instance_filter top_n = none
run_bounces_summary (some t) instance_filter top_n =
    let summaries = summary instance_filter (effective_top_n top_n) t in
    some (map bounce_report summaries, length summaries)

unfoldable pub worker_state_label : WorkerState → Str
worker_state_label connecting = codes "connecting"
worker_state_label idle = codes "idle"
worker_state_label polling = codes "polling"
worker_state_label down = codes "down"

pub record HealthReport : Type 0 where
  pub instance_id : Str
  pub state : Str
  pub state_value : ℕ
  pub last_connect_ok_ts : ℕ
  pub last_idle_alive_ts : ℕ
  pub last_poll_ts : ℕ
  pub consecutive_failures : ℕ
  pub messages_seen_total : ℕ
  pub outbound_queue_depth : ℕ
  pub outbound_dlq_depth : ℕ
  pub outbound_sent_total : ℕ
  pub outbound_failed_total : ℕ
  pub last_error : Option Str

unfoldable pub health_report : Str × AccountHealth → HealthReport
unfolding worker_state_label as_metric_value
health_report (id, h) = record {
  instance_id = id;
  state = worker_state_label h.state;
  state_value = as_metric_value h.state;
  last_connect_ok_ts = h.last_connect_ok_ts;
  last_idle_alive_ts = h.last_idle_alive_ts;
  last_poll_ts = h.last_poll_ts;
  consecutive_failures = h.consecutive_failures;
  messages_seen_total = h.messages_seen_total;
  outbound_queue_depth = h.outbound_queue_depth;
  outbound_dlq_depth = h.outbound_dlq_depth;
  outbound_sent_total = h.outbound_sent_total;
  outbound_failed_total = h.outbound_failed_total;
  last_error = h.last_error;
}

unfoldable pub is_wanted : Option Str → Str × AccountHealth → Bool
unfolding str_eq
is_wanted none e = true
is_wanted (some f) (id, h) = str_eq f id

abbrev pub by_id : Str × AccountHealth → Str × AccountHealth → Bool
by_id a b = str_leb a.0 b.0

-- email_health: `instances` and `instance_count`
unfoldable pub run_health : HealthMap → Option Str → List HealthReport × ℕ
unfolding health_report is_wanted sort_by str_leb filter_by
run_health health instance_filter =
    let out = map health_report (filter_by (is_wanted instance_filter) (sort_by by_id health)) in
    (out, length out)

pub record AccountReport : Type 0 where
  pub instance_id : Str
  pub address : Str
  pub provider : Str
  pub imap_host : Str
  pub imap_port : ℕ
  pub smtp_host : Str
  pub smtp_port : ℕ
  pub is_live : Bool

-- The names of the providers are those of the library that declares them.
module _ (provider_name : ℕ → Str) where
  unfoldable pub account_report : List Str → EmailAccountConfig → AccountReport
  unfolding any str_eq
  account_report live a = record {
    instance_id = a.instance_id;
    address = a.address;
    provider = provider_name a.provider;
    imap_host = a.imap.host;
    imap_port = a.imap.port;
    smtp_host = a.smtp.host;
    smtp_port = a.smtp.port;
    is_live = any (str_eq a.instance_id) live;
  }

  -- email_instances_list, of the instances that the dispatcher has: `instances` and `count`
  unfoldable pub run_instances_list : List Str → List EmailAccountConfig → List AccountReport × ℕ
  unfolding account_report
  run_instances_list live accounts = (map (account_report live) accounts, length accounts)
