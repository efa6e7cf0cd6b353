-- ===== src/Health.antt =====
-- src/health.rs: what a worker reports of its account.
use nexo_plugin_email.Base.{ℕ, Str, Option, none, Map}

pub data WorkerState : Type 0 where
  connecting idle polling down : WorkerState

unfoldable pub as_metric_value : WorkerState → ℕ
as_metric_value connecting = 0
as_metric_value idle = 1
as_metric_value polling = 2
as_metric_value down = 3

pub record AccountHealth : Type 0 where
  pub state : WorkerState
  pub last_idle_alive_ts : ℕ
  pub last_poll_ts : ℕ
  pub last_connect_ok_ts : ℕ
  pub consecutive_failures : ℕ
  pub messages_seen_total : ℕ
  pub last_error : Option Str
  pub outbound_queue_depth : ℕ
  pub outbound_dlq_depth : ℕ
  pub outbound_sent_total : ℕ
  pub outbound_failed_total : ℕ

abbrev pub default_health : AccountHealth
default_health = record {
  state = connecting;
  last_idle_alive_ts = 0;
  last_poll_ts = 0;
  last_connect_ok_ts = 0;
  consecutive_failures = 0;
  messages_seen_total = 0;
  last_error = none;
  outbound_queue_depth = 0;
  outbound_dlq_depth = 0;
  outbound_sent_total = 0;
  outbound_failed_total = 0;
}

-- The map that the inbound manager and the outbound dispatcher share.
abbrev pub HealthMap : Type 0
HealthMap = Map Str AccountHealth
