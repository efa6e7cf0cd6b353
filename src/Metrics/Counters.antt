-- ===== src/Metrics/Counters.antt =====
-- src/metrics.rs: the counters of the process, each of which wraps around at 2 ^ 64.
use nexo_plugin_email.Base.{
  ℕ, ◌+◌, ◌%◌, ◌^◌, Str, Option, none, some, List, [], ◌∷◌, codes, Map, lookup, insert, str_is_eq,
  str_eq,
}
use nexo_plugin_email.BounceStore.{BounceKey, key_is_eq}
use nexo_plugin_email.Dsn.{BounceClassification, permanent, transient, unknown}

-- The keys of `bounces` are an instance and a label.
pub record Counters : Type 0 where
  pub messages_fetched : Map Str ℕ
  pub loop_skipped : Map Str ℕ
  pub bounces : Map BounceKey ℕ
  pub outbound_sent : Map Str ℕ
  pub outbound_failed : Map Str ℕ
  pub attachment_write_errors : ℕ
  pub parse_errors : Map Str ℕ

abbrev pub no_counts : Counters
no_counts = record {
  messages_fetched = [];
  loop_skipped = [];
  bounces = [];
  outbound_sent = [];
  outbound_failed = [];
  attachment_write_errors = 0;
  parse_errors = [];
}

-- `fetch_add(1)`
abbrev pub fetch_add : ℕ → ℕ
fetch_add n = (n + 1) % 2 ^ 64

abbrev pub or_zero : Option ℕ → ℕ
or_zero none = 0
or_zero (some n) = n

-- `entry(key).or_insert_with(0).fetch_add(1)`
unfoldable pub bump_instance : Str → Map Str ℕ → Map Str ℕ
unfolding lookup insert str_eq
bump_instance k m = insert k (fetch_add (or_zero (lookup k m))) m

unfoldable pub bump_bounce : BounceKey → Map BounceKey ℕ → Map BounceKey ℕ
unfolding lookup insert str_eq
bump_bounce k m = insert k (fetch_add (or_zero (lookup k m))) m

unfoldable pub bounce_label : BounceClassification → Str
bounce_label permanent = codes "permanent"
bounce_label transient = codes "transient"
bounce_label unknown = codes "unknown"

unfoldable pub inc_messages_fetched : Str → Counters → Counters
unfolding bump_instance
inc_messages_fetched i c = record c { messages_fetched = bump_instance i c.messages_fetched }

unfoldable pub inc_loop_skipped : Str → Counters → Counters
unfolding bump_instance
inc_loop_skipped reason c = record c { loop_skipped = bump_instance reason c.loop_skipped }

unfoldable pub inc_bounce : Str → BounceClassification → Counters → Counters
unfolding bump_bounce bounce_label
inc_bounce i class c = record c { bounces = bump_bounce (i, bounce_label class) c.bounces }

unfoldable pub inc_outbound_sent : Str → Counters → Counters
unfolding bump_instance
inc_outbound_sent i c = record c { outbound_sent = bump_instance i c.outbound_sent }

unfoldable pub inc_attachment_write_error : Counters → Counters
inc_attachment_write_error c = record c {
  attachment_write_errors = fetch_add c.attachment_write_errors;
}

unfoldable pub inc_parse_error : Str → Counters → Counters
unfolding bump_instance
inc_parse_error i c = record c { parse_errors = bump_instance i c.parse_errors }

unfoldable pub inc_outbound_failed : Str → Counters → Counters
unfolding bump_instance
inc_outbound_failed i c = record c { outbound_failed = bump_instance i c.outbound_failed }

-- A call of one of them.
pub data Inc : Type 0 where
  fetched skipped sent failed parse_error : Str → Inc
  bounced : Str → BounceClassification → Inc
  write_error : Inc

unfoldable pub inc : Inc → Counters → Counters
unfolding inc_messages_fetched inc_loop_skipped inc_bounce inc_outbound_sent
    inc_attachment_write_error inc_parse_error inc_outbound_failed
inc (fetched i) = inc_messages_fetched i
inc (skipped r) = inc_loop_skipped r
inc (sent i) = inc_outbound_sent i
inc (failed i) = inc_outbound_failed i
inc (parse_error i) = inc_parse_error i
inc (bounced i class) = inc_bounce i class
inc write_error = inc_attachment_write_error

unfoldable pub inc_all : List Inc → Counters → Counters
unfolding inc
inc_all [] c = c
inc_all (e ∷ es) c = inc_all es (inc e c)
