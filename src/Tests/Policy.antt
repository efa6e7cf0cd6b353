-- ===== src/Tests/Policy.antt =====
-- Message ids, chains and headers, and the theorems of threading and loop prevention on them.
use nexo_plugin_email.Metrics.{escape}
use nexo_plugin_email.Metrics.Labels.{read_label, escape_lem}
use nexo_plugin_email.AutoDiscovery.{canonicalize_email}
use nexo_plugin_email.AutoDiscovery.Sender.{canonicalize_email-idempotent}
use nexo_plugin_email.Base.{
  Str, false, none, some, [], ◌∷◌, ◌≡◌, refl, codes, ◌++◌, to_ascii_lowercase,
}
use nexo_plugin_email.Events.{EmailMeta}
use nexo_plugin_email.Threading.{canonicalize_message_id, resolve_thread_root}
use nexo_plugin_email.Threading.Root.{root_of, first_canonical, candidates, resolve_thread_root_lem}
use nexo_plugin_email.LoopPrevent.{should_skip, default_cfg}
use nexo_plugin_email.LoopPrevent.Skip.{IsFirstOf, applies, priority, should_skip_lem}

abbrev raw_id : Str
raw_id = codes " <ABC@Example.COM> "

abbrev clean_id : Str
clean_id = codes "abc@example.com"

canonical_id : canonicalize_message_id raw_id ≡ some clean_id
unfolding canonicalize_message_id
canonical_id = refl

abbrev pub meta : EmailMeta
meta = record {
  message_id = some (codes "<m1@x>");
  in_reply_to = some (codes "bad id");
  references = codes "<a@x,b@y>" ∷ [];
  from = record { address = codes "ana@y.com"; name = none };
  to = [];
  cc = [];
  subject = codes "Hi";
  body_text = [];
  body_html = none;
  date = 0;
  headers_extra = (codes "precedence", codes " Bulk ") ∷ [];
  body_truncated = false;
}

resolve_thread_root_lem_example :
    resolve_thread_root meta 4 (codes "ops@x")
    ≡ root_of 4 (codes "ops@x") (first_canonical (candidates meta))
resolve_thread_root_lem_example = resolve_thread_root_lem meta 4 (codes "ops@x")

should_skip_lem_example :
    IsFirstOf
      (λ r. applies r meta (codes "ops@x") default_cfg)
      (should_skip meta (codes "ops@x") default_cfg)
      priority
should_skip_lem_example = should_skip_lem meta (codes "ops@x") default_cfg

-- A sender as it is written, and as it is kept.
abbrev sender : Str
sender = codes "Foo.Bar+spam@Gmail.com"

sender_kept : canonicalize_email sender ≡ some (codes "foobar@gmail.com")
unfolding canonicalize_email
sender_kept = refl

canonicalize_email-idempotent_example :
    (canonicalize_email (codes "foobar@gmail.com") ≡ some (codes "foobar@gmail.com"))
    × (to_ascii_lowercase (codes "foobar@gmail.com") ≡ codes "foobar@gmail.com")
canonicalize_email-idempotent_example =
    canonicalize_email-idempotent sender (codes "foobar@gmail.com") sender_kept

escape_lem_example :
    read_label (escape (codes "a\"b\\c\n") ++ b'"' ∷ codes "} 7")
    ≡ some (codes "a\"b\\c\n", codes "} 7")
escape_lem_example = escape_lem (codes "a\"b\\c\n") (codes "} 7")

-- Quoting.
abbrev label : Str
label = codes "a\"b\\"
