-- ===== src/Tests/Process.antt =====
-- Concrete requests to the process, and the theorems on them.
use nexo_plugin_email.AttachmentStore.{AttachmentTable}
use nexo_plugin_email.AutoDiscovery.Routes.{TenantRow, tenant_rows, configured_instances}
use nexo_plugin_email.AutoDiscovery.Tenants.{sum_accounts, apply_configure-tenant_rows}
use nexo_plugin_email.Base.{
  Str, Bool, true, false, none, some, List, [], ◌∷◌, ◌%◌, ◌^◌, ◌≡◌, ◌⊎◌, refl, codes, any, str_eq,
  str_is_eq, lookup, All, length, map, inr, str_eq_iff, if◌then◌else◌,
}
use nexo_plugin_email.Boot.{Tenants, apply_configure, many}
use nexo_plugin_email.EnvConfig.Order.{IsBooted, email_config_from_env_lem}
use nexo_plugin_email.EnvConfig.{Loaders, env_data_dir, email_config_from_env}
use nexo_plugin_email.ImapQuote.{format_uid_set}
use nexo_plugin_email.Metrics.Counters.{Inc, fetched, write_error, inc_all, no_counts}
use nexo_plugin_email.Metrics.Counting.{value, calls, inc_all_lem}
use nexo_plugin_email.MimeParse.Intact.{IsIntact, IsWhole}
use nexo_plugin_email.MimeParse.{Files}
use nexo_plugin_email.Plugin.{new}
use nexo_plugin_email.Reload.{EmailAccountConfig, find_account}
use nexo_plugin_email.Tool.Mailbox.{
  ImapServer, uid_copy, uid_store, expunge, moved, run_move, run_archive,
}
use nexo_plugin_email.Tool.Mailbox.Moves.{IsMoveRun, archive_folder, run_move_lem}
use nexo_plugin_email.Process.Credentials.{IsKnown, credentials_lem}
use nexo_plugin_email.Process.{
  Configured, not_found, on_credentials_list, on_credentials_issue, on_credentials_resolve_bytes,
}
use nexo_plugin_email.Tests.Parse.{crates}
use nexo_plugin_email.Tests.Tools.{root, tenants, before}
use nexo_plugin_email.Tests.Workers.{config, account}
use nexo_plugin_email.Tool.AttachmentGet.Sound.{IsReply, run_get_lem}
use nexo_plugin_email.Tool.AttachmentGet.{TextCodec, GetArgs, StoreReader, run_get}
use nexo_plugin_email.Tool.Dispatch.Names.{IsDispatched, dispatch_email_tool_lem}
use nexo_plugin_email.Tool.Dispatch.{
  label, tool_name, email_tool_defs, ready, dispatch_known, dispatch_email_tool,
}
use nexo_plugin_email.Tool.{email_tool_names}

abbrev sha : Str
sha = codes "aa"

abbrev held : Files
held = (sha, 5 ∷ 6 ∷ []) ∷ []

abbrev rows : AttachmentTable
rows = (sha, record { first_seen = 1; last_seen = 2; count = 1 }) ∷ []

abbrev store : StoreReader
store = record { table = rows; reads = λ s. true }

abbrev codec : TextCodec
codec = record { encode = λ b. b; from_utf8_lossy = λ b. b }

abbrev request : GetArgs
request = record { sha256 = sha; encoding = some (codes "text") }

held-IsIntact : IsIntact crates held
unfolding lookup
held-IsIntact name = inr (whole (str_eq sha name) refl)
  where
    whole :
        (b : Bool)
        → str_eq sha name ≡ b
        → IsWhole crates name (if b then some (5 ∷ 6 ∷ []) else none)
    whole true e = (str_eq_iff sha name).0 e
    whole false e = tt

run_get_lem_example :
    IsReply crates codec store held request (run_get codec (some store) held request)
run_get_lem_example = run_get_lem crates codec store held request held-IsIntact

abbrev after : Tenants
after = (apply_configure (λ c _. some (new c)) root (some (many tenants)) before).0

configured : apply_configure (λ c _. some (new c)) root (some (many tenants)) before ≡ (after, none)
unfolding apply_configure
configured = refl

apply_configure-tenant_rows_example :
    All
      (λ (row : TenantRow). row.registered ≡ true)
      (tenant_rows after.registry after.configured_state)
    × (sum_accounts (tenant_rows after.registry after.configured_state)
        ≡ length (configured_instances after.configured_state))
apply_configure-tenant_rows_example =
    apply_configure-tenant_rows (λ c _. some (new c)) root tenants before after configured

dispatch_email_tool_lem_example :
    (map tool_name email_tool_defs ≡ email_tool_names)
    × (dispatch_email_tool (λ k c a. c) (ready (codes "ctx")) (tool_name label) (codes "{}")
        ≡ dispatch_known (λ k c a. c) label (ready (codes "ctx")) (codes "{}"))
    × IsDispatched
        (λ k c a. c)
        (ready (codes "ctx"))
        (codes "email_seek")
        (codes "{}")
        (dispatch_email_tool (λ k c a. c) (ready (codes "ctx")) (codes "email_seek") (codes "{}"))
dispatch_email_tool_lem_example =
    dispatch_email_tool_lem (λ k c a. c) (ready (codes "ctx")) (codes "email_seek") (codes "{}")
      label

-- All loads succeed, but the data directory is not named.
abbrev io : Loaders Str Str Str
io = record {
  var = λ key. if str_eq key env_data_dir then none else some (codes "path");
  read_to_string = λ path. some path;
  resolve_placeholders = λ raw. some raw;
  email_from_str = λ text. some (many tenants);
  google_from_str = λ text. some text;
  load_email_secrets = λ dir accounts. (dir, []);
  is_file = λ path. true;
  load_google_auth = λ path. none;
  google_empty = [];
  google_new = λ auth. auth;
}

email_config_from_env_lem_example : IsBooted io (email_config_from_env io)
email_config_from_env_lem_example = email_config_from_env_lem io

abbrev cell : Configured
cell = some (config (account (codes "ops") (codes "h") ∷ []) ∷ tenants)

credentials_lem_example :
    (on_credentials_issue (codes "ops") cell
      ≡ any (str_eq (codes "ops")) (on_credentials_list cell))
    × (((on_credentials_issue (codes "ops") cell ≡ false)
          × (on_credentials_resolve_bytes (λ a. some []) (codes "ops") cell ≡ not_found))
        ⊎ IsKnown (λ a. some []) (codes "ops") cell)
credentials_lem_example = credentials_lem (λ a. some []) (codes "ops") cell

-- Without the extension MOVE, and with every command accepted.
abbrev plain_server : ImapServer
plain_server = record {
  has_credential = λ id. true;
  connects = λ id. true;
  selects = λ folder. true;
  accepts = λ c. true;
  move_ext = false;
}

abbrev mailbox_accounts : List EmailAccountConfig
mailbox_accounts = account (codes "ops") (codes "h") ∷ []

run_move_lem_example :
    IsMoveRun plain_server
      (format_uid_set (7 ∷ 9 ∷ []))
      (codes "Done")
      2
      (run_move plain_server mailbox_accounts (codes "ops") (7 ∷ 9 ∷ []) (codes "Done"))
    × IsMoveRun plain_server
        (format_uid_set (7 ∷ 9 ∷ []))
        (archive_folder (find_account (codes "ops") mailbox_accounts))
        2
        (run_archive plain_server mailbox_accounts (codes "ops") (7 ∷ 9 ∷ []))
run_move_lem_example =
    run_move_lem plain_server mailbox_accounts (codes "ops") 7 (9 ∷ []) (codes "Done")

run_move_steps :
    run_move plain_server mailbox_accounts (codes "ops") (7 ∷ 9 ∷ []) (codes "Done") ≡ (
      uid_copy (codes "7,9") (codes "Done")
          ∷ uid_store (codes "7,9") (codes "+FLAGS (\\Deleted)")
          ∷ expunge
          ∷ [],
      moved 2 true,
    )
unfolding run_move
run_move_steps = refl

abbrev three_calls : List Inc
three_calls = fetched (codes "ops") ∷ write_error ∷ fetched (codes "ops") ∷ []

inc_all_lem_example :
    value (fetched (codes "ops")) (inc_all three_calls no_counts)
    ≡ calls (fetched (codes "ops")) three_calls % 2 ^ 64
inc_all_lem_example = inc_all_lem (fetched (codes "ops")) three_calls
