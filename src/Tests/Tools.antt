-- ===== src/Tests/Tools.antt =====
-- Concrete tenants and tool calls, and the theorems on them.
use nexo_plugin_email.Base.{
  Str, true, none, some, List, [], ◌∷◌, ◌≡◌, refl, inl, arith, codes, str_eq, if◌then◌else◌,
}
use nexo_plugin_email.BounceStore.Record.{is_about}
use nexo_plugin_email.BounceStore.{record_bounce, normalised}
use nexo_plugin_email.Dsn.{BounceEvent, permanent}
use nexo_plugin_email.Reload.{EmailAccountConfig, find_account}
use nexo_plugin_email.Tests.Codec.{storage}
use nexo_plugin_email.Tests.Queue.{plain_lib, moment, core}
use nexo_plugin_email.Tool.Reply.{prefix_re}
use nexo_plugin_email.Tool.Search.Injection.{IsAnswer, build_search_atoms_lem}
use nexo_plugin_email.Tool.Search.{SearchQuery, IsWord, Chrono, build_search_atoms}
use nexo_plugin_email.Tool.Send.Strict.{IsRefused, record_bounce-run}
use nexo_plugin_email.Tool.Send.{SendArgs, BounceReader, run}
use nexo_plugin_email.Boot.Configure.{IsOutcome, apply_configure_lem}
use nexo_plugin_email.Boot.{PathBuf, Tenants, apply_configure, many}
use nexo_plugin_email.Config.{EmailPluginConfig}
use nexo_plugin_email.Plugin.{new}
use nexo_plugin_email.Tests.Workers.{config, account}

abbrev pub raw_label : Str
raw_label = codes " Ana-1 "

abbrev pub root : PathBuf
root = codes "data" ∷ []

-- One tenant has a label, the other has none.
abbrev pub tenants : List EmailPluginConfig
tenants = record (config []) { tenant = some raw_label } ∷ config [] ∷ []

abbrev pub before : Tenants
before = record { registry = (codes "old", new (config [])) ∷ []; configured_state = none }

apply_configure_lem_example :
    IsOutcome
      (λ c _. some (new c))
      root
      tenants
      before
      (apply_configure (λ c _. some (new c)) root (some (many tenants)) before)
apply_configure_lem_example = apply_configure_lem (λ c _. some (new c)) root tenants before

january : Str
january = codes "2-Jan-2024"

january-IsWord : IsWord january
unfolding january
january-IsWord = ground arith

-- A calendar of one day.
abbrev chrono : Chrono
chrono = record {
  NaiveDate = Unit;
  parse_from_str = λ v. if str_eq v (codes "2024-01-02") then some tt else none;
  format = λ _. january;
  format-IsWord = λ _. january-IsWord;
}

-- The subject has a quote, which would end the string.
abbrev query : SearchQuery
query = record {
  from = none;
  from_domain = some (codes "@x.com");
  to = none;
  subject = some (codes "a\" ALL");
  body = none;
  since = some (codes "2024-01-02");
  before = none;
  unseen = some true;
  seen = none;
  has_attachments = some true;
}

build_search_atoms_lem_example : IsAnswer chrono query (build_search_atoms chrono query)
build_search_atoms_lem_example = build_search_atoms_lem chrono query

abbrev accounts : List EmailAccountConfig
accounts = account (codes "ops") (codes "h") ∷ []

abbrev args : SendArgs
args = record {
  instance_id = codes "ops";
  to = codes "ana@y.com" ∷ [];
  cc = [];
  bcc = [];
  subject = codes "Hi";
  body = codes "Hello";
  attachments = [];
  strict_bounce_check = true;
}

abbrev no_bounces : BounceReader
no_bounces = record { table = []; reads = λ r. true }

abbrev permanent_bounce : BounceEvent
permanent_bounce = record {
  account_id = codes "ops@x.com";
  instance_id = codes "ops";
  original_message_id = none;
  recipient = some (codes " ANA@y.com");
  status_code = none;
  action = none;
  reason = none;
  classification = permanent;
}

about_ana : is_about permanent_bounce (codes "ops") (codes "ana@y.com") ≡ true
unfolding is_about normalised
about_ana = refl

known_account : find_account (codes "ops") accounts ≡ some (account (codes "ops") (codes "h"))
unfolding find_account
known_account = refl

record_bounce-run_example : IsRefused storage plain_lib (
    run storage plain_lib accounts args moment
      (some (record { table = record_bounce permanent_bounce 9 []; reads = λ r. true }))
      core)
record_bounce-run_example =
    record_bounce-run storage plain_lib accounts args moment core
      (account (codes "ops") (codes "h")) permanent_bounce 9 (codes "ana@y.com") [] (λ r. true) refl
      known_account refl refl about_ana (inl refl)

abbrev subject : Str
subject = codes "Lunch"

prefixed_subject : prefix_re subject ≡ some (codes "Re: Lunch")
unfolding prefix_re
prefixed_subject = refl
