-- ===== src/Process.antt =====
-- src/main.rs: what the process answers to its host, and the loop that serves a topic.
pub mod Credentials
use nexo_plugin_email.AutoDiscovery.Routes.{configured_instances}
use nexo_plugin_email.Base.{
  ℕ, Str, Bool, true, false, Option, none, some, List, [], ◌∷◌, ◌++◌, any, str_eq,
}
use nexo_plugin_email.Boot.{EmailPluginShape, into_vec}
use nexo_plugin_email.Config.{EmailPluginConfig}
use nexo_plugin_email.Reload.{EmailAccountConfig, find_account}

abbrev pub Configured : Type 0
Configured = Option (List EmailPluginConfig)

-- A value that is no configuration is an error, and leaves the cell as it is.
unfoldable pub on_configure : Option EmailPluginShape → Configured → Configured × Bool
unfolding into_vec
on_configure none cell = (cell, false)
on_configure (some shape) cell = (some (into_vec shape), true)

unfoldable pub on_credentials_list : Configured → List Str
unfolding configured_instances
on_credentials_list cell = configured_instances cell

unfoldable pub declares : Str → EmailPluginConfig → Bool
unfolding any str_eq
declares account_id c = any (λ a. str_eq a.instance_id account_id) c.accounts

-- whether the answer is `Ok`; otherwise it is `not_found`
unfoldable pub on_credentials_issue : Str → Configured → Bool
unfolding declares any
on_credentials_issue account_id none = false
on_credentials_issue account_id (some cs) = any (declares account_id) cs

pub data Resolved : Type 0 where
  not_found serialize_failed : Resolved
  resolved : List ℕ → Resolved

unfoldable pub all_accounts : List EmailPluginConfig → List EmailAccountConfig
all_accounts [] = []
all_accounts (c ∷ cs) = c.accounts ++ all_accounts cs

-- serde_json's `to_vec` of an account
unfoldable pub resolved_account :
    (to_vec : EmailAccountConfig → Option (List ℕ)) → Option EmailAccountConfig → Resolved
resolved_account to_vec none = not_found
resolved_account to_vec (some a) = elim (to_vec a) [ none ↦ serialize_failed | some b ↦ resolved b ]

unfoldable pub on_credentials_resolve_bytes :
    (to_vec : EmailAccountConfig → Option (List ℕ)) → Str → Configured → Resolved
unfolding find_account resolved_account all_accounts
on_credentials_resolve_bytes to_vec account_id none = not_found
on_credentials_resolve_bytes to_vec account_id (some cs) =
    resolved_account to_vec (find_account account_id (all_accounts cs))

-- A message of the broker, by its JSON: `V` is a JSON value.
pub record Message (V : Type 0) : Type 0 where
  pub payload : V
  pub reply_to : Option Str

module _ {V : Type 0} (from_value : V → Option (Message V)) (to_value : Str → V → Option V)
    (handler : V → V) where
  -- the reply to one event, with the topic that it goes to, if there is one
  unfoldable pub reply_of : Message V → Option (Str × V)
  reply_of msg = elim msg.reply_to [
    | none ↦ none
    | some topic ↦ elim (to_value topic (handler msg.payload)) [
      | none ↦ none
      | some v ↦ some (topic, v)
    ]
  ]

  unfoldable pub answer_to : V → Option (Str × V)
  unfolding reply_of
  answer_to event = elim (from_value event) [ none ↦ none | some msg ↦ reply_of msg ]

  -- What the loop of `spawn_one` publishes for the events of its topic; a failed publish is logged.
  unfoldable pub serve : List V → List (Str × V)
  unfolding answer_to
  serve [] = []
  serve (event ∷ events) =
      let rest = serve events in elim (answer_to event) [ none ↦ rest | some r ↦ r ∷ rest ]
