-- ===== src/Tool/Dispatch.antt =====
-- src/subprocess_dispatch.rs: the call of a tool by its name.
pub mod Names
use nexo_plugin_email.Base.{
  Str, Bool, true, false, Option, none, some, List, [], ◌∷◌, map, codes, str_eq, str_is_eq, lookup,
}

pub data ToolKind : Type 0 where
  send reply archive move_to label search_mail get_mail thread bounces_summary attachment_get health
        instances_list :
      ToolKind

-- the arms of the match, in their order
unfoldable pub arms : List (Str × ToolKind)
arms =
    (codes "email_send", send)
    ∷ (codes "email_reply", reply)
    ∷ (codes "email_archive", archive)
    ∷ (codes "email_move_to", move_to)
    ∷ (codes "email_label", label)
    ∷ (codes "email_search", search_mail)
    ∷ (codes "email_get", get_mail)
    ∷ (codes "email_thread", thread)
    ∷ (codes "email_bounces_summary", bounces_summary)
    ∷ (codes "email_attachment_get", attachment_get)
    ∷ (codes "email_health", health)
    ∷ (codes "email_instances_list", instances_list)
    ∷ []

-- The name in each tool's definition.
unfoldable pub tool_name : ToolKind → Str
tool_name send = codes "email_send"
tool_name reply = codes "email_reply"
tool_name archive = codes "email_archive"
tool_name move_to = codes "email_move_to"
tool_name label = codes "email_label"
tool_name search_mail = codes "email_search"
tool_name get_mail = codes "email_get"
tool_name thread = codes "email_thread"
tool_name bounces_summary = codes "email_bounces_summary"
tool_name attachment_get = codes "email_attachment_get"
tool_name health = codes "email_health"
tool_name instances_list = codes "email_instances_list"

-- The tools that the `initialize` reply advertises.
unfoldable pub email_tool_defs : List ToolKind
email_tool_defs =
    send ∷ reply ∷ archive ∷ move_to ∷ label ∷ search_mail ∷ get_mail ∷ thread ∷ bounces_summary
    ∷ attachment_get ∷ health ∷ instances_list ∷ []

-- The plugin as the dispatcher finds it: not booted, without a dispatcher, or with its context.
pub data Readiness (C : Type 0) : Type 0 where
  not_booted no_dispatcher : Readiness C
  ready : C → Readiness C

pub data DispatchReply (V : Type 0) : Type 0 where
  not_found : Str → DispatchReply V
  plugin_down outbound_down : DispatchReply V
  answered : V → DispatchReply V

module _ {C A V : Type 0} (run : ToolKind → C → A → V) where
  unfoldable pub dispatch_known : ToolKind → Readiness C → A → DispatchReply V
  dispatch_known kind not_booted args = plugin_down
  dispatch_known kind no_dispatcher args = outbound_down
  dispatch_known kind (ready ctx) args = answered (run kind ctx args)

  -- The name is looked at first.
  unfoldable pub dispatch_email_tool : Readiness C → Str → A → DispatchReply V
  unfolding lookup arms dispatch_known
  dispatch_email_tool plugin name args = elim (lookup name arms) [
    | none ↦ not_found name
    | some kind ↦ dispatch_known kind plugin args
  ]
