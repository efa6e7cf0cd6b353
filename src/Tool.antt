-- ===== src/Tool.antt =====
-- src/tool/mod.rs and src/tool/context.rs: which tools an agent gets, and what they share. A handler
-- is modelled from its parsed arguments on; serde_json reads them and writes the answer.
pub mod Search
pub mod Send
pub mod Reply
pub mod AttachmentGet
pub mod Dispatch
pub mod Mailbox
pub mod Reports
use nexo_plugin_email.Base.{
  Str, Bool, true, false, ◌||◌, Option, none, some, List, [], ◌∷◌, map, codes, any, filter_by,
  str_eq, if◌then◌else◌,
}

unfoldable pub email_tool_names : List Str
email_tool_names =
    codes "email_send"
    ∷ codes "email_reply"
    ∷ codes "email_archive"
    ∷ codes "email_move_to"
    ∷ codes "email_label"
    ∷ codes "email_search"
    ∷ codes "email_get"
    ∷ codes "email_thread"
    ∷ codes "email_bounces_summary"
    ∷ codes "email_attachment_get"
    ∷ codes "email_health"
    ∷ codes "email_instances_list"
    ∷ []

unfoldable pub want : Option (List Str) → Str → Bool
unfolding any str_eq
want none name = true
want (some list) name = any (λ s. str_eq s name) list

-- the tools that `register_email_tools_filtered` registers, in its order
unfoldable pub registered_tools : Option (List Str) → List Str
unfolding want email_tool_names filter_by
registered_tools allow = filter_by (want allow) email_tool_names

abbrev pub is_wildcard : Str → Bool
is_wildcard p = str_eq p (codes "*") || str_eq p (codes "email_*") || str_eq p (codes "email*")

unfoldable pub filter_from_allowed_patterns : List Str → Option (List Str)
unfolding any str_eq filter_by email_tool_names
filter_from_allowed_patterns [] = none
filter_from_allowed_patterns (p ∷ ps) =
    if any is_wildcard (p ∷ ps)
    then none
    else some (filter_by (λ name. any (λ q. str_eq q name) (p ∷ ps)) email_tool_names)
