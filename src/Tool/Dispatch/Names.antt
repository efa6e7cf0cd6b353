-- ===== src/Tool/Dispatch/Names.antt =====
-- src/subprocess_dispatch.rs with src/tool/mod.rs: the names of the tools agree.
use nexo_plugin_email.Base.{
  Str, false, Option, none, some, List, [], ◌∷◌, map, ◌≡◌, ◌⊎◌, inl, inr, refl, sym, ap, ◌∙◌, arith,
  str_eq, str_eq_iff, str_is_eq, lookup, any, All, Bool-cases,
}
use nexo_plugin_email.Tool.Dispatch.{
  ToolKind, send, reply, archive, move_to, label, search_mail, get_mail, thread, bounces_summary,
  attachment_get, health, instances_list, arms, tool_name, email_tool_defs, Readiness,
  DispatchReply, not_found, dispatch_known, dispatch_email_tool,
}
use nexo_plugin_email.Tool.{email_tool_names}

lookup-arm :
    (arms : List (Str × ToolKind)) (name : Str) (kind : ToolKind)
    → All (λ (a : Str × ToolKind). a.0 ≡ tool_name a.1) arms
    → lookup name arms ≡ some kind
    → name ≡ tool_name kind
unfolding lookup
lookup-arm [] name kind h e = absurd (cc)
lookup-arm ((n, k) ∷ arms) name kind (same, h) e = elim (Bool-cases (str_eq n name)) [
  | inl hit ↦ ground (arith, str_eq_iff n name, same, hit)
  | inr miss ↦ lookup-arm arms name kind h (ground (arith, miss))
]

lookup-none :
    (arms : List (Str × ToolKind)) (name : Str)
    → lookup name arms ≡ none
    → any (str_eq name) (map (λ (a : Str × ToolKind). a.0) arms) ≡ false
unfolding lookup any
lookup-none [] name e = refl
lookup-none ((n, k) ∷ arms) name e =
    ground (arith, lookup-none arms name, str_eq_iff n name, str_eq_iff name n)

arms-named : All (λ (a : Str × ToolKind). a.0 ≡ tool_name a.1) arms
unfolding arms tool_name
arms-named = (
  refl,
  (refl, (refl, (refl, (refl, (refl, (refl, (refl, (refl, (refl, (refl, (refl, tt))))))))))),
)

arms-names : map (λ (a : Str × ToolKind). a.0) arms ≡ email_tool_names
unfolding arms email_tool_names
arms-names = refl

-- Every tool is dispatched under the name of its definition.
tool_name-arm : (kind : ToolKind) → lookup (tool_name kind) arms ≡ some kind
unfolding arms tool_name lookup str_eq
tool_name-arm send = refl
tool_name-arm reply = refl
tool_name-arm archive = refl
tool_name-arm move_to = refl
tool_name-arm label = refl
tool_name-arm search_mail = refl
tool_name-arm get_mail = refl
tool_name-arm thread = refl
tool_name-arm bounces_summary = refl
tool_name-arm attachment_get = refl
tool_name-arm health = refl
tool_name-arm instances_list = refl

defs-names : map tool_name email_tool_defs ≡ email_tool_names
unfolding email_tool_defs tool_name email_tool_names
defs-names = refl

module _ {C A V : Type 0} (run : ToolKind → C → A → V) where
  -- Which answer a call gets: an unknown name is not found, whatever state the plugin is in, and a
  -- known one runs the tool of that very name as soon as the plugin is ready.
  abbrev pub IsDispatched : Readiness C → Str → A → DispatchReply V → Type 0
  IsDispatched plugin name args r =
      ((any (str_eq name) email_tool_names ≡ false) × (r ≡ not_found name))
      ⊎ ((kind : ToolKind) × (name ≡ tool_name kind) × (r ≡ dispatch_known run kind plugin args))

  -- The advertised tools are those that the registry may have, each is dispatched under the name
  -- that is advertised, and every call is answered as described.
  pub dispatch_email_tool_lem :
      (plugin : Readiness C) (name : Str) (args : A) (kind : ToolKind)
      → (map tool_name email_tool_defs ≡ email_tool_names)
        × (dispatch_email_tool run plugin (tool_name kind) args
            ≡ dispatch_known run kind plugin args)
        × IsDispatched plugin name args (dispatch_email_tool run plugin name args)
  unfolding dispatch_email_tool
  dispatch_email_tool_lem plugin name args kind = (
    defs-names,
    ap (answer (tool_name kind)) (tool_name-arm kind),
    by_arm (lookup name arms) refl,
  )
    where
      answer : Str → Option ToolKind → DispatchReply V
      answer n o = elim o [ none ↦ not_found n | some k ↦ dispatch_known run k plugin args ]

      by_arm :
          (o : Option ToolKind)
          → lookup name arms ≡ o
          → IsDispatched plugin name args
              (elim o [ none ↦ not_found name | some kind ↦ dispatch_known run kind plugin args ])
      by_arm none e = inl (ap (any (str_eq name)) (sym arms-names) ∙ lookup-none arms name e, refl)
      by_arm (some kind) e = inr (kind, lookup-arm arms name kind arms-named e, refl)
