-- ===== src/Tool/Mailbox.antt =====
-- src/tool/imap_op.rs, src/tool/move_to.rs, src/tool/archive.rs and src/tool/label.rs: the tools that
-- change a mailbox, by the commands that they send. The server is the record ImapServer.
pub mod Moves
use nexo_plugin_email.Base.{
  ℕ, Str, Bool, true, false, not, ◌&&◌, ◌||◌, Option, none, some, List, [], ◌∷◌, ◌++◌, ◌==◌,
  if◌then◌else◌, codes, length,
}
use nexo_plugin_email.ImapQuote.{format_uid_set, format_label_list}
use nexo_plugin_email.Reload.{EmailAccountConfig, find_account}

pub data ImapCommand : Type 0 where
  uid_move uid_copy uid_store : Str → Str → ImapCommand
  expunge : ImapCommand

-- What becomes of a connect, of a SELECT and of a command, and whether the server has MOVE.
pub record ImapServer : Type 0 where
  pub has_credential : Str → Bool
  pub connects : Str → Bool
  pub selects : Str → Bool
  pub accepts : ImapCommand → Bool
  pub move_ext : Bool

pub data ImapAnswer : Type 0 where
  unknown_instance not_gmail no_credential connect_failed select_failed : ImapAnswer
  command_failed : ImapCommand → ImapAnswer
  moved : (count : ℕ) (fallback : Bool) → ImapAnswer
  updated : ℕ → ImapAnswer

-- The commands that were sent, and the answer of the tool.
abbrev pub Run : Type 0
Run = List ImapCommand × ImapAnswer

abbrev pub sent_before : ImapCommand → Run → Run
sent_before c (trace, answer) = (c ∷ trace, answer)

-- commands in their order, up to the first that fails
unfoldable pub issue : (accepts : ImapCommand → Bool) → List ImapCommand → ImapAnswer → Run
issue accepts [] done = ([], done)
issue accepts (c ∷ cs) done =
    let rest = issue accepts cs done in
    if accepts c then sent_before c rest else (c ∷ [], command_failed c)

module _ (server : ImapServer) where
  unfoldable pub run_imap_op : EmailAccountConfig → Str → List ImapCommand → ImapAnswer → Run
  unfolding issue
  run_imap_op account folder commands done =
      if not (server.has_credential account.instance_id)
      then ([], no_credential)
      else if not (server.connects account.instance_id)
      then ([], connect_failed)
      else if not (server.selects folder)
      then ([], select_failed)
      else issue server.accepts commands done

  unfoldable pub move_commands : Str → Str → List ImapCommand
  move_commands uid_set folder =
      if server.move_ext
      then uid_move uid_set folder ∷ []
      else uid_copy uid_set folder ∷ uid_store uid_set (codes "+FLAGS (\\Deleted)") ∷ expunge ∷ []

  unfoldable pub move_for : List ℕ → Str → EmailAccountConfig → Run
  unfolding run_imap_op move_commands format_uid_set
  move_for uids folder account =
      run_imap_op account account.folders.inbox (move_commands (format_uid_set uids) folder)
        (moved (length uids) (not server.move_ext))

  -- email_move_to
  unfoldable pub run_move : List EmailAccountConfig → Str → List ℕ → Str → Run
  unfolding move_for find_account
  run_move accounts id [] folder = ([], moved 0 false)
  run_move accounts id (u ∷ uids) folder = elim (find_account id accounts) [
    | none ↦ ([], unknown_instance)
    | some account ↦ move_for (u ∷ uids) folder account
  ]

  -- email_archive
  unfoldable pub run_archive : List EmailAccountConfig → Str → List ℕ → Run
  unfolding move_for find_account
  run_archive accounts id [] = ([], moved 0 false)
  run_archive accounts id (u ∷ uids) = elim (find_account id accounts) [
    | none ↦ ([], unknown_instance)
    | some account ↦ move_for (u ∷ uids) account.folders.archive account
  ]

  abbrev pub label_command : Str → Str → Str → List ImapCommand
  label_command uid_set sign [] = []
  label_command uid_set sign (c ∷ labels) =
      uid_store uid_set (sign ++ (codes "X-GM-LABELS " ++ c ∷ labels)) ∷ []

  abbrev pub is_nil {ℓ} : {A : Type ℓ} → List A → Bool
  is_nil [] = true
  is_nil (x ∷ xs) = false

  -- email_label from the account on, where `gmail` is the number of that provider
  unfoldable pub label_for : (gmail : ℕ) → List ℕ → List Str → List Str → EmailAccountConfig → Run
  unfolding run_imap_op format_uid_set format_label_list
  label_for gmail uids add remove account =
      if not (account.provider == gmail)
      then ([], not_gmail)
      else if is_nil uids || (is_nil add && is_nil remove)
      then ([], updated 0)
      else run_imap_op account account.folders.inbox
          (label_command (format_uid_set uids) (codes "+") (format_label_list add)
            ++ label_command (format_uid_set uids) (codes "-") (format_label_list remove))
          (updated (length uids))

  unfoldable pub run_label :
      (gmail : ℕ) → List EmailAccountConfig → Str → List ℕ → List Str → List Str → Run
  unfolding label_for find_account
  run_label gmail accounts id uids add remove = elim (find_account id accounts) [
    | none ↦ ([], unknown_instance)
    | some account ↦ label_for gmail uids add remove account
  ]
