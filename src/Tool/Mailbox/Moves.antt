-- ===== src/Tool/Mailbox/Moves.antt =====
-- src/tool/move_to.rs and src/tool/archive.rs: in which order messages are copied and deleted.
use nexo_plugin_email.Base.{
  ℕ, Str, Bool, true, false, not, Option, none, some, List, [], ◌∷◌, ◌≡◌, ◌⊎◌, inl, inr, refl,
  if◌then◌else◌, codes, length, Bool-cases,
}
use nexo_plugin_email.ImapQuote.{format_uid_set}
use nexo_plugin_email.Reload.{EmailAccountConfig, find_account}
use nexo_plugin_email.Tool.Mailbox.{
  ImapCommand, uid_move, uid_copy, uid_store, expunge, ImapServer, ImapAnswer, unknown_instance,
  no_credential, connect_failed, select_failed, command_failed, moved, Run, issue, run_imap_op,
  move_commands, move_for, run_move, run_archive,
}

abbrev pub deleted : Str → ImapCommand
deleted uid_set = uid_store uid_set (codes "+FLAGS (\\Deleted)")

-- The archive folder of an account, and nothing for one that is not known.
abbrev pub archive_folder : Option EmailAccountConfig → Str
archive_folder none = []
archive_folder (some account) = account.folders.archive

-- A refusal before any command.
abbrev pub IsRefusal : ImapAnswer → Type 0
IsRefusal unknown_instance = Unit {0}
IsRefusal no_credential = Unit {0}
IsRefusal connect_failed = Unit {0}
IsRefusal select_failed = Unit {0}
IsRefusal _ = ⊥

module _ (server : ImapServer) where
  -- The messages are moved by one command.
  abbrev pub ByMove : Str → Str → ℕ → Run → Type 0
  ByMove uid_set folder n run = run ≡ (
    uid_move uid_set folder ∷ [],
    (if server.accepts (uid_move uid_set folder)
        then moved n false
        else command_failed (uid_move uid_set folder)),
  )

  -- They are copied; what is copied is flagged as deleted; and what is flagged is expunged.
  abbrev pub ByCopy : Str → Str → ℕ → Run → Type 0
  ByCopy uid_set folder n run =
      ((server.accepts (uid_copy uid_set folder) ≡ false)
        × (run ≡ (uid_copy uid_set folder ∷ [], command_failed (uid_copy uid_set folder))))
      ⊎ ((server.accepts (uid_copy uid_set folder) ≡ true)
          × (server.accepts (deleted uid_set) ≡ false)
          × (run
              ≡ (uid_copy uid_set folder ∷ deleted uid_set ∷ [], command_failed (deleted uid_set))))
      ⊎ ((server.accepts (uid_copy uid_set folder) ≡ true)
          × (server.accepts (deleted uid_set) ≡ true)
          × (run ≡ (
            uid_copy uid_set folder ∷ deleted uid_set ∷ expunge ∷ [],
            (if server.accepts expunge then moved n true else command_failed expunge),
          )))

  abbrev pub IsMoveRun : Str → Str → ℕ → Run → Type 0
  IsMoveRun uid_set folder n run =
      ((run.0 ≡ []) × IsRefusal run.1)
      ⊎ ((server.move_ext ≡ true) × ByMove uid_set folder n run)
      ⊎ ((server.move_ext ≡ false) × ByCopy uid_set folder n run)

  copied :
      (uid_set folder : Str) (n : ℕ)
      → ByCopy uid_set folder n (
          issue server.accepts
            (uid_copy uid_set folder ∷ deleted uid_set ∷ expunge ∷ [])
            (moved n true))
  unfolding issue
  copied uid_set folder n = elim (Bool-cases (server.accepts (uid_copy uid_set folder))) [
    | inr no_copy ↦ inl (no_copy, rw no_copy refl)
    | inl copy ↦ elim (Bool-cases (server.accepts (deleted uid_set))) [
      | inr no_flag ↦ inr (inl (copy, no_flag, rw (copy, no_flag) refl))
      | inl flag ↦ elim (Bool-cases (server.accepts expunge)) [
        | inl done ↦ inr (inr (copy, flag, rw (copy, flag, done) refl))
        | inr not_done ↦ inr (inr (copy, flag, rw (copy, flag, not_done) refl))
      ]
    ]
  ]

  by_move :
      (uid_set folder : Str) (n : ℕ)
      → ByMove uid_set folder n
          (issue server.accepts (uid_move uid_set folder ∷ []) (moved n false))
  unfolding issue
  by_move uid_set folder n = elim (Bool-cases (server.accepts (uid_move uid_set folder))) [
    | inl done ↦ rw done refl
    | inr not_done ↦ rw not_done refl
  ]

  move_for-IsMoveRun :
      (uids : List ℕ) (folder : Str) (account : EmailAccountConfig)
      → IsMoveRun (format_uid_set uids) folder (length uids) (move_for server uids folder account)
  unfolding move_for run_imap_op move_commands
  move_for-IsMoveRun uids folder account =
      by_tests (server.has_credential account.instance_id) (server.connects account.instance_id)
        (server.selects account.folders.inbox) server.move_ext refl
    where
      s : Str
      s = format_uid_set uids

      n : ℕ
      n = length uids

      by_tests :
          (a b c m : Bool)
          → server.move_ext ≡ m
          → IsMoveRun s folder n (
              if not a
              then ([], no_credential)
              else if not b
              then ([], connect_failed)
              else if not c
              then ([], select_failed)
              else issue server.accepts
                  (if m
                    then uid_move s folder ∷ []
                    else uid_copy s folder ∷ deleted s ∷ expunge ∷ [])
                  (moved n (not m)))
      by_tests false b c m e = inl (refl, tt)
      by_tests true false c m e = inl (refl, tt)
      by_tests true true false m e = inl (refl, tt)
      by_tests true true true true e = inr (inl (e, by_move s folder n))
      by_tests true true true false e = inr (inr (e, copied s folder n))

  -- A move of some messages to a folder is either refused before any command, or one MOVE, or, on a
  -- server without it, a copy, then the flag that deletes, only if the copy was accepted, and then
  -- the expunge, only if the flag was too. The answer says that all of them were moved if each
  -- command was accepted, and names the one that was not otherwise. An archive of them is the same
  -- with the archive folder of the account.
  pub run_move_lem :
      (accounts : List EmailAccountConfig) (id : Str) (u : ℕ) (uids : List ℕ) (folder : Str)
      → IsMoveRun
          (format_uid_set (u ∷ uids))
          folder
          (length (u ∷ uids))
          (run_move server accounts id (u ∷ uids) folder)
        × IsMoveRun
            (format_uid_set (u ∷ uids))
            (archive_folder (find_account id accounts))
            (length (u ∷ uids))
            (run_archive server accounts id (u ∷ uids))
  unfolding run_move run_archive
  run_move_lem accounts id u uids folder =
      (by_move_account (find_account id accounts), by_archive_account (find_account id accounts))
    where
      by_move_account :
          (o : Option EmailAccountConfig)
          → IsMoveRun (format_uid_set (u ∷ uids)) folder (length (u ∷ uids)) (elim o [
            | none ↦ ([], unknown_instance)
            | some account ↦ move_for server (u ∷ uids) folder account
          ])
      by_move_account none = inl (refl, tt)
      by_move_account (some account) = move_for-IsMoveRun (u ∷ uids) folder account

      by_archive_account :
          (o : Option EmailAccountConfig)
          → IsMoveRun (format_uid_set (u ∷ uids)) (archive_folder o) (length (u ∷ uids)) (elim o [
            | none ↦ ([], unknown_instance)
            | some account ↦ move_for server (u ∷ uids) account.folders.archive account
          ])
      by_archive_account none = inl (refl, tt)
      by_archive_account (some account) =
          move_for-IsMoveRun (u ∷ uids) account.folders.archive account
