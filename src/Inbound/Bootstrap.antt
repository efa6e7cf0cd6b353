-- ===== src/Inbound/Bootstrap.antt =====
-- src/inbound.rs: where `open_mailbox` puts the cursor.
use nexo_plugin_email.Base.{ℕ, ◌-◌, none, some, ◌⊎◌, ◌≡◌, refl, arith, min}
use nexo_plugin_email.Inbound.{Mailbox, InboundCfg, bootstrap_uid}
use nexo_plugin_email.Dsn.{MailParser}

-- With a limit and a fresh cursor, the messages behind it are those below `uid_next`, or the last
-- of them up to the limit, whichever are fewer; without a limit, or with a cursor that has moved,
-- the cursor stays.
bootstrap_uid_lem :
    (box : Mailbox) (parser : MailParser) (cfg : InboundCfg) (last_uid uid_next limit : ℕ)
    → (uid_next - 1 - bootstrap_uid box parser cfg 0 uid_next (some limit)
        ≡ min (uid_next - 1) limit)
      × (bootstrap_uid box parser cfg last_uid uid_next none ≡ last_uid)
      × ((last_uid ≡ 0) ⊎ (bootstrap_uid box parser cfg last_uid uid_next (some limit) ≡ last_uid))
unfolding bootstrap_uid
bootstrap_uid_lem box parser cfg last_uid uid_next limit = (ground arith, refl, ground arith)
