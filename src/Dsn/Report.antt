-- ===== src/Dsn/Report.antt =====
-- src/dsn.rs: which mail counts as a delivery report, and how it is classed.
use nexo_plugin_email.Base.{Str, true, Option, some, List, [], ◌∷◌, ◌++◌, ◌≡◌, ◌≢◌, ◌⊎◌}
use nexo_plugin_email.Events.{EmailMeta}
use nexo_plugin_email.Dsn.{Message, is_dsn, mail_domain_of, is_daemon}

-- `d` is `e` or a domain below it.
abbrev pub IsWithin : Str → Str → Type 0
IsWithin d e = (d ≡ e) ⊎ ((front : Str) × (d ≡ front ++ b'.' ∷ e))

-- Two domains that are there, one of which is the other or below it.
abbrev pub IsAligned : Option Str → Option Str → Type 0
IsAligned (some f) (some a) = (f ≢ []) × (a ≢ []) × (IsWithin f a ⊎ IsWithin a f)
IsAligned _ _ = ⊥

-- Why a message counts as a report.
abbrev pub IsReport : Message → EmailMeta → Str → Type 0
IsReport m meta account =
    (is_dsn m.content_type ≡ true)
    ⊎ ((is_daemon meta.from.address ≡ true)
        × IsAligned (mail_domain_of meta.from.address) (mail_domain_of account))
