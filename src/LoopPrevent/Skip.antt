-- ===== src/LoopPrevent/Skip.antt =====
-- src/loop_prevent.rs: what the answer of `should_skip` says.
use nexo_plugin_email.Base.{
  Str, String, Bool, true, false, not, ◌&&◌, ◌||◌, Option, none, some, List, [], ◌∷◌, ◌≡◌, refl,
  sym, ◌∙◌, if◌then◌else◌, All, ◌++◌, ap, arith, any, str_eq, str_is_eq, lookup, codes, trim,
  contains, to_ascii_lowercase, eq_ignore_ascii_case,
}
use nexo_plugin_email.Events.{EmailMeta}
use nexo_plugin_email.Threading.{is_self_thread}
use nexo_plugin_email.LoopPrevent.{
  LoopPreventionCfg, SkipReason, auto_submitted, list_mail, precedence_bulk, self_from, spam_flag,
  feedback_id, esp_mailer, dsn_inbound, header_is, has_header, is_automatic, is_one_of, bulk_words,
  spam_words, is_esp_mailer, is_list_mail, should_skip, esp_mailer_signatures,
}

-- The value of a header, without its outer blanks and in lower case, is one of some words.
abbrev pub says : List Str → Option Str → Bool
says words none = false
says words (some v) = any (λ w. str_eq (to_ascii_lowercase (trim v)) w) words

abbrev pub is_there : Option Str → Bool
is_there none = false
is_there (some v) = true

-- The mailer, in lower case, contains the name of a bulk sender.
abbrev pub names_esp : Option Str → Bool
names_esp none = false
names_esp (some v) = any (λ sig. contains sig (to_ascii_lowercase v)) esp_mailer_signatures

abbrev pub header : EmailMeta → String → Option Str
header meta name = lookup (codes name) meta.headers_extra

abbrev pub same_address : Str → Str → Bool
same_address [] account = false
same_address (c ∷ s) account = str_eq (to_ascii_lowercase (c ∷ s)) (to_ascii_lowercase account)

-- The sender is the account, in any ASCII case.
abbrev pub is_own : EmailMeta → Str → Bool
is_own meta account = same_address meta.from.address account

-- Whether the rule of a reason is switched on and the message meets it.
pub applies : SkipReason → EmailMeta → Str → LoopPreventionCfg → Bool
applies auto_submitted meta account cfg =
    cfg.auto_submitted
    && (is_there (header meta "auto-submitted")
        && not (says (codes "no" ∷ []) (header meta "auto-submitted")))
applies list_mail meta account cfg =
    cfg.list_headers
    && (is_there (header meta "list-id") || is_there (header meta "list-unsubscribe"))
applies precedence_bulk meta account cfg =
    cfg.list_headers
    && says (codes "bulk" ∷ codes "junk" ∷ codes "list" ∷ []) (header meta "precedence")
applies spam_flag meta account cfg =
    cfg.spam_flag && says (codes "yes" ∷ codes "true" ∷ codes "y" ∷ []) (header meta "x-spam-flag")
applies feedback_id meta account cfg = cfg.feedback_id && is_there (header meta "feedback-id")
applies esp_mailer meta account cfg = cfg.esp_mailer && names_esp (header meta "x-mailer")
applies self_from meta account cfg = cfg.self_from && is_own meta account
applies dsn_inbound meta account cfg = false

-- The reasons, the first of which that applies is the answer.
abbrev pub priority : List SkipReason
priority =
    auto_submitted ∷ list_mail ∷ precedence_bulk ∷ spam_flag ∷ feedback_id ∷ esp_mailer ∷ self_from
    ∷ []

-- The first of a list that passes a test: all before it fail; without one, all fail.
abbrev pub IsFirstOf : (SkipReason → Bool) → Option SkipReason → List SkipReason → Type 0
IsFirstOf p none rs = All (λ r. p r ≡ false) rs
IsFirstOf p (some r) rs =
    (before after : List SkipReason) × (rs ≡ before ++ r ∷ after)
    × All (λ s. p s ≡ false) before
    × (p r ≡ true)

find_first : (SkipReason → Bool) → List SkipReason → Option SkipReason
find_first p [] = none
find_first p (r ∷ rs) = if p r then some r else find_first p rs

find_first_lem : (p : SkipReason → Bool) (rs : List SkipReason) → IsFirstOf p (find_first p rs) rs
unfolding find_first
find_first_lem p [] = tt
find_first_lem p (r ∷ rs) = decide (p r) refl (find_first p rs) (find_first_lem p rs)
  where
    decide :
        (b : Bool)
        → p r ≡ b
        → (o : Option SkipReason) → IsFirstOf p o rs
        → IsFirstOf p (if b then some r else o) (r ∷ rs)
    decide true e o h = ([], rs, refl, tt, e)
    decide false e none h = (e, h)
    decide false e (some s) (before, after, cut, fail, pass) =
        (r ∷ before, after, ap (λ xs. r ∷ xs) cut, (e, fail), pass)

-- The tests as `should_skip` makes them.
tests : SkipReason → EmailMeta → Str → LoopPreventionCfg → Bool
tests auto_submitted meta account cfg =
    cfg.auto_submitted && header_is is_automatic "auto-submitted" meta
tests list_mail meta account cfg = cfg.list_headers && is_list_mail meta
tests precedence_bulk meta account cfg =
    cfg.list_headers && header_is (is_one_of bulk_words) "precedence" meta
tests spam_flag meta account cfg =
    cfg.spam_flag && header_is (is_one_of spam_words) "x-spam-flag" meta
tests feedback_id meta account cfg = cfg.feedback_id && has_header "feedback-id" meta
tests esp_mailer meta account cfg = cfg.esp_mailer && header_is is_esp_mailer "x-mailer" meta
tests self_from meta account cfg = cfg.self_from && is_self_thread meta account
tests dsn_inbound meta account cfg = false

automatic_lem :
    (o : Option Str)
    → elim o [ none ↦ false | some v ↦ is_automatic v ]
      ≡ (is_there o && not (says (codes "no" ∷ []) o))
unfolding is_automatic any to_ascii_lowercase
automatic_lem none = refl
automatic_lem (some v) = ground arith

one_of_lem :
    (words : List Str) (o : Option Str)
    → elim o [ none ↦ false | some v ↦ is_one_of words v ] ≡ says words o
unfolding is_one_of
one_of_lem words none = refl
one_of_lem words (some v) = refl

there_lem : (o : Option Str) → elim o [ none ↦ false | some v ↦ true ] ≡ is_there o
there_lem none = refl
there_lem (some v) = refl

esp_lem : (o : Option Str) → elim o [ none ↦ false | some v ↦ is_esp_mailer v ] ≡ names_esp o
unfolding is_esp_mailer
esp_lem none = refl
esp_lem (some v) = refl

own_lem : (meta : EmailMeta) (account : Str) → is_self_thread meta account ≡ is_own meta account
unfolding is_self_thread
own_lem meta account = by_address meta.from.address
  where
    by_address :
        (a : Str)
        → elim a [ [] ↦ false | c ∷ s ↦ eq_ignore_ascii_case (c ∷ s) account ]
          ≡ same_address a account
    by_address [] = refl
    by_address (c ∷ s) = refl

tests-applies :
    (r : SkipReason) (meta : EmailMeta) (account : Str) (cfg : LoopPreventionCfg)
    → tests r meta account cfg ≡ applies r meta account cfg
unfolding tests applies header_is
tests-applies auto_submitted meta account cfg =
    ap (λ b. cfg.auto_submitted && b) (automatic_lem (header meta "auto-submitted"))
tests-applies list_mail meta account cfg =
    rw (there_lem (header meta "list-id"), there_lem (header meta "list-unsubscribe")) refl
tests-applies precedence_bulk meta account cfg =
    ap (λ b. cfg.list_headers && b) (one_of_lem bulk_words (header meta "precedence"))
tests-applies spam_flag meta account cfg =
    ap (λ b. cfg.spam_flag && b) (one_of_lem spam_words (header meta "x-spam-flag"))
tests-applies feedback_id meta account cfg =
    ap (λ b. cfg.feedback_id && b) (there_lem (header meta "feedback-id"))
tests-applies esp_mailer meta account cfg =
    ap (λ b. cfg.esp_mailer && b) (esp_lem (header meta "x-mailer"))
tests-applies self_from meta account cfg = ap (λ b. cfg.self_from && b) (own_lem meta account)
tests-applies dsn_inbound meta account cfg = refl

All-cong :
    (p q : SkipReason → Bool) (rs : List SkipReason)
    → ((r : SkipReason) → p r ≡ q r)
    → All (λ r. p r ≡ false) rs
    → All (λ r. q r ≡ false) rs
All-cong p q [] same h = tt
All-cong p q (r ∷ rs) same h = (sym (same r) ∙ h.0, All-cong p q rs same h.1)

IsFirstOf-cong :
    (p q : SkipReason → Bool) (o : Option SkipReason) (rs : List SkipReason)
    → ((r : SkipReason) → p r ≡ q r)
    → IsFirstOf p o rs
    → IsFirstOf q o rs
IsFirstOf-cong p q none rs same h = All-cong p q rs same h
IsFirstOf-cong p q (some r) rs same (before, after, cut, fail, pass) =
    (before, after, cut, All-cong p q before same fail, sym (same r) ∙ pass)

-- The answer is the first reason, in the order of the list above, whose rule is on and which the
-- message meets; a message is let through exactly when no rule that is on meets it. A rule is met
-- by an Auto-Submitted other than `no`, a List-Id or List-Unsubscribe, a Precedence of `bulk`,
-- `junk` or `list`, an X-Spam-Flag of `yes`, `true` or `y`, a Feedback-Id, an X-Mailer that
-- contains the name of a bulk sender, or a sender that is not empty and is the account. Values are
-- compared without regard to ASCII case and, but for the last two rules, to outer blanks.
pub should_skip_lem :
    (meta : EmailMeta) (account : Str) (cfg : LoopPreventionCfg)
    → IsFirstOf (λ r. applies r meta account cfg) (should_skip meta account cfg) priority
unfolding should_skip tests find_first
should_skip_lem meta account cfg =
    IsFirstOf-cong (λ r. tests r meta account cfg) (λ r. applies r meta account cfg)
      (should_skip meta account cfg) priority (λ r. tests-applies r meta account cfg)
      (find_first_lem (λ r. tests r meta account cfg) priority)
