-- ===== src/CursorStore.antt =====
-- src/cursor.rs: how far the inbox of each account was read. The table is a map from its primary
-- key; its columns hold what `set` wrote, which are 32-bit numbers, so the casts change nothing.
pub mod Reset
use nexo_plugin_email.Base.{
  ℕ, Str, Option, none, some, ◌==◌, if◌then◌else◌, Map, lookup, insert, str_is_eq, str_eq,
}

pub record UidCursor : Type 0 where
  pub uid_validity : ℕ
  pub last_uid : ℕ
  pub updated_at : ℕ

abbrev pub CursorTable : Type 0
CursorTable = Map Str UidCursor

unfoldable pub get : Str → CursorTable → Option UidCursor
unfolding lookup str_eq
get account_id t = lookup account_id t

unfoldable pub set : Str → UidCursor → CursorTable → CursorTable
unfolding insert str_eq
set account_id c t = insert account_id c t

-- from the stored cursor on
unfoldable pub reset_found : Option UidCursor → Str → ℕ → ℕ → CursorTable → UidCursor × CursorTable
unfolding set
reset_found none account_id new_validity now t =
    let fresh : UidCursor = record {
      uid_validity = new_validity;
      last_uid = 0;
      updated_at = now;
    } in
    (fresh, set account_id fresh t)
reset_found (some existing) account_id new_validity now t =
    let fresh : UidCursor = record {
      uid_validity = new_validity;
      last_uid = 0;
      updated_at = now;
    } in
    if existing.uid_validity == new_validity then (existing, t) else (fresh, set account_id fresh t)

unfoldable pub reset_if_validity_changed : Str → ℕ → ℕ → CursorTable → UidCursor × CursorTable
unfolding get reset_found
reset_if_validity_changed account_id new_validity now t =
    reset_found (get account_id t) account_id new_validity now t
