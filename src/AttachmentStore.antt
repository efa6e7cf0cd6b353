-- ===== src/AttachmentStore.antt =====
-- src/attachment_store.rs: which attachment files are referenced, and the sweep of the old ones.
-- The table is a map from its primary key. A negative retention counts as 0, like in the code.
pub mod Sweep
use nexo_plugin_email.Base.{
  ℕ, ◌+◌, ◌-◌, Str, Bool, true, false, Option, none, some, List, [], ◌∷◌, ◌==◌, ltb, not,
  if◌then◌else◌, Map, lookup, insert, str_is_eq, str_eq, length,
}

pub record AttachmentRow : Type 0 where
  pub first_seen : ℕ
  pub last_seen : ℕ
  pub count : ℕ

abbrev pub AttachmentTable : Type 0
AttachmentTable = Map Str AttachmentRow

-- the row that the upsert leaves
unfoldable pub bumped : ℕ → Option AttachmentRow → AttachmentRow
bumped now none = record { first_seen = now; last_seen = now; count = 1 }
bumped now (some r) = record r { last_seen = now; count = r.count + 1 }

unfoldable pub record_attachment : Str → ℕ → AttachmentTable → AttachmentTable
unfolding bumped lookup insert str_eq
record_attachment [] now t = t
record_attachment (c ∷ sha256) now t = insert (c ∷ sha256) (bumped now (lookup (c ∷ sha256) t)) t

-- `SELECT sha256 … WHERE last_seen < ?`
unfoldable pub stale : ℕ → AttachmentTable → List Str
stale cutoff [] = []
stale cutoff ((sha256, r) ∷ t) =
    let rest = stale cutoff t in if ltb r.last_seen cutoff then sha256 ∷ rest else rest

-- `DELETE … WHERE last_seen < ?`
unfoldable pub delete_stale : ℕ → AttachmentTable → AttachmentTable
delete_stale cutoff [] = []
delete_stale cutoff ((sha256, r) ∷ t) =
    let rest = delete_stale cutoff t in if ltb r.last_seen cutoff then rest else (sha256, r) ∷ rest

-- the loop over the stale rows: how many of the removals succeed
unfoldable pub count_removed : (remove_file : Str → Bool) → List Str → ℕ
count_removed remove_file [] = 0
count_removed remove_file (sha256 ∷ rest) =
    let n = count_removed remove_file rest in if remove_file sha256 then n + 1 else n

-- The number that is returned, the files that were asked to be removed, and the table. A removal
-- that fails, for whatever reason, is not counted, and the sweep goes on.
pub record Sweeping : Type 0 where
  pub removed : ℕ
  pub files : List Str
  pub table : AttachmentTable

unfoldable pub gc : (remove_file : Str → Bool) → ℕ → ℕ → AttachmentTable → Sweeping
unfolding stale delete_stale count_removed
gc remove_file retention_seconds now t =
    if retention_seconds == 0
    then record { removed = 0; files = []; table = t }
    else let cutoff = now - retention_seconds in
      record {
        removed = count_removed remove_file (stale cutoff t);
        files = stale cutoff t;
        table = elim (stale cutoff t) [ [] ↦ t | _ ∷ _ ↦ delete_stale cutoff t ];
      }

unfoldable pub count : AttachmentTable → ℕ
count t = length t

unfoldable pub last_seen : Str → AttachmentTable → Option ℕ
unfolding lookup str_eq
last_seen sha256 t = elim (lookup sha256 t) [ none ↦ none | some r ↦ some r.last_seen ]
