-- ===== src/CursorStore/Reset.antt =====
-- src/cursor.rs: what `reset_if_validity_changed` answers and keeps.
use nexo_plugin_email.Base.{
  ℕ, Str, Option, none, some, ◌≡◌, ◌≢◌, ◌⊎◌, inl, inr, refl, arith, ◌==◌, str_is_eq, Bool-cases,
  ==_iff, lookup-insert_same, lookup-insert_other,
}
use nexo_plugin_email.CursorStore.{
  UidCursor, CursorTable, get, set, reset_found, reset_if_validity_changed,
}

-- What the stored cursor becomes: it stays when it is of the new validity, else it begins at 0.
pub IsResetTo : ℕ → Option UidCursor → UidCursor → Type 0
IsResetTo v none c = (c.uid_validity ≡ v) × (c.last_uid ≡ 0)
IsResetTo v (some old) c =
    ((old.uid_validity ≡ v) × (c ≡ old))
    ⊎ ((old.uid_validity ≢ v) × (c.uid_validity ≡ v) × (c.last_uid ≡ 0))

reset_found_lem :
    (o : Option UidCursor) (account_id : Str) (v now : ℕ) (t : CursorTable)
    → get account_id t ≡ o
    → IsResetTo v o (reset_found o account_id v now t).0
      × (get account_id (reset_found o account_id v now t).1
          ≡ some (reset_found o account_id v now t).0)
      × ((k : Str) → (account_id ≡ k) ⊎ (get k (reset_found o account_id v now t).1 ≡ get k t))
unfolding reset_found IsResetTo get set
reset_found_lem none account_id v now t e =
    ((refl, refl), lookup-insert_same account_id _ t, λ k. lookup-insert_other account_id k _ t)
reset_found_lem (some old) account_id v now t e = elim (Bool-cases (old.uid_validity == v)) [
  | inl same ↦ rw same (inl ((==_iff old.uid_validity v).0 same, refl), e, λ k. inr refl)
  | inr other ↦ rw other (
    inr (λ p. ground (arith, (==_iff old.uid_validity v).1 p), refl, refl),
    lookup-insert_same account_id _ t,
    λ k. lookup-insert_other account_id k _ t,
  )
]

-- A stored cursor of the validity that the server reports is answered as it is; any other, or none,
-- is replaced by one that begins at 0. What is answered is what is stored, and the cursors of the
-- other accounts stay.
reset_if_validity_changed_lem :
    (account_id : Str) (v now : ℕ) (t : CursorTable)
    → IsResetTo v (get account_id t) (reset_if_validity_changed account_id v now t).0
      × (get account_id (reset_if_validity_changed account_id v now t).1
          ≡ some (reset_if_validity_changed account_id v now t).0)
      × ((k : Str)
          → (account_id ≡ k) ⊎ (get k (reset_if_validity_changed account_id v now t).1 ≡ get k t))
unfolding reset_if_validity_changed
reset_if_validity_changed_lem account_id v now t =
    reset_found_lem (get account_id t) account_id v now t refl
