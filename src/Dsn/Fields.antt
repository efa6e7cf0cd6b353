-- ===== src/Dsn/Fields.antt =====
-- src/dsn.rs: the fields that the lines of a report set.
use nexo_plugin_email.Base.{
  Str, Option, none, some, List, [], ◌∷◌, ◌≡◌, ◌⊎◌, inl, inr, refl, sym, ◌∙◌, subst, Bool-cases,
  trim, split_once,
}
use nexo_plugin_email.Dsn.{
  ParsedBounce, DsnField, action, status, final_recipient, diagnostic_code, flush_value,
  flush_dsn_field, DsnScan, is_folded, start_field, scan_line, scan_lines, finish_scan,
  extract_delivery_status_fields, lines, set_action, set_status, set_recipient, set_reason,
  recipient_of,
}

-- A value that is there stays.
abbrev pub IsKept : Option Str → Option Str → Type 0
IsKept old new = (old ≡ none) ⊎ (new ≡ old)

pub record KeepsFields (b b' : ParsedBounce) : Type 0 where
  pub action : IsKept b.action b'.action
  pub status_code : IsKept b.status_code b'.status_code
  pub recipient : IsKept b.recipient b'.recipient
  pub reason : IsKept b.reason b'.reason
  pub original_message_id : b'.original_message_id ≡ b.original_message_id

KeepsFields-refl : (b : ParsedBounce) → KeepsFields b b
KeepsFields-refl b = record {
  action = inr refl;
  status_code = inr refl;
  recipient = inr refl;
  reason = inr refl;
  original_message_id = refl;
}

IsKept-trans : (x y z : Option Str) → IsKept x y → IsKept y z → IsKept x z
IsKept-trans x y z (inl e) k = inl e
IsKept-trans x y z (inr e) (inl f) = inl (sym e ∙ f)
IsKept-trans x y z (inr e) (inr f) = inr (f ∙ e)

KeepsFields-trans : (a b c : ParsedBounce) → KeepsFields a b → KeepsFields b c → KeepsFields a c
KeepsFields-trans a b c h k = record {
  action = IsKept-trans _ _ _ h.action k.action;
  status_code = IsKept-trans _ _ _ h.status_code k.status_code;
  recipient = IsKept-trans _ _ _ h.recipient k.recipient;
  reason = IsKept-trans _ _ _ h.reason k.reason;
  original_message_id = k.original_message_id ∙ h.original_message_id;
}

set_action-KeepsFields :
    (v : Str) (o : Option Str) (b : ParsedBounce) → b.action ≡ o → KeepsFields b (set_action v o b)
set_action-KeepsFields v none b e = record {
  action = inl e;
  status_code = inr refl;
  recipient = inr refl;
  reason = inr refl;
  original_message_id = refl;
}
set_action-KeepsFields v (some _) b e = KeepsFields-refl b

set_status-KeepsFields :
    (v : Str) (o : Option Str) (b : ParsedBounce)
    → b.status_code ≡ o
    → KeepsFields b (set_status v o b)
set_status-KeepsFields v none b e = record {
  action = inr refl;
  status_code = inl e;
  recipient = inr refl;
  reason = inr refl;
  original_message_id = refl;
}
set_status-KeepsFields v (some _) b e = KeepsFields-refl b

set_recipient-KeepsFields :
    (v : Str) (o : Option Str) (b : ParsedBounce)
    → b.recipient ≡ o
    → KeepsFields b (set_recipient v o b)
set_recipient-KeepsFields v none b e = record {
  action = inr refl;
  status_code = inr refl;
  recipient = inl e;
  reason = inr refl;
  original_message_id = refl;
}
set_recipient-KeepsFields v (some _) b e = KeepsFields-refl b

set_reason-KeepsFields :
    (v : Str) (o : Option Str) (b : ParsedBounce) → b.reason ≡ o → KeepsFields b (set_reason v o b)
set_reason-KeepsFields v none b e = record {
  action = inr refl;
  status_code = inr refl;
  recipient = inr refl;
  reason = inl e;
  original_message_id = refl;
}
set_reason-KeepsFields v (some _) b e = KeepsFields-refl b

flush_value-KeepsFields :
    (f : DsnField) (v : Str) (b : ParsedBounce) → KeepsFields b (flush_value f v b)
unfolding flush_value
flush_value-KeepsFields f [] b = KeepsFields-refl b
flush_value-KeepsFields action (c ∷ v) b = set_action-KeepsFields (c ∷ v) b.action b refl
flush_value-KeepsFields status (c ∷ v) b = set_status-KeepsFields (c ∷ v) b.status_code b refl
flush_value-KeepsFields final_recipient (c ∷ v) b =
    set_recipient-KeepsFields (recipient_of (c ∷ v) (split_once b';' (c ∷ v))) b.recipient b refl
flush_value-KeepsFields diagnostic_code (c ∷ v) b = set_reason-KeepsFields (c ∷ v) b.reason b refl

flush_dsn_field-KeepsFields :
    (o : Option DsnField) (buf : Str) (b : ParsedBounce) → KeepsFields b (flush_dsn_field o buf b)
unfolding flush_dsn_field
flush_dsn_field-KeepsFields none buf b = KeepsFields-refl b
flush_dsn_field-KeepsFields (some key) buf b = flush_value-KeepsFields key (trim buf) b

start_field-out : (o : Option (Str × Str)) (b : ParsedBounce) → (start_field o b).out ≡ b
unfolding start_field
start_field-out none b = refl
start_field-out (some (name, value)) b = refl

scan_line-KeepsFields : (l : Str) (s : DsnScan) → KeepsFields s.out (scan_line l s).out
unfolding scan_line
scan_line-KeepsFields l s = elim (Bool-cases (is_folded l)) [
  | inl e ↦ rw e (KeepsFields-refl s.out)
  | inr e ↦ rw e (
      subst (KeepsFields s.out) (sym (start_field-out (split_once b':' l) _))
        (flush_dsn_field-KeepsFields s.current s.buf s.out))
]

scan_lines-KeepsFields : (ls : List Str) (s : DsnScan) → KeepsFields s.out (scan_lines ls s).out
unfolding scan_lines
scan_lines-KeepsFields [] s = KeepsFields-refl s.out
scan_lines-KeepsFields (l ∷ ls) s =
    KeepsFields-trans s.out (scan_line l s).out _ (scan_line-KeepsFields l s)
      (scan_lines-KeepsFields ls (scan_line l s))

-- Reading the fields of a report, whatever its lines, a field that had a value before keeps it, and
-- the id of the original message is not touched.
pub extract_delivery_status_fields_lem :
    (body : Str) (b : ParsedBounce) → KeepsFields b (extract_delivery_status_fields body b)
unfolding extract_delivery_status_fields finish_scan
extract_delivery_status_fields_lem body b =
    let start : DsnScan = record { current = none; buf = []; out = b } in
    let last = scan_lines (lines body) start in
    KeepsFields-trans b last.out _ (scan_lines-KeepsFields (lines body) start)
      (flush_dsn_field-KeepsFields last.current last.buf last.out)
