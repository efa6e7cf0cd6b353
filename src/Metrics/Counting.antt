-- ===== src/Metrics/Counting.antt =====
-- src/metrics.rs: every counter counts its own calls.
use nexo_plugin_email.Base.{
  ℕ, suc, ◌+◌, ◌%◌, ◌^◌, ◌<◌, ◌&&◌, codes, Str, Bool, true, false, List, [], ◌∷◌, ◌≡◌, refl, ap,
  ◌∙◌, arith, lookup, lookup-insert, Map, str_is_eq, str_eq, str_eq_iff, if◌then◌else◌, Bool-cases,
  inl, inr,
}
use nexo_plugin_email.BounceStore.{BounceKey, key_is_eq, key_eq, key_eq_iff}
use nexo_plugin_email.Dsn.{BounceClassification, permanent, transient, unknown}
use nexo_plugin_email.Metrics.Counters.{
  Counters, no_counts, fetch_add, or_zero, bump_instance, bump_bounce, bounce_label, Inc, fetched,
  skipped, sent, failed, parse_error, bounced, write_error, inc, inc_all,
}

-- The name of a class in the scrape.
abbrev pub class_name : BounceClassification → Str
class_name permanent = codes "permanent"
class_name transient = codes "transient"
class_name unknown = codes "unknown"

abbrev pub same_class : BounceClassification → BounceClassification → Bool
same_class permanent permanent = true
same_class transient transient = true
same_class unknown unknown = true
same_class _ _ = false

-- What the counter of a call stands at.
unfoldable pub value : Inc → Counters → ℕ
unfolding lookup
value (fetched i) c = or_zero (lookup i c.messages_fetched)
value (skipped r) c = or_zero (lookup r c.loop_skipped)
value (sent i) c = or_zero (lookup i c.outbound_sent)
value (failed i) c = or_zero (lookup i c.outbound_failed)
value (parse_error i) c = or_zero (lookup i c.parse_errors)
value (bounced i class) c = or_zero (lookup (i, class_name class) c.bounces)
value write_error c = c.attachment_write_errors

-- The calls that count at the same counter.
unfoldable pub same_counter : Inc → Inc → Bool
unfolding str_eq
same_counter (fetched i) (fetched j) = str_eq i j
same_counter (skipped i) (skipped j) = str_eq i j
same_counter (sent i) (sent j) = str_eq i j
same_counter (failed i) (failed j) = str_eq i j
same_counter (parse_error i) (parse_error j) = str_eq i j
same_counter (bounced i c) (bounced j d) = str_eq i j && same_class c d
same_counter write_error write_error = true
same_counter _ _ = false

bump_instance-value :
    (k j : Str) (m : Map Str ℕ)
    → or_zero (lookup j (bump_instance k m))
      ≡ (if str_eq k j then fetch_add (or_zero (lookup j m)) else or_zero (lookup j m))
unfolding bump_instance
bump_instance-value k j m = elim (Bool-cases (str_eq k j)) [
  | inl same ↦
      let e : k ≡ j = (str_eq_iff k j).0 same in
      ap or_zero (lookup-insert k j (fetch_add (or_zero (lookup k m))) m)
      ∙ rw same (ap (λ x. fetch_add (or_zero (lookup x m))) e)
  | inr other ↦ ap or_zero (lookup-insert k j (fetch_add (or_zero (lookup k m))) m) ∙ rw other refl
]

bump_bounce-value :
    (k j : BounceKey) (m : Map BounceKey ℕ)
    → or_zero (lookup j (bump_bounce k m))
      ≡ (if key_eq k j then fetch_add (or_zero (lookup j m)) else or_zero (lookup j m))
unfolding bump_bounce
bump_bounce-value k j m = elim (Bool-cases (key_eq k j)) [
  | inl same ↦
      let e : k ≡ j = (key_eq_iff k j).0 same in
      ap or_zero (lookup-insert k j (fetch_add (or_zero (lookup k m))) m)
      ∙ rw same (ap (λ x. fetch_add (or_zero (lookup x m))) e)
  | inr other ↦ ap or_zero (lookup-insert k j (fetch_add (or_zero (lookup k m))) m) ∙ rw other refl
]

key_eq-bounce_label :
    (i j : Str) (x y : BounceClassification)
    → key_eq (i, bounce_label x) (j, class_name y) ≡ (str_eq i j && same_class x y)
unfolding bounce_label str_eq
key_eq-bounce_label i j permanent permanent = refl
key_eq-bounce_label i j permanent transient = refl
key_eq-bounce_label i j permanent unknown = refl
key_eq-bounce_label i j transient permanent = refl
key_eq-bounce_label i j transient transient = refl
key_eq-bounce_label i j transient unknown = refl
key_eq-bounce_label i j unknown permanent = refl
key_eq-bounce_label i j unknown transient = refl
key_eq-bounce_label i j unknown unknown = refl

value-inc :
    (e f : Inc) (c : Counters)
    → value f (inc e c) ≡ (if same_counter e f then fetch_add (value f c) else value f c)
unfolding value inc same_counter
value-inc (fetched i) (fetched j) c = bump_instance-value i j c.messages_fetched
value-inc (skipped i) (skipped j) c = bump_instance-value i j c.loop_skipped
value-inc (sent i) (sent j) c = bump_instance-value i j c.outbound_sent
value-inc (failed i) (failed j) c = bump_instance-value i j c.outbound_failed
value-inc (parse_error i) (parse_error j) c = bump_instance-value i j c.parse_errors
value-inc (bounced i x) (bounced j y) c =
    bump_bounce-value (i, bounce_label x) (j, class_name y) c.bounces
    ∙ ap
        (λ b.
          if b
          then fetch_add (or_zero (lookup (j, class_name y) c.bounces))
          else or_zero (lookup (j, class_name y) c.bounces))
        (key_eq-bounce_label i j x y)
value-inc write_error write_error c = refl
value-inc _ _ c = refl

-- How many calls count at the counter of this one.
unfoldable pub calls : Inc → List Inc → ℕ
unfolding same_counter
calls f [] = 0
calls f (e ∷ es) = let rest = calls f es in if same_counter e f then suc rest else rest

inc_all-value :
    (f : Inc) (es : List Inc) (c : Counters)
    → value f c < 2 ^ 64
    → value f (inc_all es c) ≡ (value f c + calls f es) % 2 ^ 64
unfolding inc_all calls
inc_all-value f [] c small = omega arith
inc_all-value f (e ∷ es) c small =
    by_test (same_counter e f) (value f (inc e c)) (value-inc e f c) (inc_all-value f es (inc e c))
  where
    by_test :
        (b : Bool) (v : ℕ)
        → v ≡ (if b then fetch_add (value f c) else value f c)
        → (v < 2 ^ 64 → value f (inc_all es (inc e c)) ≡ (v + calls f es) % 2 ^ 64)
        → value f (inc_all es (inc e c))
          ≡ (value f c + (if b then suc (calls f es) else calls f es)) % 2 ^ 64
    by_test true v same rest = rest (omega (arith, same)) ∙ omega (arith, same)
    by_test false v same rest = rest (omega (arith, same, small)) ∙ omega (arith, same)

value-no_counts : (f : Inc) → value f no_counts ≡ 0
unfolding value lookup
value-no_counts (fetched i) = refl
value-no_counts (skipped i) = refl
value-no_counts (sent i) = refl
value-no_counts (failed i) = refl
value-no_counts (parse_error i) = refl
value-no_counts (bounced i x) = refl
value-no_counts write_error = refl

-- After any calls, in any order, each counter, of an instance, of a reason, or of an instance and
-- one of the three classes under its name in the scrape, stands at the number of the calls that were
-- made for exactly it, modulo 2 ^ 64.
pub inc_all_lem : (f : Inc) (es : List Inc) → value f (inc_all es no_counts) ≡ calls f es % 2 ^ 64
inc_all_lem f es =
    let start = value-no_counts f in
    inc_all-value f es no_counts (omega (arith, start)) ∙ omega (arith, start)
