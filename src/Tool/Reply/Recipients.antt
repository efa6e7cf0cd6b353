-- ===== src/Tool/Reply/Recipients.antt =====
-- src/tool/reply.rs: who gets a reply, and its subject.
use mathlib.Core.Option.{some-injective}
use nexo_plugin_email.Base.{
  Str, Bool, true, false, not, ◌&&◌, Option, none, some, List, [], ◌∷◌, ◌++◌, ◌≡◌, refl, sym, ap,
  ◌∙◌, subst, arith, ◌⊎◌, any, filter_by, map, Bool-cases, inl, inr, if◌then◌else◌, str_eq,
  str_eq_iff, to_ascii_lowercase, eq_ignore_ascii_case, codes, trim_start, is_whitespace, byte_len,
  slice_to, leb,
}
use nexo_plugin_email.Events.{EmailMeta, AddressEntry}
use nexo_plugin_email.Tool.Reply.{
  to_of, is_other, dedupe, cc_of, derive_reply_recipients, prefix_re, is_empty_text,
}

-- The address is in the list, in some case.
abbrev pub is_among : Str → List Str → Bool
is_among s = any (eq_ignore_ascii_case s)

-- No address is there twice, in any case.
abbrev pub HasDistinctAddresses : List Str → Type 0
HasDistinctAddresses [] = Unit
HasDistinctAddresses (s ∷ rest) = (is_among s rest ≡ false) × HasDistinctAddresses rest

seen_same :
    (s x : Str) (seen : List Str)
    → eq_ignore_ascii_case s x ≡ true
    → any (λ p. eq_ignore_ascii_case p x) seen ≡ is_among s seen
unfolding any
seen_same s x [] h = refl
seen_same s x (p ∷ seen) h =
    let low : Str → Str = to_ascii_lowercase in
    ground (
      arith,
      seen_same s x seen h,
      str_eq_iff (low s) (low x),
      str_eq_iff (low p) (low x),
      str_eq_iff (low s) (low p),
    )

is_among-dedupe :
    (s : Str) (seen xs : List Str)
    → is_among s (dedupe seen xs) ≡ (is_among s xs && not (is_among s seen))
unfolding any dedupe
is_among-dedupe s seen [] = refl
is_among-dedupe s seen (x ∷ xs) =
    ground (arith, is_among-dedupe s seen xs, is_among-dedupe s (x ∷ seen) xs, seen_same s x seen)

among_self : (s : Str) (seen : List Str) → is_among s (s ∷ seen) ≡ true
unfolding any
among_self s seen = ground (arith, str_eq_iff (to_ascii_lowercase s) (to_ascii_lowercase s))

dedupe-HasDistinctAddresses : (seen xs : List Str) → HasDistinctAddresses (dedupe seen xs)
unfolding dedupe
dedupe-HasDistinctAddresses seen [] = tt
dedupe-HasDistinctAddresses seen (x ∷ xs) =
    elim (Bool-cases (any (λ p. eq_ignore_ascii_case p x) seen)) [
      | inl there ↦ rw there (dedupe-HasDistinctAddresses seen xs)
      | inr fresh ↦ rw fresh (
        ground (arith, is_among-dedupe x (x ∷ seen) xs, among_self x seen),
        dedupe-HasDistinctAddresses (x ∷ seen) xs,
      )
    ]

is_other_same :
    (own from s x : Str)
    → eq_ignore_ascii_case s x ≡ true
    → is_other own from x ≡ is_other own from s
unfolding is_other
is_other_same own from s x h =
    let low : Str → Str = to_ascii_lowercase in
    let e : low s ≡ low x = (str_eq_iff (low s) (low x)).0 h in
    rw (← e) (
      ap (λ b. not b && not (str_eq (low s) (low own)) && not (str_eq (low s) (low from)))
        (sym (emptiness s x e)))
  where
    emptiness :
        (s x : Str)
        → to_ascii_lowercase s ≡ to_ascii_lowercase x
        → is_empty_text s ≡ is_empty_text x
    emptiness [] [] e = refl
    emptiness [] (c ∷ x) e = unfold to_ascii_lowercase in absurd (ground arith)
    emptiness (c ∷ s) [] e = unfold to_ascii_lowercase in absurd (ground arith)
    emptiness (c ∷ s) (d ∷ x) e = refl

is_among-filter_by :
    (own from s : Str) (xs : List Str)
    → is_among s (filter_by (is_other own from) xs) ≡ (is_among s xs && is_other own from s)
unfolding any filter_by
is_among-filter_by own from s [] = refl
is_among-filter_by own from s (x ∷ xs) =
    ground (arith, is_among-filter_by own from s xs, is_other_same own from s x)

-- The addresses of a reply to all.
abbrev pub addresses : EmailMeta → List Str
addresses parent = map (λ (a : AddressEntry). a.address) (parent.to ++ parent.cc)

-- A reply goes to the sender of the parent, unless that address is empty. Without reply_all nobody
-- else gets it. With it the others are, in any case of letters, exactly the recipients of the parent
-- that are not empty, not the own address and not the sender; and none of them is there twice.
derive_reply_recipients_lem :
    (parent : EmailMeta) (own_address : Str)
    → (derive_reply_recipients parent false own_address ≡ (to_of parent.from.address, []))
      × (let all = derive_reply_recipients parent true own_address in
          (all.0 ≡ to_of parent.from.address)
          × HasDistinctAddresses all.1
          × ((s : Str)
              → is_among s all.1
                ≡ (is_among s (addresses parent) && is_other own_address parent.from.address s)))
unfolding derive_reply_recipients cc_of
derive_reply_recipients_lem parent own_address =
    let from = parent.from.address in
    let others = filter_by (is_other own_address from) (addresses parent) in
    (
      refl,
      (
        refl,
        dedupe-HasDistinctAddresses [] others,
        λ s.
            ground (arith, is_among-dedupe s [] others, unseen s)
            ∙ is_among-filter_by own_address from s (addresses parent),
      ),
    )
  where
    unseen : (s : Str) → is_among s [] ≡ false
    unseen s = unfold any in refl

prefixed : (subject : Str) → prefix_re (codes "Re: " ++ subject) ≡ some (codes "Re: " ++ subject)
unfolding prefix_re byte_len slice_to
prefixed subject =
    let long : leb 3 (byte_len (codes "Re: " ++ subject)) ≡ true = ground arith in rw long refl

-- The call panics, keeps the subject, or puts the prefix before it.
prefix_re_cases :
    (s : Str)
    → (prefix_re s ≡ none) ⊎ ((prefix_re s ≡ some s) ⊎ (prefix_re s ≡ some (codes "Re: " ++ s)))
unfolding prefix_re
prefix_re_cases s =
    at (leb 3 (byte_len (trim_start is_whitespace s))) (slice_to 3 (trim_start is_whitespace s))
  where
    chosen :
        (b : Bool)
        → (let r : Option Str = some (if b then s else codes "Re: " ++ s) in
            (r ≡ none) ⊎ ((r ≡ some s) ⊎ (r ≡ some (codes "Re: " ++ s))))
    chosen true = inr (inl refl)
    chosen false = inr (inr refl)

    at :
        (b : Bool) (o : Option Str)
        → (let r : Option Str =
              if b
              then elim o [
                | none ↦ none
                | some head ↦
                    some (if eq_ignore_ascii_case head (codes "re:") then s else codes "Re: " ++ s)
              ]
              else some (codes "Re: " ++ s) in
            (r ≡ none) ⊎ ((r ≡ some s) ⊎ (r ≡ some (codes "Re: " ++ s))))
    at false o = inr (inr refl)
    at true none = inl refl
    at true (some head) = chosen (eq_ignore_ascii_case head (codes "re:"))

-- A subject that a reply has made is left as it is by a reply to that reply.
prefix_re-idempotent : (s t : Str) → prefix_re s ≡ some t → prefix_re t ≡ some t
prefix_re-idempotent s t h = elim (prefix_re_cases s) [
  | inl panic ↦ absurd (cc)
  | inr (inl same) ↦
      let e : s ≡ t = some-injective _ _ (sym same ∙ h) in subst (λ x. prefix_re x ≡ some t) e h
  | inr (inr more) ↦
      let e : codes "Re: " ++ s ≡ t = some-injective _ _ (sym more ∙ h) in
      subst (λ x. prefix_re x ≡ some x) e (prefixed s)
]
