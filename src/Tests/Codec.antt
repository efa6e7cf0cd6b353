-- ===== src/Tests/Codec.antt =====
-- A codec of queue rows that meets the laws of `Storage`, for the tests: every text is preceded by
-- its length, and a row stands in braces.
use mathlib.Core.List.{append-nil}
use mathlib.Core.List.Permᴰ
use nexo_plugin_email.Base.{
  ℕ, zero, suc, Str, Bool, true, false, Option, none, some, List, [], ◌∷◌, ◌++◌, ◌≡◌, refl, ap, ◌∙◌,
  if◌then◌else◌, ◌==◌, length, take, drop, trim_start-keep, trim_end-keep, is_whitespace, trim_end,
}
use nexo_plugin_email.OutboundQueue.{OutboundJob, Storage, is_blank}

take-length : (s r : Str) → take (length s) (s ++ r) ≡ s
take-length [] r = refl
take-length (c ∷ s) r = ap (λ t. c ∷ t) (take-length s r)

drop-length : (s r : Str) → drop (length s) (s ++ r) ≡ r
drop-length [] r = refl
drop-length (c ∷ s) r = drop-length s r

-- Writing before what follows, and reading with a continuation.
put_str : Str → Str → Str
put_str s r = length s ∷ s ++ r

get_str : {A : Type 0} → A → Str → (Str → Str → A) → A
get_str bad [] k = bad
get_str bad (n ∷ r) k = k (take n r) (drop n r)

get_str-put_str :
    {A : Type 0} (bad : A) (s r : Str) (k : Str → Str → A) → get_str bad (put_str s r) k ≡ k s r
unfolding get_str put_str
get_str-put_str bad s r k =
    ap (λ t. k t (drop (length s) (s ++ r))) (take-length s r) ∙ ap (k s) (drop-length s r)

get_nat : {A : Type 0} → A → Str → (ℕ → Str → A) → A
get_nat bad [] k = bad
get_nat bad (n ∷ r) k = k n r

put_strs : List Str → Str → Str
unfolding put_str
put_strs [] r = r
put_strs (s ∷ ss) r = put_str s (put_strs ss r)

get_strs : {A : Type 0} → A → ℕ → Str → (List Str → Str → A) → A
unfolding get_str
get_strs bad zero r k = k [] r
get_strs bad (suc n) r k = get_str bad r (λ s r'. get_strs bad n r' (λ ss r''. k (s ∷ ss) r''))

get_strs-put_strs :
    {A : Type 0} (bad : A) (ss : List Str) (r : Str) (k : List Str → Str → A)
    → get_strs bad (length ss) (put_strs ss r) k ≡ k ss r
unfolding get_strs put_strs
get_strs-put_strs bad [] r k = refl
get_strs-put_strs bad (s ∷ ss) r k =
    get_str-put_str bad s (put_strs ss r)
      (λ t r'. get_strs bad (length ss) r' (λ ts r''. k (t ∷ ts) r''))
    ∙ get_strs-put_strs bad ss r (λ ts r''. k (s ∷ ts) r'')

put_list : List Str → Str → Str
unfolding put_strs
put_list ss r = length ss ∷ put_strs ss r

get_list : {A : Type 0} → A → Str → (List Str → Str → A) → A
unfolding get_nat get_strs
get_list bad r k = get_nat bad r (λ n r'. get_strs bad n r' k)

get_list-put_list :
    {A : Type 0} (bad : A) (ss : List Str) (r : Str) (k : List Str → Str → A)
    → get_list bad (put_list ss r) k ≡ k ss r
unfolding get_list put_list get_nat
get_list-put_list bad ss r k = get_strs-put_strs bad ss r k

of_option : Option Str → List Str
of_option none = []
of_option (some s) = s ∷ []

to_option : List Str → Option Str
to_option [] = none
to_option (s ∷ ss) = some s

to_option-of_option : (o : Option Str) → to_option (of_option o) ≡ o
unfolding to_option of_option
to_option-of_option none = refl
to_option-of_option (some s) = refl

of_bool : Bool → ℕ
of_bool true = 1
of_bool false = 0

encode : OutboundJob → Str
unfolding put_str put_list of_option of_bool
encode j = put_str j.message_id (
    put_str j.instance_id (
      put_str j.envelope.from (
        put_list j.envelope.to (
          put_list j.envelope.cc (
            put_list j.envelope.bcc (
              put_str j.raw_mime (
                put_list (of_option j.last_error)
                  (j.attempts ∷ j.next_attempt_at ∷ j.created_at ∷ of_bool j.done ∷ []))))))))

decode : Str → Option OutboundJob
unfolding get_str get_list get_nat to_option
decode s = get_str none s (λ message_id r0. get_str none r0 (λ instance_id r1.
    get_str none r1 (λ from r2. get_list none r2 (λ to r3. get_list none r3 (λ cc r4.
      get_list none r4 (λ bcc r5. get_str none r5 (λ raw_mime r6. get_list none r6 (λ last_error r7.
        get_nat none r7 (λ attempts r8. get_nat none r8 (λ next_attempt_at r9.
          get_nat none r9 (λ created_at r10. get_nat none r10 (λ done r11. some (record {
            message_id = message_id;
            instance_id = instance_id;
            envelope = record { from = from; to = to; cc = cc; bcc = bcc };
            raw_mime = raw_mime;
            attempts = attempts;
            next_attempt_at = next_attempt_at;
            last_error = to_option last_error;
            created_at = created_at;
            done = (done == 1);
          })))))))))))))

of_bool_lem : (b : Bool) → (of_bool b == 1) ≡ b
unfolding of_bool
of_bool_lem true = refl
of_bool_lem false = refl

decode-encode : (j : OutboundJob) → decode (encode j) ≡ some j
unfolding decode encode get_nat
decode-encode j = simp (get_str-put_str, get_list-put_list, to_option-of_option, of_bool_lem) refl

pub to_string : OutboundJob → Str
unfolding put_str encode
to_string j = b'{' ∷ put_str (encode j) [] ++ b'}' ∷ []

pub from_str : Str → Option OutboundJob
unfolding get_str decode
from_str [] = none
from_str (c ∷ r) = if c == b'{' then get_str none r (λ body _. decode body) else none

pub from_str-to_string : (j : OutboundJob) → from_str (to_string j) ≡ some j
unfolding from_str to_string put_str
from_str-to_string j =
    ap (λ b. get_str none (length (encode j) ∷ b ++ b'}' ∷ []) (λ body _. decode body))
      (append-nil (encode j))
    ∙ get_str-put_str none (encode j) (b'}' ∷ []) (λ body _. decode body)
    ∙ decode-encode j

pub is_blank-to_string : (j : OutboundJob) → is_blank (to_string j) ≡ false
unfolding is_blank to_string is_whitespace
is_blank-to_string j =
    ap (λ t. elim t [ [] ↦ true | _ ∷ _ ↦ false ])
      (ap (trim_end is_whitespace)
          (trim_start-keep is_whitespace b'{' (put_str (encode j) [] ++ b'}' ∷ []) refl)
        ∙ trim_end-keep is_whitespace (b'{' ∷ put_str (encode j) []) b'}' refl)

abbrev pub storage : Storage
storage = record {
  to_string = to_string;
  from_str = from_str;
  from_str-to_string = from_str-to_string;
  is_blank-to_string = is_blank-to_string;
  order = λ js. js;
  order-perm = λ js. Permᴰ.refl js;
}
