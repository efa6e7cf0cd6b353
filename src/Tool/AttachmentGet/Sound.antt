-- ===== src/Tool/AttachmentGet/Sound.antt =====
-- src/tool/attachment_get.rs: what an answer tells.
use nexo_plugin_email.AttachmentStore.{last_seen}
use nexo_plugin_email.Base.{
  ℕ, ◌≤◌, ◌<◌, Str, Bool, true, false, not, Option, none, some, List, [], ◌∷◌, ◌≡◌, ◌⊎◌, inl, inr,
  refl, arith, ltb, codes, any, ◌==◌, str_eq, str_is_eq, length, lookup, Bool-cases, if◌then◌else◌,
}
use nexo_plugin_email.MimeParse.Files.{has_dot}
use nexo_plugin_email.MimeParse.Intact.{IsIntact, IsWhole}
use nexo_plugin_email.MimeParse.{Files, MimeCrates}
use nexo_plugin_email.Tool.AttachmentGet.{
  TextCodec, GetArgs, Body, base64_body, text_body, GetReply, found, no_store, store_failed,
  StoreReader, query_last_seen, not_a_hash, not_present, unreadable, unsupported, too_large,
  max_response_bytes, is_ascii_hexdigit, is_hex_sha256, encoded, encoding_of, read_back,
  get_present, run_get,
}

any_mono :
    (p q : ℕ → Bool) (s : Str)
    → ((c : ℕ) → p c ≡ true → q c ≡ true)
    → any q s ≡ false
    → any p s ≡ false
unfolding any
any_mono p q [] imp h = refl
any_mono p q (c ∷ s) imp h = elim (Bool-cases (p c)) [
  | inl yes_p ↦ absurd (ground (arith, imp c yes_p))
  | inr no_p ↦ ground (arith, no_p, any_mono p q s imp (ground arith))
]

dot-is_not_hex : (c : ℕ) → (c == b'.') ≡ true → not (is_ascii_hexdigit c) ≡ true
dot-is_not_hex c h = ground arith

is_hex_sha256-has_dot : (s : Str) → is_hex_sha256 s ≡ true → has_dot s ≡ false
unfolding is_hex_sha256 has_dot
is_hex_sha256-has_dot [] h = absurd (cc)
is_hex_sha256-has_dot (c ∷ s) h =
    any_mono (λ d. d == b'.') (λ d. not (is_ascii_hexdigit d)) (c ∷ s) dot-is_not_hex (ground arith)

module _ (crates : MimeCrates) (codec : TextCodec) (store : StoreReader) (files : Files)
    (args : GetArgs) where
  -- The bytes under the name that was asked for have it as their hash.
  pub record IsFound (sha256 : Str) (size_bytes seen : ℕ) (body : Body) : Type 0 where
    bytes : List ℕ
    asked : sha256 ≡ args.sha256
    read : lookup args.sha256 files ≡ some bytes
    hashed : crates.sha256_hex bytes ≡ args.sha256
    sized : size_bytes ≡ length bytes
    fits : size_bytes ≤ max_response_bytes
    recorded : last_seen args.sha256 store.table ≡ some seen
    sent :
        (body ≡ base64_body (codec.encode bytes)) ⊎ (body ≡ text_body (codec.from_utf8_lossy bytes))

  -- What each answer tells.
  abbrev pub IsReply : GetReply → Type 0
  IsReply (found sha256 size_bytes seen body) = IsFound sha256 size_bytes seen body
  IsReply no_store = ⊥
  IsReply store_failed = store.reads args.sha256 ≡ false
  IsReply (not_a_hash s) = (s ≡ args.sha256) × (is_hex_sha256 s ≡ false)
  IsReply (not_present s) = (s ≡ args.sha256) × (last_seen s store.table ≡ none)
  IsReply (unreadable s) = (s ≡ args.sha256) × (lookup s files ≡ none)
  IsReply (unsupported e) =
      (args.encoding ≡ some e)
      × (str_eq e (codes "base64") ≡ false)
      × (str_eq e (codes "text") ≡ false)
  IsReply (too_large n) =
      (bytes : List ℕ) × (lookup args.sha256 files ≡ some bytes)
      × (n ≡ length bytes)
      × (max_response_bytes < n)

  encoding_named :
      (o : Option Str) → str_eq (encoding_of o) (codes "base64") ≡ false → o ≡ some (encoding_of o)
  unfolding encoding_of str_eq
  encoding_named none h = absurd (cc)
  encoding_named (some e) h = refl

  encoded-IsReply :
      (seen : ℕ) (bytes : List ℕ)
      → lookup args.sha256 files ≡ some bytes
      → crates.sha256_hex bytes ≡ args.sha256
      → length bytes ≤ max_response_bytes
      → last_seen args.sha256 store.table ≡ some seen
      → IsReply (encoded codec args.sha256 seen bytes (encoding_of args.encoding))
  unfolding encoded
  encoded-IsReply seen bytes read hashed fits recorded =
      elim (Bool-cases (str_eq (encoding_of args.encoding) (codes "base64"))) [
        | inl e ↦ rw e (reply (base64_body (codec.encode bytes)) (inl refl))
        | inr not_base ↦ elim (Bool-cases (str_eq (encoding_of args.encoding) (codes "text"))) [
          | inl e ↦ rw (not_base, e) (reply (text_body (codec.from_utf8_lossy bytes)) (inr refl))
          | inr not_text ↦
              rw (not_base, not_text) (encoding_named args.encoding not_base, not_base, not_text)
        ]
      ]
    where
      reply :
          (body : Body)
          → (body ≡ base64_body (codec.encode bytes))
            ⊎ (body ≡ text_body (codec.from_utf8_lossy bytes))
          → IsFound args.sha256 (length bytes) seen body
      reply body sent = record {
        bytes = bytes;
        asked = refl;
        read = read;
        hashed = hashed;
        sized = refl;
        fits = fits;
        recorded = recorded;
        sent = sent;
      }

  read_back-IsReply :
      (seen : ℕ) (o : Option (List ℕ))
      → lookup args.sha256 files ≡ o
      → IsWhole crates args.sha256 o
      → last_seen args.sha256 store.table ≡ some seen
      → IsReply (read_back codec args seen o)
  unfolding read_back
  read_back-IsReply seen none read whole recorded = (refl, read)
  read_back-IsReply seen (some bytes) read whole recorded =
      elim (Bool-cases (ltb max_response_bytes (length bytes))) [
        | inl large ↦ rw large (bytes, read, refl, ground arith)
        | inr small ↦ rw small (encoded-IsReply seen bytes read whole (ground arith) recorded)
      ]

  get_present-IsReply :
      (o : Option ℕ)
      → last_seen args.sha256 store.table ≡ o
      → IsWhole crates args.sha256 (lookup args.sha256 files)
      → IsReply (get_present codec args files (some o))
  unfolding get_present
  get_present-IsReply none recorded whole = (refl, recorded)
  get_present-IsReply (some seen) recorded whole =
      read_back-IsReply seen (lookup args.sha256 files) refl whole recorded

  query-IsReply :
      (b : Bool)
      → store.reads args.sha256 ≡ b
      → IsWhole crates args.sha256 (lookup args.sha256 files)
      → IsReply (
          get_present codec args files
            (if b then some (last_seen args.sha256 store.table) else none))
  query-IsReply true e whole = get_present-IsReply (last_seen args.sha256 store.table) refl whole
  query-IsReply false e whole = unfold get_present in e

  -- Where the directory is one in which whole files have the hash of their bytes as their names,
  -- the bytes that are returned have exactly the hash that was asked for, are recorded, and fit the
  -- bound. A refusal names the hash, and that hash is not of the accepted form, not recorded, or has
  -- no file; or it names the size of the file, which is above the bound, or an encoding that was
  -- asked for and is neither base64 nor text; or the query of the store failed.
  pub run_get_lem : IsIntact crates files → IsReply (run_get codec (some store) files args)
  unfolding run_get query_last_seen
  run_get_lem h = elim (Bool-cases (is_hex_sha256 args.sha256)) [
    | inr bad ↦ rw bad (refl, bad)
    | inl good ↦ rw good (elim (h args.sha256) [
      | inl dotted ↦ absurd (cc (is_hex_sha256-has_dot args.sha256 good, dotted))
      | inr whole ↦ query-IsReply (store.reads args.sha256) refl whole
    ])
  ]
