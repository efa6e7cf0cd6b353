-- ===== src/Tool/AttachmentGet.antt =====
-- src/tool/attachment_get.rs: an attachment by its hash. base64 and `from_utf8_lossy` are
-- parameters; the files are those of the directory that the plugin resolves.
pub mod Sound
use nexo_plugin_email.AttachmentStore.{AttachmentTable, last_seen}
use nexo_plugin_email.Base.{
  ℕ, ◌*◌, Str, Bool, true, false, not, ◌&&◌, ◌||◌, Option, none, some, List, [], ◌∷◌, ltb, leb,
  if◌then◌else◌, codes, any, str_eq, str_is_eq, byte_len, length, lookup,
}
use nexo_plugin_email.MimeParse.{Files}

pub record TextCodec : Type 0 where
  pub encode : List ℕ → Str
  pub from_utf8_lossy : List ℕ → Str

pub record GetArgs : Type 0 where
  pub sha256 : Str
  pub encoding : Option Str

pub data Body : Type 0 where
  base64_body text_body : Str → Body

pub data GetReply : Type 0 where
  found : (sha256 : Str) (size_bytes last_seen : ℕ) (body : Body) → GetReply
  no_store store_failed : GetReply
  not_a_hash not_present unreadable unsupported : Str → GetReply
  too_large : ℕ → GetReply

abbrev pub max_response_bytes : ℕ
max_response_bytes = 5 * 1024 * 1024

abbrev pub is_ascii_hexdigit : ℕ → Bool
is_ascii_hexdigit c =
    (leb b'0' c && leb c b'9') || (leb b'a' c && leb c b'f') || (leb b'A' c && leb c b'F')

unfoldable pub is_hex_sha256 : Str → Bool
unfolding any byte_len
is_hex_sha256 [] = false
is_hex_sha256 (c ∷ s) =
    leb (byte_len (c ∷ s)) 128 && not (any (λ d. not (is_ascii_hexdigit d)) (c ∷ s))

-- what is left of `run_inner` once the bytes are read
unfoldable pub encoded : TextCodec → Str → ℕ → List ℕ → Str → GetReply
unfolding str_eq
encoded codec sha256 seen bytes encoding =
    if str_eq encoding (codes "base64")
    then found sha256 (length bytes) seen (base64_body (codec.encode bytes))
    else if str_eq encoding (codes "text")
    then found sha256 (length bytes) seen (text_body (codec.from_utf8_lossy bytes))
    else unsupported encoding

unfoldable pub encoding_of : Option Str → Str
encoding_of none = codes "base64"
encoding_of (some e) = e

unfoldable pub read_back : TextCodec → GetArgs → ℕ → Option (List ℕ) → GetReply
unfolding encoded encoding_of
read_back codec args seen none = unreadable args.sha256
read_back codec args seen (some bytes) =
    if ltb max_response_bytes (length bytes)
    then too_large (length bytes)
    else encoded codec args.sha256 seen bytes (encoding_of args.encoding)

-- from the answer of `store.last_seen` on, where `none` is an SQL error
unfoldable pub get_present : TextCodec → GetArgs → Files → Option (Option ℕ) → GetReply
unfolding read_back lookup
get_present codec args files none = store_failed
get_present codec args files (some none) = not_present args.sha256
get_present codec args files (some (some seen)) =
    read_back codec args seen (lookup args.sha256 files)

-- The store, and whether the query of a hash succeeds.
pub record StoreReader : Type 0 where
  pub table : AttachmentTable
  pub reads : Str → Bool

unfoldable pub query_last_seen : StoreReader → Str → Option (Option ℕ)
unfolding last_seen
query_last_seen store sha256 =
    if store.reads sha256 then some (last_seen sha256 store.table) else none

unfoldable pub run_get : TextCodec → Option StoreReader → Files → GetArgs → GetReply
unfolding is_hex_sha256 get_present query_last_seen
run_get codec none files args = no_store
run_get codec (some store) files args =
    if not (is_hex_sha256 args.sha256)
    then not_a_hash args.sha256
    else get_present codec args files (query_last_seen store args.sha256)
