-- ===== src/Proto/Capabilities.antt =====
-- crates/nntp-proto/src/capabilities.rs: the reply to CAPABILITIES.
pub mod Laws
use rust_nntp.Prelude.Decimal.{parse_u64}
use rust_nntp.Prelude.SortedMap.{same}
use rust_nntp.Prelude.Text.{Bytes, codes, to_lower}
use rust_nntp.Prelude.{
  ℕ, ◌^◌, Bool, true, false, not, ◌&&◌, Option, none, some, List, [], ◌∷◌, ltb, if◌then◌else◌, any,
  map,
}
use rust_nntp.Proto.Block.{DataBlock}
use rust_nntp.Proto.List.{decode_8bit_lossy, join_words}
use rust_nntp.Proto.Response.{words_onto}

pub record Capability : Type 0 where
  pub label : Bytes
  pub args : List Bytes

abbrev pub Capabilities : Type 0
Capabilities = List Capability

-- `eq_ignore_ascii_case`
abbrev pub is_alike : Bytes → Bytes → Bool
is_alike s t = same (map to_lower s) (map to_lower t)

-- The capability of a line, if it has a word.
unfoldable pub add_line : List Bytes → Capabilities → Capabilities
add_line [] rest = rest
add_line (label ∷ args) rest = record { label = label; args = args } ∷ rest

unfoldable pub parse_lines : (Bytes → Bytes) → List Bytes → Capabilities
parse_lines windows_1252 [] = []
parse_lines windows_1252 (line ∷ lines) =
    add_line (words_onto [] (decode_8bit_lossy windows_1252 line)) (parse_lines windows_1252 lines)

unfoldable pub parse : (Bytes → Bytes) → DataBlock → Capabilities
parse windows_1252 block = parse_lines windows_1252 block.lines

unfoldable pub get : Bytes → Capabilities → Option Capability
get label [] = none
get label (entry ∷ entries) = if is_alike entry.label label then some entry else get label entries

abbrev pub is_there : Option Capability → Bool
is_there none = false
is_there (some entry) = true

unfoldable pub supports : Bytes → Capabilities → Bool
supports label entries = is_there (get label entries)

abbrev pub args_of : Option Capability → List Bytes
args_of none = []
args_of (some entry) = entry.args

unfoldable pub capability_args : Bytes → Capabilities → List Bytes
capability_args label entries = args_of (get label entries)

unfoldable pub has_arg : Bytes → Bytes → Capabilities → Bool
has_arg label arg entries =
    any (λ candidate. is_alike candidate arg) (capability_args label entries)

unfoldable pub has_reader : Capabilities → Bool
has_reader entries = supports (codes "READER") entries

unfoldable pub needs_mode_reader : Capabilities → Bool
needs_mode_reader entries = supports (codes "MODE-READER") entries && not (has_reader entries)

unfoldable pub has_over : Capabilities → Bool
has_over entries = supports (codes "OVER") entries

unfoldable pub over_accepts_message_id : Capabilities → Bool
over_accepts_message_id entries = has_arg (codes "OVER") (codes "MSGID") entries

unfoldable pub has_starttls : Capabilities → Bool
has_starttls entries = supports (codes "STARTTLS") entries

abbrev pub offers_user : Option Capability → Bool
offers_user none = false
offers_user (some entry) = elim entry.args [
  | [] ↦ true
  | arg ∷ args ↦ any (λ a. is_alike a (codes "USER")) (arg ∷ args)
]

unfoldable pub has_authinfo_user : Capabilities → Bool
has_authinfo_user entries = offers_user (get (codes "AUTHINFO") entries)

abbrev pub joined_args : Option Capability → Option Bytes
joined_args none = none
joined_args (some entry) = some (join_words entry.args)

unfoldable pub implementation : Capabilities → Option Bytes
implementation entries = joined_args (get (codes "IMPLEMENTATION") entries)

-- `parse::<u32>`
unfoldable pub parse_u32 : Bytes → Option ℕ
parse_u32 raw = elim (parse_u64 raw) [
  | none ↦ none
  | some n ↦ if ltb n (2 ^ 32) then some n else none
]

unfoldable pub add_version : Option ℕ → List ℕ → List ℕ
add_version none versions = versions
add_version (some n) versions = n ∷ versions

unfoldable pub versions_of : List Bytes → List ℕ
versions_of [] = []
versions_of (arg ∷ args) = add_version (parse_u32 arg) (versions_of args)

unfoldable pub versions : Capabilities → List ℕ
versions entries = versions_of (capability_args (codes "VERSION") entries)

unfoldable pub has_post : Capabilities → Bool
has_post entries = supports (codes "POST") entries

unfoldable pub has_hdr : Capabilities → Bool
has_hdr entries = supports (codes "HDR") entries

unfoldable pub has_newnews : Capabilities → Bool
has_newnews entries = supports (codes "NEWNEWS") entries

unfoldable pub sasl_mechanisms : Capabilities → List Bytes
sasl_mechanisms entries = capability_args (codes "SASL") entries

unfoldable pub has_compress_deflate : Capabilities → Bool
has_compress_deflate entries = has_arg (codes "COMPRESS") (codes "DEFLATE") entries

unfoldable pub list_keywords : Capabilities → List Bytes
list_keywords entries = capability_args (codes "LIST") entries

unfoldable pub has_list_keyword : Bytes → Capabilities → Bool
has_list_keyword keyword entries = has_arg (codes "LIST") keyword entries
