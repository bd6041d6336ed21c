-- ===== src/Proto/Names.antt =====
-- The validated texts of the protocol: `MessageId` of crates/nntp-proto/src/message_id.rs,
-- `GroupName` of group.rs, `HeaderName` of headers.rs and `Wildmat` of command.rs. A `str` is the
-- list of its code points, and its `len` that of its UTF-8.
pub mod Encodable
pub mod Listed
use rust_nntp.Prelude.Text.{Bytes, codes, is_whitespace, is_control, is_ascii_graphic, trim, split}
use rust_nntp.Prelude.{
  ℕ, Bool, true, false, not, ◌&&◌, ◌||◌, Option, none, some, List, [], ◌∷◌, ◌++◌, ltb, ◌==◌,
  if◌then◌else◌, length, all, any, map,
}
use rust_nntp.Proto.Error.{
  Result, ok, err, ◌>>=◌, invalid_message_id, invalid_group_name, invalid_header_name,
  invalid_wildmat,
}
use rust_nntp.Proto.Utf8.{utf8}

abbrev pub max_message_id_len : ℕ
max_message_id_len = 250

-- `value.is_empty()`
unfoldable pub is_empty : Bytes → Bool
is_empty [] = true
is_empty (c ∷ s) = false

-- `strip_suffix` of one character
unfoldable pub strip_last : ℕ → Bytes → Option Bytes
strip_last b [] = none
strip_last b (c ∷ []) = if c == b then some [] else none
strip_last b (c ∷ d ∷ s) = elim (strip_last b (d ∷ s)) [ none ↦ none | some t ↦ some (c ∷ t) ]

-- `strip_prefix` of one character
unfoldable pub strip_first : ℕ → Bytes → Option Bytes
strip_first b [] = none
strip_first b (c ∷ s) = if c == b then some s else none

-- What stands between `<` and `>`.
unfoldable pub inside : Bytes → Option Bytes
inside s = elim (strip_first b'<' s) [ none ↦ none | some rest ↦ strip_last b'>' rest ]

unfoldable pub is_id_illegal : ℕ → Bool
is_id_illegal c = is_whitespace c || is_control c || c == b'<' || c == b'>'

unfoldable pub check_inner : Bytes → Option Bytes → Result Bytes
check_inner trimmed none = err (invalid_message_id trimmed)
check_inner trimmed (some inner) =
    if is_empty inner
    then err (invalid_message_id trimmed)
    else if any is_id_illegal inner
    then err (invalid_message_id trimmed)
    else ok trimmed

-- `MessageId::parse`; the value that it wraps.
unfoldable pub parse_message_id : Bytes → Result Bytes
parse_message_id value =
    let trimmed = trim value in
    if ltb max_message_id_len (length (utf8 trimmed))
    then err (invalid_message_id trimmed)
    else check_inner trimmed (inside trimmed)

-- `MessageId::inner`
unfoldable pub inner : Bytes → Bytes
inner id = elim (inside id) [ none ↦ id | some text ↦ text ]

abbrev pub keep_id : Option Bytes → List Bytes → List Bytes
keep_id none out = out
keep_id (some candidate) out = elim (parse_message_id candidate) [ ok id ↦ id ∷ out | err e ↦ out ]

-- The loop of `MessageId::parse_list`; the state is the candidate that a `<` has opened.
unfoldable pub scan_ids : Option Bytes → Bytes → List Bytes
scan_ids candidate [] = []
scan_ids none (c ∷ rest) = scan_ids (if c == b'<' then some (c ∷ []) else none) rest
scan_ids (some candidate) (c ∷ rest) =
    let longer = candidate ++ c ∷ [] in
    keep_id (if c == b'>' then some longer else none)
      (scan_ids (if c == b'>' then none else some longer) rest)

-- `MessageId::parse_list`
unfoldable pub parse_list : Bytes → List Bytes
parse_list value = scan_ids none value

abbrev pub max_group_name_len : ℕ
max_group_name_len = 480

unfoldable pub is_group_name_octet : ℕ → Bool
is_group_name_octet b =
    is_ascii_graphic b && not (b == b'*' || b == b'?' || b == b',' || b == b'!' || b == b'\\')

-- `GroupName::parse`
unfoldable pub parse_group_name : Bytes → Result Bytes
parse_group_name value =
    if is_empty value || ltb max_group_name_len (length (utf8 value))
    then err (invalid_group_name value)
    else if not (all is_group_name_octet (utf8 value))
    then err (invalid_group_name value)
    else ok value

-- `GroupName::components`
unfoldable pub components : Bytes → List Bytes
components name = split b'.' name

-- `GroupName::hierarchy`
unfoldable pub group_hierarchy : Bytes → Bytes
group_hierarchy name = elim (components name) [ [] ↦ name | first ∷ rest ↦ first ]

-- `HeaderName::parse`
unfoldable pub parse_header_name : Bytes → Result Bytes
parse_header_name value =
    if is_empty value || not (all (λ b. is_ascii_graphic b && not (b == b':')) (utf8 value))
    then err (invalid_header_name value)
    else ok value

-- `Wildmat::MAX_LEN`
abbrev pub max_wildmat_len : ℕ
max_wildmat_len = 400

-- `Wildmat::parse`
unfoldable pub parse_wildmat : Bytes → Result Bytes
parse_wildmat pattern =
    if is_empty pattern
      || ltb max_wildmat_len (length (utf8 pattern))
      || not (all is_ascii_graphic (utf8 pattern))
    then err (invalid_wildmat pattern)
    else ok pattern

-- `Wildmat::hierarchy`
unfoldable pub hierarchy : Bytes → Result Bytes
hierarchy prefix = parse_wildmat (prefix ++ codes ".*")

-- `Wildmat::containing`
unfoldable pub containing : Bytes → Result Bytes
containing text = parse_wildmat (b'*' ∷ (text ++ codes "*"))

unfoldable pub join_commas : List Bytes → Bytes
join_commas [] = []
join_commas (p ∷ []) = p
join_commas (p ∷ q ∷ ps) = p ++ (b',' ∷ join_commas (q ∷ ps))

-- `Wildmat::join`
unfoldable pub join : List Bytes → Result (Option Bytes)
join [] = ok none
join (p ∷ ps) = do w ← parse_wildmat (join_commas (p ∷ ps)); ok (some w)
