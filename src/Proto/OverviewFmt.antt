-- ===== src/Proto/OverviewFmt.antt =====
-- `OverviewField` and `OverviewFmt` of crates/nntp-proto/src/overview.rs: the fields of overview lines.
pub mod Described
pub mod Laws
use rust_nntp.Prelude.Text.{Bytes, codes, to_lower, trim}
use rust_nntp.Prelude.{
  ℕ, zero, suc, Bool, true, false, ◌&&◌, ◌||◌, Option, none, some, List, [], ◌∷◌, ◌==◌,
  if◌then◌else◌, map, get_elem?,
}
use rust_nntp.Prelude.SortedMap.{same}
use rust_nntp.Proto.Block.{DataBlock}
use rust_nntp.Proto.Capabilities.{is_alike}
use rust_nntp.Proto.List.{decode_8bit_lossy}

abbrev pub standard_fields : List Bytes
standard_fields =
    codes "Subject:"
    ∷ codes "From:"
    ∷ codes "Date:"
    ∷ codes "Message-ID:"
    ∷ codes "References:"
    ∷ codes ":bytes"
    ∷ codes ":lines"
    ∷ []

pub record OverviewField : Type 0 where
  pub name : Bytes
  pub full : Bool
  pub metadata : Bool

-- `strip_suffix`
unfoldable pub strip_suffix : Bytes → Bytes → Option Bytes
strip_suffix suffix [] = if same [] suffix then some [] else none
strip_suffix suffix (c ∷ s) =
    let shorter = strip_suffix suffix s in
    if same (c ∷ s) suffix then some [] else elim shorter [ none ↦ none | some t ↦ some (c ∷ t) ]

-- `unwrap_or(text)`
abbrev pub or_text : Bytes → Option Bytes → Bytes
or_text text none = text
or_text text (some t) = t

unfoldable pub header_field : Bytes → Option Bytes → OverviewField
header_field text (some name) = record { name = name; full = true; metadata = false }
header_field text none = record {
  name = or_text text (strip_suffix (codes ":") text);
  full = false;
  metadata = false;
}

unfoldable pub field_of : Bytes → Option OverviewField
field_of [] = none
field_of (c ∷ s) =
    if c == b':'
    then some (record { name = map to_lower s; full = false; metadata = true })
    else some (header_field (c ∷ s) (strip_suffix (codes ":full") (c ∷ s)))

-- `OverviewField::parse`
unfoldable pub parse_field : Bytes → Option OverviewField
parse_field line = field_of (trim line)

abbrev pub is_named : OverviewField → Bytes → Bool
is_named field name = is_alike field.name name

abbrev pub add_field : Option OverviewField → List OverviewField → List OverviewField
add_field none fields = fields
add_field (some field) fields = field ∷ fields

unfoldable pub parse_fields : List Bytes → List OverviewField
parse_fields [] = []
parse_fields (line ∷ lines) = add_field (parse_field line) (parse_fields lines)

unfoldable pub standard : List OverviewField
standard = parse_fields standard_fields

-- The article number is not a field.
unfoldable pub without_number : List OverviewField → List OverviewField
without_number [] = []
without_number (field ∷ fields) =
    if is_named field (codes "number") || is_named field (codes "article")
    then fields
    else field ∷ fields

unfoldable pub or_standard : List OverviewField → List OverviewField
or_standard [] = standard
or_standard (field ∷ fields) = field ∷ fields

-- `OverviewFmt::parse`
unfoldable pub parse_fmt : (Bytes → Bytes) → DataBlock → List OverviewField
parse_fmt windows_1252 block =
    or_standard (without_number (parse_fields (map (decode_8bit_lossy windows_1252) block.lines)))

abbrev pub matches_at : Option OverviewField → Bytes → Bool
matches_at none name = false
matches_at (some actual) name = is_named actual name

unfoldable pub are_prefix : ℕ → List OverviewField → List OverviewField → Bool
are_prefix index fields [] = true
are_prefix index fields (expected ∷ rest) =
    matches_at (get_elem? fields index) expected.name && are_prefix (suc index) fields rest

unfoldable pub is_standard_prefix : List OverviewField → Bool
is_standard_prefix fields = are_prefix 0 fields standard
