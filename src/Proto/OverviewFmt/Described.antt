-- ===== src/Proto/OverviewFmt/Described.antt =====
-- The fields of crates/nntp-proto/src/overview.rs as a server means them, the lines that describe
-- them, and what one such line is read as.
use rust_nntp.Prelude.SortedMap.Order.{same_refl, same-eq}
use rust_nntp.Prelude.SortedMap.{same}
use rust_nntp.Prelude.Text.Laws.{IsSolid, trim-IsSolid}
use rust_nntp.Prelude.Text.{Bytes, codes, is_whitespace, to_lower}
use rust_nntp.Prelude.{
  ℕ, Bool, true, false, ◌==◌, ◌≢◌, none, some, List, [], ◌∷◌, ◌++◌, ◌≡◌, refl, ap, ◌∙◌, arith, inl,
  inr, Bool-cases, All, All-append, map, length, length-append,
}
use rust_nntp.Proto.OverviewFmt.{
  OverviewField, strip_suffix, header_field, field_of, parse_field, parse_fields,
}
use rust_nntp.Proto.Utf8.Lossy.{IsChar}

-- A field as a server means it: a header, of which it sends the value or the whole line, or an item
-- that is not a header.
pub data Described : Type 0 where
  header : Bytes → Bool → Described
  item : Bytes → Described

abbrev pub name_of : Described → Bytes
name_of (header name full) = name
name_of (item name) = name

-- The line that RFC 3977 prescribes for it.
unfoldable pub print_field : Described → Bytes
print_field (header name true) = name ++ codes ":full"
print_field (header name false) = name ++ codes ":"
print_field (item name) = b':' ∷ name

-- The field that it is: the name of a header keeps its case, that of an item does not.
unfoldable pub described : Described → OverviewField
described (header name full) = record { name = name; full = full; metadata = false }
described (item name) = record { name = map to_lower name; full = false; metadata = true }

-- A header has a name, which does not start with a colon.
abbrev pub StartsPlain : Described → Type 0
StartsPlain (header [] full) = ⊥
StartsPlain (header (c ∷ s) full) = (c == b':') ≡ false
StartsPlain (item name) = Unit

-- The name is text without white space.
abbrev pub IsPrintable : Described → Type 0
IsPrintable d = All IsChar (name_of d) × All IsSolid (name_of d) × StartsPlain d

-- The name of the first field is not one that stands for the article number.
abbrev pub IsUnnumbered : List Described → Type 0
IsUnnumbered [] = Unit
IsUnnumbered (d ∷ ds) =
    (map to_lower (name_of d) ≢ codes "number") × (map to_lower (name_of d) ≢ codes "article")

-- The fields that RFC 3977 prescribes.
unfoldable pub prescribed : List OverviewField
prescribed =
    record { name = codes "Subject"; full = false; metadata = false }
    ∷ record { name = codes "From"; full = false; metadata = false }
    ∷ record { name = codes "Date"; full = false; metadata = false }
    ∷ record { name = codes "Message-ID"; full = false; metadata = false }
    ∷ record { name = codes "References"; full = false; metadata = false }
    ∷ record { name = codes "bytes"; full = false; metadata = true }
    ∷ record { name = codes "lines"; full = false; metadata = true }
    ∷ []

-- What is to be read: the described fields, or the prescribed ones if there are none.
unfoldable pub expected : List Described → List OverviewField
expected [] = prescribed
expected (d ∷ ds) = map described (d ∷ ds)

same-longer : (s : Bytes) (c : ℕ) → same (s ++ c ∷ []) [] ≡ false
unfolding same
same-longer [] c = refl
same-longer (d ∷ s) c = refl

same-colon : (s : Bytes) → same (s ++ codes ":") (codes ":full") ≡ false
unfolding same
same-colon [] = refl
same-colon (a ∷ []) = ground arith
same-colon (a ∷ b ∷ []) = ground arith
same-colon (a ∷ b ∷ c ∷ []) = ground arith
same-colon (a ∷ b ∷ c ∷ d ∷ []) = ground arith
same-colon (a ∷ b ∷ c ∷ d ∷ e ∷ s) = ground (arith, same-longer s b':')

strip_suffix-colon : (s : Bytes) → strip_suffix (codes ":full") (s ++ codes ":") ≡ none
unfolding strip_suffix
strip_suffix-colon [] = unfold same in refl
strip_suffix-colon (c ∷ s) = rw (same-colon (c ∷ s), strip_suffix-colon s) refl

longer-differs : (c : ℕ) (s suffix : Bytes) → same (c ∷ (s ++ suffix)) suffix ≡ false
longer-differs c s suffix = elim (Bool-cases (same (c ∷ (s ++ suffix)) suffix)) [
  | inl at ↦
      let lengths : length (c ∷ (s ++ suffix)) ≡ length suffix =
        ap length (same-eq (c ∷ (s ++ suffix)) suffix at) in
      absurd (omega (arith, lengths, length-append s suffix))
  | inr past ↦ past
]

strip_suffix-append :
    (c : ℕ) (s suffix : Bytes) → strip_suffix (c ∷ suffix) (s ++ c ∷ suffix) ≡ some s
unfolding strip_suffix
strip_suffix-append c [] suffix = rw (same_refl (c ∷ suffix)) refl
strip_suffix-append c (d ∷ s) suffix =
    rw (longer-differs d s (c ∷ suffix), strip_suffix-append c s suffix) refl

field_of-print_field :
    (d : Described) → StartsPlain d → field_of (print_field d) ≡ some (described d)
unfolding field_of print_field described header_field
field_of-print_field (header [] full) h = absurd h
field_of-print_field (header (c ∷ s) true) h =
    rw (h, strip_suffix-append b':' (c ∷ s) (codes "full")) refl
field_of-print_field (header (c ∷ s) false) h =
    rw (h, strip_suffix-colon (c ∷ s), strip_suffix-append b':' (c ∷ s) []) refl
field_of-print_field (item name) h = refl

pub print_field-All :
    (P : ℕ → Type 0) (d : Described)
    → P b':'
    → All P (codes "full")
    → All P (name_of d)
    → All P (print_field d)
unfolding print_field
print_field-All P (header name true) colon full h =
    All-append P name (codes ":full") h (colon, full)
print_field-All P (header name false) colon full h = All-append P name (codes ":") h (colon, tt)
print_field-All P (item name) colon full h = (colon, h)

parse_field-print_field :
    (d : Described) → IsPrintable d → parse_field (print_field d) ≡ some (described d)
unfolding parse_field is_whitespace
parse_field-print_field d (chars, solid, plain) =
    ap field_of (
      trim-IsSolid (print_field d)
        (print_field-All IsSolid d refl (refl, (refl, (refl, (refl, tt)))) solid))
    ∙ field_of-print_field d plain

pub parse_fields-print_field :
    (ds : List Described)
    → All IsPrintable ds
    → parse_fields (map print_field ds) ≡ map described ds
unfolding parse_fields
parse_fields-print_field [] h = refl
parse_fields-print_field (d ∷ ds) (hd, h) =
    rw (parse_field-print_field d hd, parse_fields-print_field ds h) refl
