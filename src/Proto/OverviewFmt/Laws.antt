-- ===== src/Proto/OverviewFmt/Laws.antt =====
-- What crates/nntp-proto/src/overview.rs reads of a LIST OVERVIEW.FMT.
use rust_nntp.Prelude.SortedMap.Order.{same-eq}
use rust_nntp.Prelude.SortedMap.{same}
use rust_nntp.Prelude.Text.{Bytes, codes, is_whitespace, to_lower, trim, trim_start, trim_end}
use rust_nntp.Prelude.{
  ℕ, true, false, ◌≢◌, List, [], ◌∷◌, ◌++◌, ◌≡◌, refl, ap, ◌∙◌, arith, inl, inr, Bool-cases, All,
  map,
}
use rust_nntp.Proto.List.Laws.{decode_8bit_lossy-utf8}
use rust_nntp.Proto.List.{decode_8bit_lossy}
use rust_nntp.Proto.OverviewFmt.{
  OverviewField, strip_suffix, header_field, field_of, parse_field, parse_fields, standard,
  without_number, or_standard, parse_fmt, are_prefix, is_standard_prefix,
}
use rust_nntp.Proto.Utf8.Lossy.{IsChar}
use rust_nntp.Proto.Utf8.{utf8}
use rust_nntp.Proto.OverviewFmt.Described.{
  Described, header, item, name_of, print_field, described, IsPrintable, IsUnnumbered, prescribed,
  expected, print_field-All, parse_fields-print_field,
}

-- The lines as octets.
abbrev pub wire : List Described → List Bytes
wire ds = map (λ d. utf8 (print_field d)) ds

decoded-wire :
    (windows_1252 : Bytes → Bytes) (ds : List Described)
    → All IsPrintable ds
    → map (decode_8bit_lossy windows_1252) (wire ds) ≡ map print_field ds
decoded-wire windows_1252 [] h = refl
decoded-wire windows_1252 (d ∷ ds) ((chars, _, _), h) =
    let colon : IsChar b':' = (refl, omega arith) in
    rw
      (
        decode_8bit_lossy-utf8 windows_1252 (print_field d) (
            print_field-All IsChar d colon
              (
                (refl, omega arith),
                ((refl, omega arith), ((refl, omega arith), ((refl, omega arith), tt))),
              )
              chars),
        decoded-wire windows_1252 ds h,
      )
      refl

standard_lem : standard ≡ prescribed
unfolding standard prescribed parse_fields parse_field field_of header_field strip_suffix same trim
    trim_start trim_end is_whitespace to_lower
standard_lem = refl

differs : (s t : Bytes) → s ≢ t → same s t ≡ false
differs s t h = elim (Bool-cases (same s t)) [
  | inl at ↦ absurd (h (same-eq s t at))
  | inr past ↦ past
]

to_lower_idem : (c : ℕ) → to_lower (to_lower c) ≡ to_lower c
unfolding to_lower
to_lower_idem c = ground arith

map-to_lower : (s : Bytes) → map to_lower (map to_lower s) ≡ map to_lower s
map-to_lower [] = refl
map-to_lower (c ∷ s) = rw (to_lower_idem c, map-to_lower s) refl

lowered : (d : Described) → map to_lower (described d).name ≡ map to_lower (name_of d)
unfolding described
lowered (header name full) = refl
lowered (item name) = map-to_lower name

-- A list without the article number in front.
unnumbered :
    (ds : List Described)
    → IsUnnumbered ds
    → or_standard (without_number (map described ds)) ≡ expected ds
unfolding or_standard without_number expected to_lower
unnumbered [] h = standard_lem
unnumbered (d ∷ ds) (number, article) =
    let no_number = differs (map to_lower (name_of d)) (codes "number") number in
    let no_article = differs (map to_lower (name_of d)) (codes "article") article in
    rw (lowered d, no_number, no_article) refl

numbered :
    (ds : List Described)
    → or_standard (without_number (described (item (codes "number")) ∷ map described ds))
      ≡ expected ds
unfolding or_standard without_number expected described same to_lower
numbered [] = standard_lem
numbered (d ∷ ds) = refl

number-IsPrintable : IsPrintable (item (codes "number"))
unfolding is_whitespace
number-IsPrintable = (
  (
    (refl, omega arith),
    (
      (refl, omega arith),
      (
        (refl, omega arith),
        ((refl, omega arith), ((refl, omega arith), ((refl, omega arith), tt))),
      ),
    ),
  ),
  (refl, (refl, (refl, (refl, (refl, (refl, tt)))))),
  tt,
)

read_wire :
    (windows_1252 : Bytes → Bytes) (ds : List Described)
    → All IsPrintable ds
    → parse_fields (map (decode_8bit_lossy windows_1252) (wire ds)) ≡ map described ds
read_wire windows_1252 ds h =
    ap parse_fields (decoded-wire windows_1252 ds h) ∙ parse_fields-print_field ds h

prefix_there : (fields : List OverviewField) → is_standard_prefix (prescribed ++ fields) ≡ true
unfolding standard prescribed parse_fields parse_field field_of header_field strip_suffix same trim
    trim_start trim_end is_whitespace to_lower is_standard_prefix are_prefix
prefix_there fields = refl

-- If the names of the fields that a server describes are text without white space, those of the
-- headers are not empty and do not start with a colon, and the first field is not the article number,
-- then the lines that describe them are read as these fields: a header keeps the case of its name
-- and has its `full` flag, an item that is not a header has a name in lower case and is marked as
-- metadata. With a line for the article number in front, which is dropped, they are read in the same
-- way. No lines, or none but that one, are read as the seven fields that RFC 3977 prescribes, and
-- these, with any fields behind them, count as a list with the standard fields in front.
pub parse_fmt-print_field :
    (windows_1252 : Bytes → Bytes) (ds : List Described)
    → All IsPrintable ds
    → IsUnnumbered ds
    → (parse_fmt windows_1252 (record { lines = wire ds }) ≡ expected ds)
      × (parse_fmt windows_1252 (record { lines = wire (item (codes "number") ∷ ds) })
          ≡ expected ds)
      × (is_standard_prefix (prescribed ++ map described ds) ≡ true)
unfolding parse_fmt
parse_fmt-print_field windows_1252 ds h first = (
  ap (λ fs. or_standard (without_number fs)) (read_wire windows_1252 ds h) ∙ unnumbered ds first,
  ap (λ fs. or_standard (without_number fs))
        (read_wire windows_1252 (item (codes "number") ∷ ds) (number-IsPrintable, h))
      ∙ numbered ds,
  prefix_there (map described ds),
)
