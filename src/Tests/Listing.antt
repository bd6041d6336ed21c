-- ===== src/Tests/Listing.antt =====
-- Runs and instances for crates/nntp-proto/src/list.rs and capabilities.rs.
use rust_nntp.Proto.Utf8.{encode_char}
use rust_nntp.Proto.Names.{is_empty}
use rust_nntp.Prelude.SortedMap.{same}
use rust_nntp.Prelude.Text.{Bytes, codes, is_ascii_graphic, is_whitespace, to_lower}
use rust_nntp.Prelude.{ℕ, ◌++◌, [], ◌∷◌, ◌≡◌, ◌≢◌, refl, arith, map, All}
use rust_nntp.Proto.Capabilities.Laws.{capability_line, parse-capability_line}
use rust_nntp.Proto.Capabilities.{parse}
use rust_nntp.Proto.Error.{ok, err, missing_field}
use rust_nntp.Proto.Group.Reply.{IsWord}
use rust_nntp.Proto.Group.{parse_posting}
use rust_nntp.Proto.List.Laws.{active_text, parse_active-active_text, parse_block-bad}
use rust_nntp.Proto.List.{active_fields, decode_8bit_lossy, parse_active, parse_block, next_field}
use rust_nntp.Proto.Names.{parse_group_name, is_group_name_octet}
use rust_nntp.Proto.OverviewFmt.Described.{
  Described, header, item, IsPrintable, described, prescribed, expected,
}
use rust_nntp.Proto.OverviewFmt.Laws.{wire, parse_fmt-print_field}
use rust_nntp.Proto.OverviewFmt.{parse_fmt, is_standard_prefix}
use rust_nntp.Prelude.{true, false, List, all, ltb}
use rust_nntp.Proto.Response.{is_ascii_whitespace, words_onto, nth}
use rust_nntp.Proto.Utf8.Lossy.{IsChar, lossy, decode, next, start}
use rust_nntp.Proto.Utf8.{utf8}

-- A decoder that keeps the octets.
abbrev as_latin : Bytes → Bytes
as_latin bytes = bytes

solid : (c : ℕ) (s : Bytes) → c ∷ s ≢ []
solid c s e = absurd (ground (arith, e))

y-IsWord : IsWord (codes "y")
unfolding is_ascii_whitespace
y-IsWord = (solid b'y' [], (refl, tt))

a-IsChar : All IsChar (codes "a")
a-IsChar = ((refl, omega arith), tt)

y-IsChar : All IsChar (codes "y")
y-IsChar = ((refl, omega arith), tt)

a_accepted : parse_group_name (codes "a") ≡ ok (codes "a")
unfolding parse_group_name is_group_name_octet is_empty utf8 encode_char is_ascii_graphic
a_accepted = refl

parse_active-active_text_example :
    parse_active as_latin (utf8 (active_text (codes "a") 20 3 (codes "y")))
    ≡ ok (record { name = codes "a"; high = 20; low = 3; status = parse_posting (codes "y") })
parse_active-active_text_example =
    parse_active-active_text as_latin (codes "a") (codes "a") 20 3 (codes "y") a_accepted a-IsChar
      (omega arith) (omega arith) y-IsWord y-IsChar

short_line :
    parse_active as_latin (codes "a")
    ≡ err (missing_field (codes "LIST ACTIVE line") (codes "high"))
unfolding parse_active active_fields next_field nth words_onto decode_8bit_lossy same utf8 lossy
    decode next start encode_char is_ascii_whitespace parse_group_name is_empty is_group_name_octet
    is_ascii_graphic
short_line = refl

parse_block-bad_example :
    ((parse_block as_latin
        (parse_active as_latin)
        (record { lines = (codes "b 2 1 y" ∷ []) ++ codes "a" ∷ codes "c 4 1 n" ∷ [] })).entries
      ≡ (parse_block as_latin
          (parse_active as_latin)
          (record { lines = (codes "b 2 1 y" ∷ []) ++ codes "c 4 1 n" ∷ [] })).entries)
    × ((parse_block as_latin
          (parse_active as_latin)
          (record { lines = (codes "b 2 1 y" ∷ []) ++ codes "a" ∷ codes "c 4 1 n" ∷ [] })).skipped
        ≡ (parse_block as_latin
            (parse_active as_latin)
            (record { lines = codes "b 2 1 y" ∷ [] })).skipped
          ++ decode_8bit_lossy as_latin (codes "a")
            ∷ (parse_block as_latin
                (parse_active as_latin)
                (record { lines = codes "c 4 1 n" ∷ [] })).skipped)
parse_block-bad_example =
    parse_block-bad as_latin (parse_active as_latin) (codes "b 2 1 y" ∷ []) (codes "c 4 1 n" ∷ [])
      b'a' [] (missing_field (codes "LIST ACTIVE line") (codes "high")) short_line

parse-capability_line_example :
    parse as_latin (record {
      lines = map capability_line (record { label = codes "y"; args = codes "y" ∷ [] } ∷ []);
    })
    ≡ record { label = codes "y"; args = codes "y" ∷ [] } ∷ []
parse-capability_line_example =
    parse-capability_line as_latin (record { label = codes "y"; args = codes "y" ∷ [] } ∷ [])
      (((y-IsWord, y-IsChar), ((y-IsWord, y-IsChar), tt)), tt)

ascii-IsChar : (s : Bytes) → all (λ c. ltb c 0x80) s ≡ true → All IsChar s
ascii-IsChar [] e = tt
ascii-IsChar (c ∷ s) e =
    ((ground (arith, e), ground (arith, e)), ascii-IsChar s (ground (arith, e)))

-- Subject:, Xref:full and :Lines
abbrev layout : List Described
layout = header (codes "Subject") false ∷ header (codes "Xref") true ∷ item (codes "Lines") ∷ []

layout-IsPrintable : All IsPrintable layout
unfolding is_whitespace
layout-IsPrintable = (
  (
    ascii-IsChar (codes "Subject") refl,
    (refl, (refl, (refl, (refl, (refl, (refl, (refl, tt))))))),
    refl,
  ),
  (
    (ascii-IsChar (codes "Xref") refl, (refl, (refl, (refl, (refl, tt)))), refl),
    ((ascii-IsChar (codes "Lines") refl, (refl, (refl, (refl, (refl, (refl, tt))))), tt), tt),
  ),
)

no_number : map to_lower (codes "Subject") ≢ codes "number"
unfolding to_lower
no_number e = absurd (ground (arith, e))

no_article : map to_lower (codes "Subject") ≢ codes "article"
unfolding to_lower
no_article e = absurd (ground (arith, e))

parse_fmt-print_field_example :
    (parse_fmt as_latin (record { lines = wire layout }) ≡ expected layout)
    × (parse_fmt as_latin (record { lines = wire (item (codes "number") ∷ layout) })
        ≡ expected layout)
    × (is_standard_prefix (prescribed ++ map described layout) ≡ true)
parse_fmt-print_field_example =
    parse_fmt-print_field as_latin layout layout-IsPrintable (no_number, no_article)

layout_run :
    parse_fmt as_latin (record { lines = wire layout })
    ≡ record { name = codes "Subject"; full = false; metadata = false }
      ∷ record { name = codes "Xref"; full = true; metadata = false }
      ∷ record { name = codes "lines"; full = false; metadata = true }
      ∷ []
unfolding expected described to_lower
layout_run = (parse_fmt-print_field as_latin layout layout-IsPrintable (no_number, no_article)).0
