-- ===== src/ReadState/Set/Newsrc.antt =====
-- `ReadSet::parse`, `parse_piece` and the `Display` of crates/nntp-tui/src/readstate/set.rs: the
-- `.newsrc` range syntax. `f.pad` with no width given writes the text as it is.
pub mod Denotes
pub mod Pieces
pub mod RoundTrip
use rust_nntp.Prelude.Decimal.{to_string, parse_u64}
use rust_nntp.Prelude.Text.{Bytes, trim, split, split_once}
use rust_nntp.Prelude.{
  ℕ, ◌+◌, Bool, true, false, Option, none, some, List, [], ◌∷◌, ◌++◌, ltb, ◌==◌, if◌then◌else◌,
}
use rust_nntp.ReadState.Set.{Range, ReadSet, empty, insert_range}

-- Both ends have been parsed.
abbrev pub both : Option ℕ → Option ℕ → Option Range
both none b = none
both (some low) none = none
both (some low) (some high) = some (low, high)

-- A missing high end is refused.
unfoldable pub parse_high : Bytes → Bytes → Option Range
parse_high low [] = none
parse_high low (c ∷ s) = both (parse_u64 low) (parse_u64 (c ∷ s))

-- What is on the two sides of the first `-`, if there is one.
unfoldable pub parse_sides : Bytes → Option (Bytes × Bytes) → Option Range
parse_sides piece none = let n = parse_u64 (trim piece) in both n n
parse_sides piece (some (low, high)) = parse_high (trim low) (trim high)

unfoldable pub parse_piece : Bytes → Option Range
parse_piece piece = parse_sides piece (split_once b'-' piece)

-- What the loop has built: the set, and the pieces that did not parse.
abbrev pub Parsed : Type 0
Parsed = ReadSet × List Bytes

unfoldable pub keep_piece : Parsed → Bytes → Option Range → Parsed
keep_piece (set, malformed) piece none = (set, malformed ++ piece ∷ [])
keep_piece (set, malformed) piece (some (low, high)) = (insert_range set low high, malformed)

-- The round of the loop for one trimmed piece.
unfoldable pub add_piece : Parsed → Bytes → Parsed
add_piece p [] = p
add_piece p (c ∷ s) = keep_piece p (c ∷ s) (parse_piece (c ∷ s))

unfoldable pub parse_pieces : Parsed → List Bytes → Parsed
parse_pieces p [] = p
parse_pieces p (piece ∷ pieces) = parse_pieces (add_piece p (trim piece)) pieces

unfoldable pub parse : Bytes → Parsed
parse text = parse_pieces (empty, []) (split b',' text)

unfoldable pub print_range : Range → Bytes
print_range (low, high) =
    if low == high then to_string low else to_string low ++ b'-' ∷ to_string high

-- The loop of `fmt`, from the given index on.
unfoldable pub print_from : ℕ → List Range → Bytes
print_from index [] = []
print_from index (r ∷ rs) =
    (if ltb 0 index then b',' ∷ [] else []) ++ (print_range r ++ print_from (index + 1) rs)

unfoldable pub print : ReadSet → Bytes
print s = print_from 0 s.ranges
