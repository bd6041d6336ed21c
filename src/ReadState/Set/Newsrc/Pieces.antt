-- ===== src/ReadState/Set/Newsrc/Pieces.antt =====
-- `ReadSet::parse` of crates/nntp-tui/src/readstate/set.rs over any text: the pieces that parse
-- make a valid set, whatever the others are.
use rust_nntp.Prelude.Decimal.{parse_u64, parse_u64-le}
use rust_nntp.Prelude.Text.{Bytes, trim, trim_start, trim_end, split, split_once}
use rust_nntp.Prelude.{
  ℕ, ◌≤◌, min, max, Bool, true, false, ◌⊎◌, ◌↔◌, inl, inr, sym, ap, ◌∙◌, Bool-cases, ◌&&◌, ◌||◌,
  Option, none, some, List, [], ◌∷◌, ◌≡◌, refl, arith, leb, u64_max, any,
}
use rust_nntp.ReadState.Set.{Range, empty}
use rust_nntp.ReadState.Set.Insert.{insert_range-IsValid, members-insert_range}
use rust_nntp.ReadState.Set.Newsrc.Denotes.{Denotes, parse_piece-Denotes, Denotes-parse_piece}
use rust_nntp.ReadState.Set.Newsrc.{
  both, parse_high, parse_sides, parse_piece, Parsed, keep_piece, add_piece, parse_pieces, parse,
}
use rust_nntp.ReadState.Set.Sorted.{IsValid, in_range, covers, members}

both-le :
    (a b : Option ℕ) (low high : ℕ)
    → ((n : ℕ) → a ≡ some n → n ≤ u64_max)
    → ((n : ℕ) → b ≡ some n → n ≤ u64_max)
    → both a b ≡ some (low, high)
    → (low ≤ u64_max) × (high ≤ u64_max)
both-le none b low high ha hb e = cc
both-le (some x) none low high ha hb e = cc
both-le (some x) (some y) low high ha hb e = ground (arith, ha x, hb y)

parse_high-le :
    (t u : Bytes) (low high : ℕ)
    → parse_high t u ≡ some (low, high)
    → (low ≤ u64_max) × (high ≤ u64_max)
unfolding parse_high
parse_high-le t [] low high e = cc
parse_high-le t (c ∷ s) low high e =
    both-le (parse_u64 t) (parse_u64 (c ∷ s)) low high (parse_u64-le t) (parse_u64-le (c ∷ s)) e

parse_sides-le :
    (piece : Bytes) (sides : Option (Bytes × Bytes)) (low high : ℕ)
    → parse_sides piece sides ≡ some (low, high)
    → (low ≤ u64_max) × (high ≤ u64_max)
unfolding parse_sides
parse_sides-le piece none low high e =
    both-le (parse_u64 (trim piece)) (parse_u64 (trim piece)) low high (parse_u64-le (trim piece))
      (parse_u64-le (trim piece)) e
parse_sides-le piece (some (t, u)) low high e = parse_high-le (trim t) (trim u) low high e

parse_piece-le :
    (piece : Bytes) (low high : ℕ)
    → parse_piece piece ≡ some (low, high)
    → (low ≤ u64_max) × (high ≤ u64_max)
unfolding parse_piece
parse_piece-le piece low high e = parse_sides-le piece (split_once b'-' piece) low high e

-- The numbers that `parse_piece` adds for one piece.
abbrev named : Option Range → ℕ → Bool
named none n = false
named (some (low, high)) n = leb 1 n && in_range (min low high) (max low high) n

abbrev named_piece : Bytes → ℕ → Bool
named_piece [] n = false
named_piece (c ∷ s) n = named (parse_piece (c ∷ s)) n

unfoldable piece_covers : ℕ → Bytes → Bool
piece_covers n piece = named_piece (trim piece) n

keep_piece-IsValid :
    (p : Parsed) (piece : Bytes) (o : Option Range)
    → ((low high : ℕ) → o ≡ some (low, high) → (low ≤ u64_max) × (high ≤ u64_max))
    → IsValid p.0
    → IsValid (keep_piece p piece o).0
unfolding keep_piece
keep_piece-IsValid (s, bad) piece none h v = v
keep_piece-IsValid (s, bad) piece (some (low, high)) h v =
    insert_range-IsValid s low high v (h low high refl).0 (h low high refl).1

keep_piece-members :
    (p : Parsed) (piece : Bytes) (o : Option Range) (n : ℕ)
    → ((low high : ℕ) → o ≡ some (low, high) → (low ≤ u64_max) × (high ≤ u64_max))
    → IsValid p.0
    → members (keep_piece p piece o).0 n ≡ (named o n || members p.0 n)
unfolding keep_piece
keep_piece-members (s, bad) piece none n h v = refl
keep_piece-members (s, bad) piece (some (low, high)) n h v =
    members-insert_range s low high n v (h low high refl).0 (h low high refl).1

add_piece-IsValid : (p : Parsed) (t : Bytes) → IsValid p.0 → IsValid (add_piece p t).0
unfolding add_piece
add_piece-IsValid p [] v = v
add_piece-IsValid p (c ∷ s) v =
    keep_piece-IsValid p (c ∷ s) (parse_piece (c ∷ s)) (parse_piece-le (c ∷ s)) v

add_piece-members :
    (p : Parsed) (t : Bytes) (n : ℕ)
    → IsValid p.0
    → members (add_piece p t).0 n ≡ (named_piece t n || members p.0 n)
unfolding add_piece
add_piece-members p [] n v = refl
add_piece-members p (c ∷ s) n v =
    keep_piece-members p (c ∷ s) (parse_piece (c ∷ s)) n (parse_piece-le (c ∷ s)) v

parse_pieces-IsValid :
    (p : Parsed) (pieces : List Bytes) → IsValid p.0 → IsValid (parse_pieces p pieces).0
unfolding parse_pieces
parse_pieces-IsValid p [] v = v
parse_pieces-IsValid p (t ∷ ts) v =
    parse_pieces-IsValid (add_piece p (trim t)) ts (add_piece-IsValid p (trim t) v)

parse_pieces-members :
    (p : Parsed) (pieces : List Bytes) (n : ℕ)
    → IsValid p.0
    → members (parse_pieces p pieces).0 n ≡ (any (piece_covers n) pieces || members p.0 n)
unfolding parse_pieces piece_covers
parse_pieces-members p [] n v = refl
parse_pieces-members p (t ∷ ts) n v = ground (
  arith,
  parse_pieces-members (add_piece p (trim t)) ts n (add_piece-IsValid p (trim t) v),
  add_piece-members p (trim t) n v,
)

-- The numbers from 1 on that lie between the two ends, in either order, that the text stands for.
abbrev pub Names : Bytes → ℕ → Type 0
Names text n =
    (low : ℕ) × (high : ℕ) × Denotes text low high
    × ((1 ≤ n) × (min low high ≤ n) × (n ≤ max low high))

-- One of the pieces, without the white space around it, names the number.
abbrev pub SomeNames : List Bytes → ℕ → Type 0
SomeNames [] n = ⊥
SomeNames (piece ∷ pieces) n = Names (trim piece) n ⊎ SomeNames pieces n

named-Names :
    (t : Bytes) (n : ℕ) (o : Option Range) → parse_piece t ≡ o → named o n ≡ true → Names t n
named-Names t n none e h = cc
named-Names t n (some (low, high)) e h =
    (low, high, parse_piece-Denotes t low high e, (ground arith, ground arith, ground arith))

named_piece-Names : (t : Bytes) (n : ℕ) → named_piece t n ≡ true → Names t n
named_piece-Names [] n h = cc
named_piece-Names (c ∷ s) n h = named-Names (c ∷ s) n (parse_piece (c ∷ s)) refl h

Names-named :
    (t : Bytes) (n : ℕ) (o : Option Range) → parse_piece t ≡ o → Names t n → named o n ≡ true
Names-named t n none e (low, high, d, h) = let read = Denotes-parse_piece t low high d in cc
Names-named t n (some (x, y)) e (low, high, d, h) =
    ap (λ o. named o n) (sym e ∙ Denotes-parse_piece t low high d) ∙ ground (arith, h)

parse_piece_nil : parse_piece [] ≡ none
unfolding parse_piece parse_sides parse_u64 trim trim_start trim_end split_once
parse_piece_nil = refl

Names-named_piece : (t : Bytes) (n : ℕ) → Names t n → named_piece t n ≡ true
Names-named_piece [] n h = Names-named [] n none parse_piece_nil h
Names-named_piece (c ∷ s) n h = Names-named (c ∷ s) n (parse_piece (c ∷ s)) refl h

any-SomeNames :
    (pieces : List Bytes) (n : ℕ) → any (piece_covers n) pieces ≡ true → SomeNames pieces n
unfolding piece_covers
any-SomeNames [] n h = cc
any-SomeNames (t ∷ ts) n h = elim (Bool-cases (named_piece (trim t) n)) [
  | inl at ↦ inl (named_piece-Names (trim t) n at)
  | inr past ↦ inr (any-SomeNames ts n (ground (arith, h, past)))
]

SomeNames-any :
    (pieces : List Bytes) (n : ℕ) → SomeNames pieces n → any (piece_covers n) pieces ≡ true
unfolding piece_covers
SomeNames-any [] n h = absurd h
SomeNames-any (t ∷ ts) n (inl h) = rw (Names-named_piece (trim t) n h) refl
SomeNames-any (t ∷ ts) n (inr h) = ground (arith, SomeNames-any ts n h)

members-parse_pieces :
    (text : Bytes) (n : ℕ) → members (parse text).0 n ≡ any (piece_covers n) (split b',' text)
unfolding parse covers
members-parse_pieces text n =
    ground (arith, parse_pieces-members (empty, []) (split b',' text) n tt)

-- Any text is parsed to a valid set. A number is a member of it exactly if some piece between two
-- commas names it, whatever the other pieces hold: the piece is one number, or two numbers on the
-- two sides of its first hyphen, and the number is at least 1 and lies between the two ends, in
-- either order. A piece whose number, or one of whose two numbers, is missing or not a 64-bit number
-- names nothing.
pub members-parse :
    (text : Bytes) (n : ℕ)
    → IsValid (parse text).0 × ((members (parse text).0 n ≡ true) ↔ SomeNames (split b',' text) n)
unfolding parse
members-parse text n = (
  parse_pieces-IsValid (empty, []) (split b',' text) tt,
  (
    λ h. any-SomeNames (split b',' text) n (sym (members-parse_pieces text n) ∙ h),
    λ h. members-parse_pieces text n ∙ SomeNames-any (split b',' text) n h,
  ),
)
