-- ===== src/Tests/ReadSet.antt =====
-- Runs and instances for crates/nntp-tui/src/readstate/set.rs.
use rust_nntp.Prelude.Decimal.{to_string, emit}
use rust_nntp.Prelude.Text.{codes, split}
use rust_nntp.Prelude.{
  ◌+◌, ◌-◌, not, ◌&&◌, ◌||◌, [], ◌∷◌, ◌≡◌, refl, arith, min, max, leb, u64_max, true, ◌↔◌,
}
use rust_nntp.ReadState.Set.{
  ReadSet, empty, contains, count, insert_range, remove, remove_range, read_in, unread_in,
  from_iter,
}
use rust_nntp.ReadState.Set.Canonical.{from_iter-ext, elem}
use rust_nntp.ReadState.Set.Counts.{tally, unread_in-tally, count-tally}
use rust_nntp.ReadState.Set.Insert.{members-insert_range}
use rust_nntp.ReadState.Set.Lookup.{contains-members}
use rust_nntp.ReadState.Set.Newsrc.{parse, print}
use rust_nntp.ReadState.Set.Newsrc.Pieces.{SomeNames, members-parse}
use rust_nntp.ReadState.Set.Newsrc.RoundTrip.{parse-print}
use rust_nntp.ReadState.Set.Remove.{members-remove_range}
use rust_nntp.ReadState.Set.Sorted.{IsValid, in_range, members}

-- 1-5 and 8-10
abbrev two_ranges : ReadSet
two_ranges = record { ranges = (1, 5) ∷ (8, 10) ∷ [] }

two_ranges-IsValid : IsValid two_ranges
two_ranges-IsValid = omega arith

members-insert_range_example :
    members (insert_range two_ranges 7 3) 6
    ≡ ((leb 1 6 && in_range (min 7 3) (max 7 3) 6) || members two_ranges 6)
members-insert_range_example =
    members-insert_range two_ranges 7 3 6 two_ranges-IsValid (omega arith) (omega arith)

contains-members_example : contains two_ranges 9 ≡ members two_ranges 9
contains-members_example = contains-members two_ranges 9 two_ranges-IsValid

members-remove_range_example :
    members (remove_range two_ranges 9 4) 5
    ≡ (members two_ranges 5 && not (in_range (min 9 4) (max 9 4) 5))
members-remove_range_example = members-remove_range two_ranges 9 4 5 two_ranges-IsValid

unread_in-tally_example :
    unread_in two_ranges 4 9 ≡ tally (λ n. not (members two_ranges n)) (max 4 1) (9 + 1 - max 4 1)
unread_in-tally_example = unread_in-tally two_ranges 4 9 two_ranges-IsValid (omega arith)

count-tally_example : count two_ranges ≡ tally (members two_ranges) 1 u64_max
count-tally_example = count-tally two_ranges two_ranges-IsValid

from_iter-ext_example : from_iter (3 ∷ 1 ∷ 3 ∷ []) ≡ from_iter (1 ∷ 3 ∷ [])
unfolding elem
from_iter-ext_example =
    from_iter-ext (3 ∷ 1 ∷ 3 ∷ []) (1 ∷ 3 ∷ []) (omega arith) (omega arith) (λ n. ground arith)

parse-print_example : parse (print two_ranges) ≡ (two_ranges, [])
parse-print_example = parse-print two_ranges two_ranges-IsValid

members-parse_example :
    IsValid (parse (codes "4-2,x,9-")).0
    × ((members (parse (codes "4-2,x,9-")).0 3 ≡ true)
        ↔ SomeNames (split b',' (codes "4-2,x,9-")) 3)
members-parse_example = members-parse (codes "4-2,x,9-") 3

unread_run : unread_in two_ranges 4 9 ≡ 2
unfolding unread_in read_in rust_nntp.ReadState.Set.overlaps rust_nntp.ReadState.Set.overlap
unread_run = refl

print_run : print two_ranges ≡ codes "1-5,8-10"
unfolding print rust_nntp.ReadState.Set.Newsrc.print_from rust_nntp.ReadState.Set.Newsrc.print_range
    to_string emit
print_run = refl
