-- ===== src/ReadState/Set.antt =====
-- crates/nntp-tui/src/readstate/set.rs: `ReadSet`, the article numbers read in one group as
-- sorted, disjoint, non-adjacent ranges. A `Vec` is a list, a slice of it is `take` and `drop`, and
-- `&mut self` is a new value. `binary_search_by` is by its documented result on a sorted slice.
pub mod Sorted
pub mod Insert
pub mod Lookup
pub mod Remove
pub mod Canonical
pub mod Counts
pub mod Newsrc
use rust_nntp.Prelude.{
  ℕ, zero, suc, ◌+◌, ◌-◌, min, max, Bool, true, false, ◌&&◌, ◌||◌, Option, none, some, List, [],
  ◌∷◌, ◌++◌, ltb, leb, ◌==◌, if◌then◌else◌, length, get_elem?, take, drop, partition_point, add_u64,
  sub_u64, saturating_add, saturating_sub,
}

-- An inclusive `(low, high)` pair.
abbrev pub Range : Type 0
Range = ℕ × ℕ

pub record ReadSet : Type 0 where
  pub ranges : List Range

abbrev pub empty : ReadSet
empty = record { ranges = [] }

unfoldable pub is_empty : ReadSet → Bool
is_empty s = elim s.ranges [ [] ↦ true | _ ∷ _ ↦ false ]

-- `high - low + 1`
abbrev pub width : Range → ℕ
width (low, high) = add_u64 (sub_u64 high low) 1

unfoldable pub count_ranges : List Range → ℕ
count_ranges [] = 0
count_ranges (r ∷ rs) = add_u64 (width r) (count_ranges rs)

unfoldable pub count : ReadSet → ℕ
count s = count_ranges s.ranges

unfoldable pub range_count : ReadSet → ℕ
range_count s = length s.ranges

unfoldable pub last_high : List Range → Option ℕ
last_high [] = none
last_high ((low, high) ∷ []) = some high
last_high (r ∷ s ∷ rs) = last_high (s ∷ rs)

unfoldable pub highest : ReadSet → Option ℕ
highest s = last_high s.ranges

-- The result of `binary_search_by(|&(low, _)| low.cmp(&number))`.
pub data Searched : Type 0 where
  found : ℕ → Searched
  absent : ℕ → Searched

unfoldable pub classify : ℕ → ℕ → Option Range → Searched
classify number i none = absent i
classify number i (some (low, high)) = if low == number then found i else absent i

unfoldable pub search_low : ℕ → List Range → Searched
search_low number rs =
    let i = partition_point (λ r. ltb r.0 number) rs in classify number i (get_elem? rs i)

unfoldable pub reaches : ℕ → Option Range → Bool
reaches number none = false
reaches number (some (low, high)) = leb number high

unfoldable pub contains_at : ℕ → List Range → Searched → Bool
contains_at number rs (found _) = true
contains_at number rs (absent zero) = false
contains_at number rs (absent (suc i)) = reaches number (get_elem? rs i)

unfoldable pub contains : ReadSet → ℕ → Bool
contains s number =
    if number == 0 then false else contains_at number s.ranges (search_low number s.ranges)

-- The loop over `ranges[first..last]`.
unfoldable pub merge_all : Range → List Range → Range
merge_all m [] = m
merge_all (low, high) ((l, h) ∷ rs) = merge_all (min low l, max high h) rs

-- The insertion of a pair, where `ranges[first..last]` are those that touch it.
unfoldable pub merge_between : ℕ → ℕ → ℕ → ℕ → List Range → List Range
merge_between low high first last rs =
    if leb last first
    then take first rs ++ (low, high) ∷ drop first rs
    else take first rs ++ merge_all (low, high) (take (last - first) (drop first rs)) ∷ drop last rs

unfoldable pub insert_pair : ℕ → ℕ → List Range → List Range
insert_pair low high rs =
    let merge_from = saturating_sub low 1 in
    let merge_to = saturating_add high 1 in
    let first = partition_point (λ r. ltb r.1 merge_from) rs in
    let last = partition_point (λ r. leb r.0 merge_to) rs in merge_between low high first last rs

-- The pair in order, as the operations on ranges normalise their arguments.
abbrev pub ordered : ℕ → ℕ → Range
ordered low high = if leb low high then (low, high) else (high, low)

unfoldable pub insert_range : ReadSet → ℕ → ℕ → ReadSet
insert_range s low high =
    let (low', high') = ordered low high in
    if high' == 0 then s else record { ranges = insert_pair (max low' 1) high' s.ranges }

unfoldable pub insert : ReadSet → ℕ → ReadSet
insert s number = insert_range s number number

unfoldable pub replacement : ℕ → Range → List Range
replacement number (low, high) =
    if number == low
    then (if number == high then [] else (add_u64 low 1, high) ∷ [])
    else if number == high
    then (low, sub_u64 high 1) ∷ []
    else (low, sub_u64 number 1) ∷ (add_u64 number 1, high) ∷ []

unfoldable pub remove_at : ℕ → List Range → ℕ → Option Range → List Range
remove_at number rs index none = rs
remove_at number rs index (some (low, high)) =
    if ltb number low || ltb high number
    then rs
    else take index rs ++ (replacement number (low, high) ++ drop (index + 1) rs)

unfoldable pub remove_found : ℕ → List Range → Searched → List Range
remove_found number rs (found index) = remove_at number rs index (get_elem? rs index)
remove_found number rs (absent zero) = rs
remove_found number rs (absent (suc index)) = remove_at number rs index (get_elem? rs index)

unfoldable pub remove : ReadSet → ℕ → ReadSet
remove s number =
    if number == 0
    then s
    else record { ranges = remove_found number s.ranges (search_low number s.ranges) }

-- What the loop of `remove_range` pushes for one range.
unfoldable pub keep_outside : ℕ → ℕ → Range → List Range
keep_outside low high (l, h) =
    if ltb h low || ltb high l
    then (l, h) ∷ []
    else (if ltb l low then (l, sub_u64 low 1) ∷ [] else [])
      ++ (if ltb high h then (add_u64 high 1, h) ∷ [] else [])

unfoldable pub remove_pair : ℕ → ℕ → List Range → List Range
remove_pair low high [] = []
remove_pair low high (r ∷ rs) = keep_outside low high r ++ remove_pair low high rs

unfoldable pub remove_range : ReadSet → ℕ → ℕ → ReadSet
remove_range s low high =
    let (low', high') = ordered low high in
    if high' == 0 then s else record { ranges = remove_pair (max low' 1) high' s.ranges }

-- What one range adds to `read_in`, where it meets `low..=high`.
unfoldable pub overlap : ℕ → ℕ → Range → ℕ
overlap low high (l, h) =
    if leb (max l low) (min h high) then add_u64 (sub_u64 (min h high) (max l low)) 1 else 0

unfoldable pub overlaps : ℕ → ℕ → List Range → ℕ
overlaps low high [] = 0
overlaps low high (r ∷ rs) = add_u64 (overlap low high r) (overlaps low high rs)

unfoldable pub read_in : ReadSet → ℕ → ℕ → ℕ
read_in s low high = if high == 0 || ltb high low then 0 else overlaps (max low 1) high s.ranges

unfoldable pub unread_in : ReadSet → ℕ → ℕ → ℕ
unread_in s low high =
    if high == 0 || ltb high low
    then 0
    else saturating_sub (add_u64 (sub_u64 high (max low 1)) 1) (read_in s (max low 1) high)

-- `FromIterator<u64>`
unfoldable pub collect_onto : ReadSet → List ℕ → ReadSet
collect_onto s [] = s
collect_onto s (n ∷ ns) = collect_onto (insert s n) ns

unfoldable pub from_iter : List ℕ → ReadSet
from_iter = collect_onto empty
