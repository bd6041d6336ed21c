-- ===== src/Proto/Spec.antt =====
-- crates/nntp-proto/src/spec.rs: naming articles, and ranges of article numbers.
pub mod Chunks
use rust_nntp.Prelude.Decimal.{to_string}
use rust_nntp.Prelude.Text.{Bytes}
use rust_nntp.Prelude.{
  ℕ, zero, suc, ◌+◌, ◌-◌, min, Bool, true, false, ◌&&◌, Option, none, some, List, [], ◌∷◌, ◌++◌,
  ltb, leb, ◌==◌, if◌then◌else◌, add_u64, sub_u64, saturating_add,
}

-- `message_id` holds the text of a `MessageId`.
pub data ArticleSpec : Type 0 where
  message_id : Bytes → ArticleSpec
  number : ℕ → ArticleSpec
  current : ArticleSpec

unfoldable pub article_argument : ArticleSpec → Option Bytes
article_argument (message_id id) = some id
article_argument (number n) = some (to_string n)
article_argument current = none

unfoldable pub needs_selected_group : ArticleSpec → Bool
needs_selected_group (message_id id) = false
needs_selected_group (number n) = true
needs_selected_group current = true

pub data Range : Type 0 where
  single : ℕ → Range
  between : ℕ → ℕ → Range
  from : ℕ → Range

-- `Range::between`
unfoldable pub new_between : ℕ → ℕ → Range
new_between low high = if leb low high then between low high else between high low

unfoldable pub range_argument : Range → Bytes
range_argument (single n) = to_string n
range_argument (between low high) = to_string low ++ (b'-' ∷ to_string high)
range_argument (from low) = to_string low ++ b'-' ∷ []

unfoldable pub contains : Range → ℕ → Bool
contains (single n) k = k == n
contains (between low high) k = leb low k && leb k high
contains (from low) k = leb low k

unfoldable pub count : Range → Option ℕ
count (single n) = some 1
count (between low high) = some (add_u64 (sub_u64 high low) 1)
count (from low) = none

abbrev pub push : Range → Option (List Range) → Option (List Range)
push r none = none
push r (some rs) = some (r ∷ rs)

-- The loop of `chunks`, with fuel for its rounds.
unfoldable pub chunk_loop : ℕ → ℕ → ℕ → ℕ → Option (List Range)
chunk_loop zero chunk high start = none
chunk_loop (suc fuel) chunk high start =
    let end = min (saturating_add start (chunk - 1)) high in
    let more = push (new_between start end) (chunk_loop fuel chunk high (add_u64 end 1)) in
    if leb high end then some (new_between start end ∷ []) else more

-- Every round but the last moves `start` up.
unfoldable pub chunks : Range → ℕ → Option (List Range)
chunks (single n) chunk = some (single n ∷ [])
chunks (from low) chunk = some (from low ∷ [])
chunks (between low high) chunk =
    if chunk == 0
    then some (new_between low high ∷ [])
    else chunk_loop (high - low + 1) chunk high low

pub data RangeOrId : Type 0 where
  range : Range → RangeOrId
  by_id : Bytes → RangeOrId
  at_current : RangeOrId

unfoldable pub target_argument : RangeOrId → Option Bytes
target_argument (range r) = some (range_argument r)
target_argument (by_id id) = some id
target_argument at_current = none

-- The conversions `From<u64>`, `From<MessageId>` and `From<Range>`
unfoldable pub spec_from_number : ℕ → ArticleSpec
spec_from_number value = number value

unfoldable pub spec_from_id : Bytes → ArticleSpec
spec_from_id value = message_id value

unfoldable pub range_from_number : ℕ → Range
range_from_number value = single value

unfoldable pub target_from_range : Range → RangeOrId
target_from_range value = range value

unfoldable pub target_from_id : Bytes → RangeOrId
target_from_id value = by_id value
