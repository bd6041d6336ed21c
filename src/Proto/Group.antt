-- ===== src/Proto/Group.antt =====
-- crates/nntp-proto/src/group.rs: the reply to GROUP, and the posting status of LIST ACTIVE.
-- `GroupName::parse` is in Proto/Names.
pub mod Reply
use rust_nntp.Prelude.Text.{Bytes, codes}
use rust_nntp.Prelude.{
  ℕ, Bool, true, false, ◌&&◌, ◌||◌, not, Option, none, some, List, [], ◌∷◌, ◌++◌, ltb, ◌==◌,
  if◌then◌else◌,
}
use rust_nntp.Proto.Error.{Result, ok, err, ◌>>=◌, missing_field}
use rust_nntp.Proto.Names.{parse_group_name, strip_first}
use rust_nntp.Proto.Response.{StatusLine, args, arg_u64, nth}

-- `name` is the text of a `GroupName`.
pub record GroupSummary : Type 0 where
  pub name : Bytes
  pub estimated_count : ℕ
  pub low : ℕ
  pub high : ℕ

abbrev context : Bytes
context = codes "GROUP response"

-- The fourth argument, or the name that was asked for.
unfoldable pub name_of : Option Bytes → Option Bytes → Result Bytes
name_of (some raw) fallback = parse_group_name raw
name_of none (some name) = ok name
name_of none none = err (missing_field context (codes "group"))

-- `GroupSummary::parse`
unfoldable pub parse_summary : StatusLine → Option Bytes → Result GroupSummary
parse_summary line fallback = do
  estimated_count ← arg_u64 line 0 context (codes "count")
  low ← arg_u64 line 1 context (codes "low")
  high ← arg_u64 line 2 context (codes "high")
  name ← name_of (nth 3 (args line)) fallback
  ok (record { name = name; estimated_count = estimated_count; low = low; high = high })

unfoldable pub summary_is_empty : GroupSummary → Bool
summary_is_empty s = s.estimated_count == 0 || s.high == 0 || ltb s.high s.low

unfoldable pub summary_range : GroupSummary → Option (ℕ × ℕ)
summary_range s = if summary_is_empty s then none else some (s.low, s.high)

pub data PostingStatus : Type 0 where
  permitted prohibited moderated junked disabled : PostingStatus
  alias_for : Bytes → PostingStatus
  other : Bytes → PostingStatus

unfoldable pub alias_or_other : Bytes → Option Bytes → PostingStatus
alias_or_other raw none = other raw
alias_or_other raw (some target) = alias_for target

-- A flag of one character
unfoldable pub flag_of : ℕ → PostingStatus
flag_of c =
    if c == b'y'
    then permitted
    else if c == b'n'
    then prohibited
    else if c == b'm'
    then moderated
    else if c == b'j'
    then junked
    else if c == b'x'
    then disabled
    else alias_or_other (c ∷ []) (strip_first b'=' (c ∷ []))

-- `PostingStatus::parse`
unfoldable pub parse_posting : Bytes → PostingStatus
parse_posting [] = other []
parse_posting (c ∷ []) = flag_of c
parse_posting (c ∷ d ∷ s) = alias_or_other (c ∷ d ∷ s) (strip_first b'=' (c ∷ d ∷ s))

unfoldable pub allows_posting : PostingStatus → Bool
allows_posting permitted = true
allows_posting moderated = true
allows_posting _ = false
