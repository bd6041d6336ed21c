-- ===== src/ReadState/Store.antt =====
-- crates/nntp-tui/src/readstate/store.rs: the read state of every group on a server, and its
-- `.newsrc` file. Group names and texts are code points. What the file system answers to
-- `metadata` and `read` is an argument.
pub mod Reads
pub mod Expiry
pub mod Reached
pub mod Lines
pub mod RoundTrip
pub mod File
use rust_nntp.Prelude.SortedMap.{Map, lookup, upsert, adjust, get_or}
use rust_nntp.Prelude.Text.{Bytes, codes, trim, lines}
use rust_nntp.Prelude.{
  ℕ, zero, suc, ◌+◌, ◌-◌, ◌*◌, Bool, true, false, not, ◌&&◌, ◌||◌, Option, none, some, List, [],
  ◌∷◌, ◌++◌, ltb, leb, ◌==◌, if◌then◌else◌, length, sub_u64,
}
use rust_nntp.Proto.Utf8.Lossy.{lossy}
use rust_nntp.ReadState.Set.Newsrc
use rust_nntp.ReadState.Set.{
  Range, ReadSet, empty, insert, insert_range, remove, remove_range, range_count, count, is_empty,
}

abbrev pub max_store_bytes : ℕ
max_store_bytes = 8 * 1024 * 1024

pub record Entry : Type 0 where
  pub read : ReadSet
  pub subscribed : Bool

pub record ReadStore : Type 0 where
  pub path : Bytes
  pub groups : Map Entry
  pub dirty : Bool

pub data Problem : Type 0 where
  unreadable : Bytes → Problem
  too_large : ℕ → Problem
  malformed_line : ℕ → Problem
  malformed_ranges : Bytes → List Bytes → Problem

-- `ReadStore::empty`
unfoldable pub empty_store : Bytes → ReadStore
empty_store path = record { path = path; groups = []; dirty = false }

abbrev pub is_separator : ℕ → Bool
is_separator c = c == b':' || c == b'!'

-- The text in front of the first `:` or `!`, that separator, and the text behind it.
unfoldable pub find_separator : Bytes → Option (Bytes × ℕ × Bytes)
find_separator [] = none
find_separator (c ∷ s) =
    let later = find_separator s in
    if is_separator c then some ([], c, s) else elim later [
      | none ↦ none
      | some (group, separator, rest) ↦ some (c ∷ group, separator, rest)
    ]

-- A group that is white space only is no group.
unfoldable pub split_at : Bytes → ℕ → Bytes → Option (Bytes × Bool × Bytes)
split_at [] separator rest = none
split_at (c ∷ group) separator rest = some (c ∷ group, separator == b':', rest)

unfoldable pub split_found : Option (Bytes × ℕ × Bytes) → Option (Bytes × Bool × Bytes)
split_found none = none
split_found (some (group, separator, rest)) = split_at (trim group) separator rest

unfoldable pub split_line : Bytes → Option (Bytes × Bool × Bytes)
split_line line = split_found (find_separator line)

-- `Entry::default()`
abbrev pub default_entry : Entry
default_entry = record { read = empty; subscribed = false }

abbrev pub insert_ranges : ReadSet → List Range → ReadSet
insert_ranges s [] = s
insert_ranges s ((low, high) ∷ rs) = insert_ranges (insert_range s low high) rs

-- A line that names the group again is merged with the one before.
abbrev pub merge_entry : ReadSet → Bool → Entry → Entry
merge_entry read subscribed e = record {
  read = insert_ranges e.read read.ranges;
  subscribed = e.subscribed || subscribed;
}

-- The store that is being loaded, and what was wrong so far.
abbrev pub Loading : Type 0
Loading = ReadStore × List Problem

abbrev pub report_ranges : Bytes → List Bytes → List Problem → List Problem
report_ranges group [] problems = problems
report_ranges group (p ∷ ps) problems = problems ++ malformed_ranges group (p ∷ ps) ∷ []

unfoldable pub load_group : Loading → Bytes → Bool → Newsrc.Parsed → Loading
load_group (store, problems) group subscribed (read, malformed) = (
  record store { groups = upsert group default_entry (merge_entry read subscribed) store.groups },
  report_ranges group malformed problems,
)

unfoldable pub load_split : Loading → ℕ → Option (Bytes × Bool × Bytes) → Loading
load_split (store, problems) index none = (store, problems ++ malformed_line (index + 1) ∷ [])
load_split loading index (some (group, subscribed, ranges)) =
    load_group loading group subscribed (Newsrc.parse ranges)

-- A round of the loop of `load`, for a trimmed line.
unfoldable pub load_line : Loading → ℕ → Bytes → Loading
load_line loading index [] = loading
load_line loading index (c ∷ s) =
    if c == b'#' then loading else load_split loading index (split_line (c ∷ s))

unfoldable pub load_lines : Loading → ℕ → List Bytes → Loading
load_lines loading index [] = loading
load_lines loading index (line ∷ rest) =
    load_lines (load_line loading index (trim line)) (index + 1) rest

-- What `fs::metadata` and `fs::read` answer.
pub data Metadata : Type 0 where
  size : ℕ → Metadata
  not_found : Metadata
  failed : Bytes → Metadata

pub data Contents : Type 0 where
  octets : Bytes → Contents
  read_failed : Bytes → Contents

unfoldable pub load_contents : Bytes → Contents → Loading
load_contents path (octets bytes) = load_lines (empty_store path, []) 0 (lines (lossy bytes))
load_contents path (read_failed reason) = (empty_store path, unreadable reason ∷ [])

unfoldable pub load : Bytes → Metadata → Contents → Loading
load path (size n) contents =
    if ltb max_store_bytes n
    then (empty_store path, too_large n ∷ [])
    else load_contents path contents
load path not_found contents = (empty_store path, [])
load path (failed reason) contents = (empty_store path, unreadable reason ∷ [])

unfoldable pub group_count : ReadStore → ℕ
group_count s = length s.groups

abbrev pub read_of : Option Entry → ReadSet
read_of none = empty
read_of (some e) = e.read

unfoldable pub read_set : ReadStore → Bytes → ReadSet
read_set s group = read_of (lookup group s.groups)

-- What `entry` inserts for a new group.
abbrev pub new_entry : Entry
new_entry = record { read = empty; subscribed = true }

-- A change of the set of `entry(group)`
unfoldable pub edit : Bytes → (ReadSet → ReadSet) → ReadStore → ReadStore
edit group f s = record s {
  groups = upsert group new_entry (λ e. record e { read = f e.read }) s.groups;
  dirty = true;
}

unfoldable pub mark_read : Bytes → ℕ → ReadStore → ReadStore
mark_read group number s = edit group (λ r. insert r number) s

unfoldable pub mark_range_read : Bytes → ℕ → ℕ → ReadStore → ReadStore
mark_range_read group low high s = edit group (λ r. insert_range r low high) s

unfoldable pub mark_unread : Bytes → ℕ → ReadStore → ReadStore
mark_unread group number s = edit group (λ r. remove r number) s

unfoldable pub set_read : Bytes → ReadSet → ReadStore → ReadStore
set_read group read s = edit group (λ r. read) s

-- Whether the counts tell the sets before and after apart.
unfoldable pub counts_differ : ReadSet → ReadSet → Bool
counts_differ after before =
    not (range_count after == range_count before) || not (count after == count before)

abbrev pub with_read : ReadSet → Entry → Entry
with_read r e = record e { read = r }

unfoldable pub forget_in : Bytes → ℕ → ReadStore → Option Entry → ReadStore
forget_in group low s none = s
forget_in group low s (some e) =
    let after = remove_range e.read 1 (sub_u64 low 1) in
    record s {
      groups = adjust group (with_read after) s.groups;
      dirty = s.dirty || counts_differ after e.read;
    }

unfoldable pub forget_expired : Bytes → ℕ → ReadStore → ReadStore
forget_expired group low s = if leb low 1 then s else forget_in group low s (lookup group s.groups)

abbrev pub separator_of : Bool → ℕ
separator_of subscribed = if subscribed then b':' else b'!'

abbrev pub is_silent : Entry → Bool
is_silent e = is_empty e.read && e.subscribed

unfoldable pub print_entry : Bytes → Entry → Bytes
print_entry group e =
    if is_silent e
    then []
    else group ++ (separator_of e.subscribed ∷ b' ' ∷ (Newsrc.print e.read ++ b'\n' ∷ []))

unfoldable pub print_groups : Map Entry → Bytes
print_groups [] = []
print_groups ((group, e) ∷ groups) = print_entry group e ++ print_groups groups

unfoldable pub to_newsrc : ReadStore → Bytes
to_newsrc s = print_groups s.groups
