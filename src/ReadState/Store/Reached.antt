-- ===== src/ReadState/Store/Reached.antt =====
-- Every store that crates/nntp-tui/src/readstate/store.rs can hold, from any file and by any
-- sequence of operations, and what the operations do to the sets.
use rust_nntp.Prelude.SortedMap.Laws.{upsert-IsSorted, upsert-Values}
use rust_nntp.Prelude.SortedMap.Order.{same-eq}
use rust_nntp.Prelude.SortedMap.{same}
use rust_nntp.Prelude.Text.{Bytes, lines, trim}
use rust_nntp.Prelude.{
  ℕ, ◌+◌, ◌≤◌, min, max, Bool, true, false, not, ◌&&◌, ◌||◌, Option, none, some, List, [], ◌∷◌, ◌≡◌,
  refl, ap, ◌∙◌, arith, ltb, leb, ◌==◌, if◌then◌else◌, Bool-cases, inl, inr, u64_max,
}
use rust_nntp.Proto.Utf8.Lossy.{lossy}
use rust_nntp.ReadState.Set.Insert.{insert_range-IsValid, members-insert_range}
use rust_nntp.ReadState.Set.Newsrc
use rust_nntp.ReadState.Set.Newsrc.Pieces.{members-parse}
use rust_nntp.ReadState.Set.Remove.{remove-IsValid, members-remove}
use rust_nntp.ReadState.Set.Sorted.{IsValid, members, in_range, Sorted}
use rust_nntp.ReadState.Set.{Range, ReadSet, insert, insert_range, remove}
use rust_nntp.ReadState.Store.Expiry.{forget_expired-IsWellFormed, members-forget_expired}
use rust_nntp.ReadState.Store.Reads.{
  IsWellFormed, read_set-edit, edit-IsWellFormed, read_set-IsValid,
}
use rust_nntp.ReadState.Store.{
  ReadStore, Loading, Metadata, Contents, size, not_found, failed, octets, read_failed, empty_store,
  default_entry, merge_entry, insert_ranges, load, load_contents, max_store_bytes, Problem,
  load_lines, load_line, load_split, load_group, split_line, read_set, edit, mark_read,
  mark_range_read, mark_unread, set_read, forget_expired,
}

-- A call of an operation that changes the store.
pub data Call : Type 0 where
  read_one : Bytes → ℕ → Call
  read_many : Bytes → ℕ → ℕ → Call
  unread_one : Bytes → ℕ → Call
  replace : Bytes → ReadSet → Call
  expire : Bytes → ℕ → Call

abbrev pub perform : Call → ReadStore → ReadStore
perform (read_one group number) = mark_read group number
perform (read_many group low high) = mark_range_read group low high
perform (unread_one group number) = mark_unread group number
perform (replace group read) = set_read group read
perform (expire group low) = forget_expired group low

-- The arguments are 64-bit numbers and valid sets.
abbrev pub IsCall : Call → Type 0
IsCall (read_one group number) = number ≤ u64_max
IsCall (read_many group low high) = (low ≤ u64_max) × (high ≤ u64_max)
IsCall (unread_one group number) = Unit
IsCall (replace group read) = IsValid read
IsCall (expire group low) = low ≤ u64_max

abbrev pub target : Call → Bytes
target (read_one group number) = group
target (read_many group low high) = group
target (unread_one group number) = group
target (replace group read) = group
target (expire group low) = group

-- Whether a number is read after a call, by whether it was before.
abbrev pub is_read_after : Call → ℕ → Bool → Bool
is_read_after (read_one group number) n was = (leb 1 n && n == number) || was
is_read_after (read_many group low high) n was =
    (leb 1 n && in_range (min low high) (max low high) n) || was
is_read_after (unread_one group number) n was = was && not (n == number)
is_read_after (replace group read) n was = members read n
is_read_after (expire group low) n was = was && not (ltb n low)

perform-IsWellFormed :
    (c : Call) (s : ReadStore) → IsCall c → IsWellFormed s → IsWellFormed (perform c s)
unfolding mark_read mark_range_read mark_unread set_read insert
perform-IsWellFormed (read_one group number) s h w =
    edit-IsWellFormed group (λ r. insert r number) s
      (λ r v. insert_range-IsValid r number number v h h) w
perform-IsWellFormed (read_many group low high) s (h, k) w =
    edit-IsWellFormed group (λ r. insert_range r low high) s
      (λ r v. insert_range-IsValid r low high v h k) w
perform-IsWellFormed (unread_one group number) s h w =
    edit-IsWellFormed group (λ r. remove r number) s (λ r v. remove-IsValid r number v) w
perform-IsWellFormed (replace group read) s h w = edit-IsWellFormed group (λ r. read) s (λ r v. h) w
perform-IsWellFormed (expire group low) s h w = forget_expired-IsWellFormed group low s w

edited :
    (group g : Bytes) (f : ReadSet → ReadSet) (s : ReadStore) (n : ℕ) (after : Bool → Bool)
    → IsWellFormed s
    → members (f (read_set s group)) n ≡ after (members (read_set s group) n)
    → members (read_set (edit group f s) g) n
      ≡ (if same g group then after (members (read_set s group) n) else members (read_set s g) n)
edited group g f s n after w h =
    ap (λ r. members r n) (read_set-edit group g f s w) ∙ pick (same g group)
  where
    pick :
        (b : Bool)
        → members (if b then f (read_set s group) else read_set s g) n
          ≡ (if b then after (members (read_set s group) n) else members (read_set s g) n)
    pick true = h
    pick false = refl

one_number : (k n : ℕ) → in_range (min k k) (max k k) n ≡ (n == k)
one_number k n = ground arith

expired :
    (group g : Bytes) (low n : ℕ) (s : ReadStore)
    → members (read_set (forget_expired group low s) g) n
      ≡ (members (read_set s g) n && not (same g group && ltb n low))
    → members (read_set (forget_expired group low s) g) n ≡ (
        if same g group
        then members (read_set s group) n && not (ltb n low)
        else members (read_set s g) n)
expired group g low n s h = elim (Bool-cases (same g group)) [
  | inl t ↦ h ∙ rw t (rw (same-eq g group t) refl)
  | inr t ↦ h ∙ rw t (ground arith)
]

-- In a well-formed store, and for a call with 64-bit numbers and valid sets: exactly the given numbers
-- become read, or unread, or are forgotten, in the group that is named, and no other group changes.
pub members-perform :
    (c : Call) (s : ReadStore) (g : Bytes) (n : ℕ)
    → IsCall c
    → IsWellFormed s
    → members (read_set (perform c s) g) n ≡ (
        if same g (target c)
        then is_read_after c n (members (read_set s (target c)) n)
        else members (read_set s g) n)
unfolding mark_read mark_range_read mark_unread set_read insert
members-perform (read_one group number) s g n h w =
    edited group g (λ r. insert r number) s n (is_read_after (read_one group number) n) w
      (members-insert_range (read_set s group) number number n (read_set-IsValid s group w) h h
        ∙ ap (λ b. (leb 1 n && b) || members (read_set s group) n) (one_number number n))
members-perform (read_many group low high) s g n (h, k) w =
    edited group g (λ r. insert_range r low high) s n (is_read_after (read_many group low high) n) w
      (members-insert_range (read_set s group) low high n (read_set-IsValid s group w) h k)
members-perform (unread_one group number) s g n h w =
    edited group g (λ r. remove r number) s n (is_read_after (unread_one group number) n) w
      (members-remove (read_set s group) number n (read_set-IsValid s group w))
members-perform (replace group read) s g n h w =
    edited group g (λ r. read) s n (is_read_after (replace group read) n) w refl
members-perform (expire group low) s g n h w =
    expired group g low n s (members-forget_expired group g low n s w h)

insert_ranges-IsValid :
    (s : ReadSet) (b : ℕ) (rs : List Range) → IsValid s → Sorted b rs → IsValid (insert_ranges s rs)
insert_ranges-IsValid s b [] v h = v
insert_ranges-IsValid s b ((l, h) ∷ rs) v (p, q, r, t) =
    insert_ranges-IsValid (insert_range s l h) (h + 2) rs
      (insert_range-IsValid s l h v (omega (arith, q, r)) r) t

load_group-IsWellFormed :
    (store : ReadStore) (problems : List Problem) (group : Bytes) (subscribed : Bool)
    (p : Newsrc.Parsed)
    → IsValid p.0
    → IsWellFormed store
    → IsWellFormed (load_group (store, problems) group subscribed p).0
unfolding load_group
load_group-IsWellFormed store problems group subscribed (read, malformed) v w = record {
  sorted = upsert-IsSorted group default_entry (merge_entry read subscribed) store.groups w.sorted;
  valid =
      upsert-Values (λ e. IsValid e.read) group default_entry (merge_entry read subscribed)
        store.groups tt (λ e h. insert_ranges-IsValid e.read 1 read.ranges h v) w.valid;
}

load_split-IsWellFormed :
    (l : Loading) (index : ℕ) (o : Option (Bytes × Bool × Bytes))
    → IsWellFormed l.0
    → IsWellFormed (load_split l index o).0
unfolding load_split
load_split-IsWellFormed (store, problems) index none w = w
load_split-IsWellFormed (store, problems) index (some (group, subscribed, ranges)) w =
    load_group-IsWellFormed store problems group subscribed (Newsrc.parse ranges)
      (members-parse ranges 0).0 w

load_line-IsWellFormed :
    (l : Loading) (index : ℕ) (line : Bytes)
    → IsWellFormed l.0
    → IsWellFormed (load_line l index line).0
unfolding load_line
load_line-IsWellFormed l index [] w = w
load_line-IsWellFormed l index (c ∷ s) w = elim (Bool-cases (c == b'#')) [
  | inl e ↦ rw e w
  | inr e ↦ rw e (load_split-IsWellFormed l index (split_line (c ∷ s)) w)
]

load_lines-IsWellFormed :
    (l : Loading) (index : ℕ) (ls : List Bytes)
    → IsWellFormed l.0
    → IsWellFormed (load_lines l index ls).0
unfolding load_lines
load_lines-IsWellFormed l index [] w = w
load_lines-IsWellFormed l index (line ∷ ls) w =
    load_lines-IsWellFormed (load_line l index (trim line)) (index + 1) ls
      (load_line-IsWellFormed l index (trim line) w)

empty_store-IsWellFormed : (path : Bytes) → IsWellFormed (empty_store path)
unfolding empty_store
empty_store-IsWellFormed path = record { sorted = tt; valid = tt }

load_contents-IsWellFormed : (path : Bytes) (c : Contents) → IsWellFormed (load_contents path c).0
unfolding load_contents
load_contents-IsWellFormed path (octets bytes) =
    load_lines-IsWellFormed (empty_store path, []) 0 (lines (lossy bytes))
      (empty_store-IsWellFormed path)
load_contents-IsWellFormed path (read_failed reason) = empty_store-IsWellFormed path

pub load-IsWellFormed :
    (path : Bytes) (m : Metadata) (c : Contents) → IsWellFormed (load path m c).0
unfolding load
load-IsWellFormed path (size n) c = elim (Bool-cases (ltb max_store_bytes n)) [
  | inl e ↦ rw e (empty_store-IsWellFormed path)
  | inr e ↦ rw e (load_contents-IsWellFormed path c)
]
load-IsWellFormed path not_found c = empty_store-IsWellFormed path
load-IsWellFormed path (failed reason) c = empty_store-IsWellFormed path

-- The stores that calls lead to.
pub data Reach (s : ReadStore) : ReadStore → Type 0 where
  here : Reach s s
  next : {t : ReadStore} → Reach s t → (c : Call) → IsCall c → Reach s (perform c t)

Reach-IsWellFormed : {s t : ReadStore} → IsWellFormed s → Reach s t → IsWellFormed t
Reach-IsWellFormed w here = w
Reach-IsWellFormed w (next r c h) = perform-IsWellFormed c _ h (Reach-IsWellFormed w r)

-- Whatever the file holds, and whatever calls follow, with 64-bit numbers and valid sets: the groups
-- are in strict order, so no group is there twice, and every set of ranges is valid.
pub loaded-IsWellFormed :
    (path : Bytes) (m : Metadata) (c : Contents) (t : ReadStore)
    → Reach (load path m c).0 t
    → IsWellFormed t
loaded-IsWellFormed path m c t r = Reach-IsWellFormed (load-IsWellFormed path m c) r
