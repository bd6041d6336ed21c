-- ===== src/ReadState/Store/Expiry.antt =====
-- `forget_expired` of crates/nntp-tui/src/readstate/store.rs.
use rust_nntp.Prelude.SortedMap.Laws.{
  adjust-IsSorted, adjust-Values, adjust-same, lookup-adjust, map_value, lookup-Values,
}
use rust_nntp.Prelude.SortedMap.{same, lookup, adjust}
use rust_nntp.Prelude.SortedMap.Order.{same-eq, same_refl}
use rust_nntp.Prelude.Text.{Bytes}
use rust_nntp.Prelude.{
  ℕ, ◌≤◌, ◌<◌, Bool, true, false, not, ◌&&◌, ◌||◌, Option, none, some, ◌≡◌, refl, ap, sym, ◌∙◌,
  arith, ltb, leb, ◌==◌, if◌then◌else◌, Bool-cases, inl, inr, u64_max, sub_u64,
}
use rust_nntp.ReadState.Set.Remove.{remove_range-IsValid, members-remove_range}
use rust_nntp.ReadState.Set.Sorted.{IsValid, members, covers_below}
use rust_nntp.ReadState.Set.{ReadSet, empty, remove_range, remove_pair}
use rust_nntp.ReadState.Store.Reads.{IsWellFormed, read_set-IsValid, same_count-same}
use rust_nntp.ReadState.Store.{
  Entry, ReadStore, new_entry, read_of, with_read, read_set, counts_differ, forget_in,
  forget_expired,
}

cut : ℕ → ReadSet → ReadSet
cut low r = remove_range r 1 (sub_u64 low 1)

forget_in-IsWellFormed :
    (group : Bytes) (low : ℕ) (s : ReadStore) (o : Option Entry)
    → lookup group s.groups ≡ o
    → IsWellFormed s
    → IsWellFormed (forget_in group low s o)
unfolding forget_in
forget_in-IsWellFormed group low s none at_group w = w
forget_in-IsWellFormed group low s (some e) at_group w = record {
  sorted = adjust-IsSorted group _ s.groups w.sorted;
  valid =
      adjust-Values (λ e'. IsValid e'.read) group _ s.groups
        (λ e' _. remove_range-IsValid e.read 1 (sub_u64 low 1) (
          rw at_group at
            (lookup-Values (λ e'. IsValid e'.read) group new_entry s.groups tt w.valid)))
        w.valid;
}

pub forget_expired-IsWellFormed :
    (group : Bytes) (low : ℕ) (s : ReadStore)
    → IsWellFormed s
    → IsWellFormed (forget_expired group low s)
unfolding forget_expired
forget_expired-IsWellFormed group low s w = elim (Bool-cases (leb low 1)) [
  | inl e ↦ rw e w
  | inr e ↦ rw e (forget_in-IsWellFormed group low s (lookup group s.groups) refl w)
]

-- The set of the group loses what stands below the watermark.
members-cut :
    (r : ReadSet) (low n : ℕ)
    → IsValid r
    → 1 < low
    → low ≤ u64_max
    → members (cut low r) n ≡ (members r n && not (ltb n low))
unfolding cut
members-cut r low n v more fits = elim (Bool-cases (n == 0)) [
  | inl z ↦
      covers_below 1 n (cut low r).ranges (remove_range-IsValid r 1 (sub_u64 low 1) v)
        (ground arith)
      ∙ sym (ap (λ b. b && not (ltb n low)) (covers_below 1 n r.ranges v (ground arith)))
  | inr p ↦
      members-remove_range r 1 (sub_u64 low 1) n v ∙ ap (λ b. members r n && not b) (ground arith)
]

cut-empty : (low : ℕ) → cut low empty ≡ empty
unfolding cut remove_range remove_pair
cut-empty low = ground arith

if_same : (b : Bool) (x : ReadSet) → x ≡ (if b then x else x)
if_same true x = refl
if_same false x = refl

read_of_if :
    (b : Bool) (x y : Option Entry)
    → read_of (if b then x else y) ≡ (if b then read_of x else read_of y)
read_of_if true x y = refl
read_of_if false x y = refl

-- A group without an entry has an empty set, and keeps it.
absent_lem :
    (group g : Bytes) (low : ℕ) (s : ReadStore)
    → lookup group s.groups ≡ none
    → read_set s g ≡ (if same g group then cut low empty else read_set s g)
unfolding read_set
absent_lem group g low s e = elim (Bool-cases (same g group)) [
  | inl t ↦ rw t (rw (same-eq g group t, e) (sym (cut-empty low)))
  | inr t ↦ rw t refl
]

read_set-forget_in :
    (group g : Bytes) (low : ℕ) (s : ReadStore) (o : Option Entry)
    → lookup group s.groups ≡ o
    → read_set (forget_in group low s o) g
      ≡ (if same g group then cut low (read_of o) else read_set s g)
unfolding forget_in read_set cut
read_set-forget_in group g low s none e = absent_lem group g low s e
read_set-forget_in group g low s (some x) e =
    ap read_of (lookup-adjust g group (with_read (cut low x.read)) s.groups)
    ∙ ap
        (λ o.
          read_of
            (if same g group then map_value (with_read (cut low x.read)) o else lookup g s.groups))
        e
    ∙ read_of_if (same g group) _ (lookup g s.groups)

-- No number below 1 is a member.
low_watermark :
    (b : Bool) (r : ReadSet) (low n : ℕ)
    → IsValid r
    → leb low 1 ≡ true
    → members r n ≡ (members r n && not (b && ltb n low))
low_watermark b r low n v e = elim (Bool-cases (n == 0)) [
  | inl z ↦
      let out = covers_below 1 n r.ranges v (ground arith) in
      out ∙ sym (ap (λ c. c && not (b && ltb n low)) out)
  | inr p ↦ ground arith
]

forgotten :
    (group g : Bytes) (low n : ℕ) (s : ReadStore)
    → IsWellFormed s
    → 1 < low
    → low ≤ u64_max
    → members (if same g group then cut low (read_set s group) else read_set s g) n
      ≡ (members (read_set s g) n && not (same g group && ltb n low))
forgotten group g low n s w more fits = elim (Bool-cases (same g group)) [
  | inl t ↦ rw t (
      rw (same-eq g group t)
        (members-cut (read_set s group) low n (read_set-IsValid s group w) more fits))
  | inr t ↦ rw t (ground arith)
]

-- `forget_expired` takes exactly the numbers below the watermark out of the set of the group, and
-- leaves the sets of the other groups alone.
pub members-forget_expired :
    (group g : Bytes) (low n : ℕ) (s : ReadStore)
    → IsWellFormed s
    → low ≤ u64_max
    → members (read_set (forget_expired group low s) g) n
      ≡ (members (read_set s g) n && not (same g group && ltb n low))
unfolding forget_expired
members-forget_expired group g low n s w fits = elim (Bool-cases (leb low 1)) [
  | inl e ↦ rw e (low_watermark (same g group) (read_set s g) low n (read_set-IsValid s g w) e)
  | inr e ↦ rw e (
      ap (λ r. members r n) (read_set-forget_in group g low s (lookup group s.groups) refl)
      ∙ unfold read_set in forgotten group g low n s w (ground arith) fits)
]

-- The counts are those of equal sets only, since nothing is added.
counts_tell :
    (r : ReadSet) (low : ℕ)
    → IsValid r
    → 1 < low
    → low ≤ u64_max
    → counts_differ (cut low r) r ≡ false
    → cut low r ≡ r
unfolding counts_differ
counts_tell r low v more fits e =
    same_count-same (cut low r) r (unfold cut in remove_range-IsValid r 1 (sub_u64 low 1) v) v
      (λ n h. ground (arith, members-cut r low n v more fits, h)) (ground (arith, e))

counts_of_same : (r t : ReadSet) → r ≡ t → counts_differ r t ≡ false
unfolding counts_differ
counts_of_same r t e = rw e (ground arith)

forget_in-dirty :
    (group : Bytes) (low : ℕ) (s : ReadStore) (o : Option Entry)
    → lookup group s.groups ≡ o
    → IsWellFormed s
    → 1 < low
    → low ≤ u64_max
    → ((forget_in group low s o).dirty ≡ false → forget_in group low s o ≡ s)
      × (read_set (forget_in group low s o) group ≡ read_set s group
          → (forget_in group low s o).dirty ≡ s.dirty)
unfolding forget_in read_set cut
forget_in-dirty group low s none e w more fits = (λ _. refl, λ _. refl)
forget_in-dirty group low s (some x) e w more fits = (
  λ clean.
      let unchanged : cut low x.read ≡ x.read =
        counts_tell x.read low valid more fits (unfold cut in ground (arith, clean)) in
      let same_groups =
        adjust-same group (with_read (cut low x.read)) x s.groups e
          (ap (λ r. with_read r x) unchanged) in
      (λ i. record { path = s.path; groups = same_groups i; dirty = stays clean i }),
  λ unchanged.
      ap (λ b. s.dirty || b)
        (counts_of_same (remove_range x.read 1 (sub_u64 low 1)) x.read (kept unchanged))
      ∙ or_false s.dirty,
)
  where
    valid : IsValid x.read
    valid = rw e at (lookup-Values (λ e'. IsValid e'.read) group new_entry s.groups tt w.valid)

    stays :
        s.dirty || counts_differ (remove_range x.read 1 (sub_u64 low 1)) x.read ≡ false
        → s.dirty || counts_differ (remove_range x.read 1 (sub_u64 low 1)) x.read ≡ s.dirty
    stays clean = ground (arith, clean)

    or_false : (b : Bool) → b || false ≡ b
    or_false true = refl
    or_false false = refl

    found :
        (if same group group
          then map_value (with_read (remove_range x.read 1 (sub_u64 low 1))) (lookup group s.groups)
          else lookup group s.groups)
        ≡ some (with_read (remove_range x.read 1 (sub_u64 low 1)) x)
    found = rw (same_refl group, e) refl

    adjusted :
        read_of
          (lookup group (adjust group (with_read (remove_range x.read 1 (sub_u64 low 1))) s.groups))
        ≡ remove_range x.read 1 (sub_u64 low 1)
    adjusted = ap read_of (
        lookup-adjust group group (with_read (remove_range x.read 1 (sub_u64 low 1))) s.groups
        ∙ found)

    kept :
        read_of (
            lookup group
              (adjust group (with_read (remove_range x.read 1 (sub_u64 low 1))) s.groups))
          ≡ read_of (lookup group s.groups)
        → remove_range x.read 1 (sub_u64 low 1) ≡ x.read
    kept h = sym adjusted ∙ h ∙ ap read_of e

-- In a well-formed store, and for a 64-bit bound, `forget_expired` marks the store as changed exactly
-- when the set of the group changes: a store that is clean afterwards is the store before, and if the
-- set is what it was then so is the mark.
pub forget_expired-dirty :
    (group : Bytes) (low : ℕ) (s : ReadStore)
    → IsWellFormed s
    → low ≤ u64_max
    → ((forget_expired group low s).dirty ≡ false → forget_expired group low s ≡ s)
      × (read_set (forget_expired group low s) group ≡ read_set s group
          → (forget_expired group low s).dirty ≡ s.dirty)
unfolding forget_expired
forget_expired-dirty group low s w fits = elim (Bool-cases (leb low 1)) [
  | inl e ↦ rw e (λ _. refl, λ _. refl)
  | inr e ↦ rw e (forget_in-dirty group low s (lookup group s.groups) refl w (ground arith) fits)
]
