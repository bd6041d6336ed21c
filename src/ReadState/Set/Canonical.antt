-- ===== src/ReadState/Set/Canonical.antt =====
-- The representation of crates/nntp-tui/src/readstate/set.rs is canonical: `==` on the ranges is
-- equality of the sets of numbers.
use rust_nntp.Prelude.{
  ℕ, ◌+◌, ◌≤◌, Bool, true, false, ◌&&◌, ◌||◌, List, [], ◌∷◌, ◌≡◌, refl, ap, sym, ◌==◌, All, arith,
  leb, u64_max,
}
use rust_nntp.ReadState.Set.Insert.{insert_range-IsValid, members-insert_range}
use rust_nntp.ReadState.Set.{Range, ReadSet, insert, from_iter, insert_range, collect_onto, empty}
use rust_nntp.ReadState.Set.Sorted.{
  Sorted, Sorted-weaken, IsValid, covers, members, covers_below, in_range,
}

covers_first : (l h : ℕ) (rs : List Range) → l ≤ h → covers ((l, h) ∷ rs) l ≡ true
unfolding covers
covers_first l h rs q = ground arith

covers-cons :
    (l h n : ℕ) (rs : List Range) → covers ((l, h) ∷ rs) n ≡ (in_range l h n || covers rs n)
unfolding covers
covers-cons l h n rs = refl

first_le :
    (b l h l' h' : ℕ) (rs rs' : List Range)
    → Sorted b ((l, h) ∷ rs)
    → Sorted b ((l', h') ∷ rs')
    → ((n : ℕ) → covers ((l, h) ∷ rs) n ≡ covers ((l', h') ∷ rs') n)
    → l' ≤ l
first_le b l h l' h' rs rs' s (p', q', r', s') e = ground (
  arith,
  covers_first l h rs s.1,
  e l,
  covers_below l' l ((l', h') ∷ rs') (omega arith, q', r', s'),
)

last_le :
    (b l h l' h' : ℕ) (rs rs' : List Range)
    → Sorted b ((l, h) ∷ rs)
    → Sorted b ((l', h') ∷ rs')
    → l ≡ l'
    → ((n : ℕ) → covers ((l, h) ∷ rs) n ≡ covers ((l', h') ∷ rs') n)
    → h' ≤ h
last_le b l h l' h' rs rs' (p, q, r, s) (p', q', r', s') same e = ground (
  arith,
  e (h + 1),
  covers_below (h + 2) (h + 1) rs s,
  covers-cons l h (h + 1) rs,
  covers-cons l' h' (h + 1) rs',
)

-- The first ranges are the same.
same_first :
    (b l h l' h' : ℕ) (rs rs' : List Range)
    → Sorted b ((l, h) ∷ rs)
    → Sorted b ((l', h') ∷ rs')
    → ((n : ℕ) → covers ((l, h) ∷ rs) n ≡ covers ((l', h') ∷ rs') n)
    → (l ≡ l') × (h ≡ h')
same_first b l h l' h' rs rs' s s' e =
    let back : (n : ℕ) → covers ((l', h') ∷ rs') n ≡ covers ((l, h) ∷ rs) n = λ n. sym (e n) in
    let low : l ≡ l' =
      omega (arith, first_le b l h l' h' rs rs' s s' e, first_le b l' h' l h rs' rs s' s back) in
    (
      low,
      omega (
        arith,
        last_le b l h l' h' rs rs' s s' low e,
        last_le b l' h' l h rs' rs s' s (sym low) back,
      ),
    )

rest_same :
    (b l h l' h' : ℕ) (rs rs' : List Range)
    → Sorted b ((l, h) ∷ rs)
    → Sorted b ((l', h') ∷ rs')
    → (l ≡ l') × (h ≡ h')
    → ((n : ℕ) → covers ((l, h) ∷ rs) n ≡ covers ((l', h') ∷ rs') n)
    → (n : ℕ) → covers rs n ≡ covers rs' n
rest_same b l h l' h' rs rs' (p, q, r, s) (p', q', r', s') same e n = ground (
  arith,
  e n,
  covers-cons l h n rs,
  covers-cons l' h' n rs',
  covers_below (h + 2) n rs s,
  covers_below (h' + 2) n rs' s',
)

Sorted-ext :
    (b : ℕ) (rs rs' : List Range)
    → Sorted b rs
    → Sorted b rs'
    → ((n : ℕ) → covers rs n ≡ covers rs' n)
    → rs ≡ rs'
Sorted-ext b [] [] s s' e = refl
Sorted-ext b [] ((l, h) ∷ rs) s s' e =
    cc (e l, covers_first l h rs s'.1, covers_below (l + 1) l [] tt (omega arith))
Sorted-ext b ((l, h) ∷ rs) [] s s' e =
    cc (e l, covers_first l h rs s.1, covers_below (l + 1) l [] tt (omega arith))
Sorted-ext b ((l, h) ∷ rs) ((l', h') ∷ rs') (p, q, r, s) (p', q', r', s') e =
    let same = same_first b l h l' h' rs rs' (p, q, r, s) (p', q', r', s') e in
    let rest = rest_same b l h l' h' rs rs' (p, q, r, s) (p', q', r', s') same e in
    ground (
      arith,
      Sorted-ext (h + 2) rs rs' s (Sorted-weaken (h + 2) (h' + 2) rs' (omega arith) s') rest,
    )

-- Two valid sets with the same members are the same value.
pub members-ext :
    (s t : ReadSet) → IsValid s → IsValid t → ((n : ℕ) → members s n ≡ members t n) → s ≡ t
members-ext s t v w e = ap (λ rs. record { ranges = rs }) (Sorted-ext 1 s.ranges t.ranges v w e)

-- Every set that `insert_range`, `remove` and the like yield from the empty one is determined by
-- its members; so the order in which numbers are collected does not matter.
collect_onto-IsValid :
    (s : ReadSet) (ns : List ℕ)
    → IsValid s
    → All (λ n. n ≤ u64_max) ns
    → IsValid (collect_onto s ns)
unfolding collect_onto insert
collect_onto-IsValid s [] v h = v
collect_onto-IsValid s (n ∷ ns) v (m, h) =
    collect_onto-IsValid (insert_range s n n) ns (insert_range-IsValid s n n v m m) h

-- Whether the list holds the number.
unfoldable pub elem : ℕ → List ℕ → Bool
elem n [] = false
elem n (m ∷ ms) = n == m || elem n ms

members-collect_onto :
    (s : ReadSet) (ns : List ℕ) (n : ℕ)
    → IsValid s
    → All (λ k. k ≤ u64_max) ns
    → members (collect_onto s ns) n ≡ (members s n || (leb 1 n && elem n ns))
unfolding collect_onto insert elem
members-collect_onto s [] n v h = ground arith
members-collect_onto s (k ∷ ns) n v (m, h) = ground (
  arith,
  members-insert_range s k k n v m m,
  members-collect_onto (insert_range s k k) ns n (insert_range-IsValid s k k v m m) h,
)

-- Collecting numbers yields a valid set that holds exactly those numbers, but 0.
pub members-from_iter :
    (ns : List ℕ) (n : ℕ)
    → All (λ k. k ≤ u64_max) ns
    → IsValid (from_iter ns) × (members (from_iter ns) n ≡ (leb 1 n && elem n ns))
unfolding from_iter covers
members-from_iter ns n h =
    (collect_onto-IsValid empty ns tt h, members-collect_onto empty ns n tt h)

-- Two lists with the same 64-bit numbers give the same set, whatever their order and repetitions.
pub from_iter-ext :
    (ns ms : List ℕ)
    → All (λ k. k ≤ u64_max) ns
    → All (λ k. k ≤ u64_max) ms
    → ((n : ℕ) → elem n ns ≡ elem n ms)
    → from_iter ns ≡ from_iter ms
from_iter-ext ns ms h k e =
    members-ext (from_iter ns) (from_iter ms) (members-from_iter ns 0 h).0
      (members-from_iter ms 0 k).0
      (λ n. cc ((members-from_iter ns n h).1, (members-from_iter ms n k).1, e n))
