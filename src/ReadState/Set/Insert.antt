-- ===== src/ReadState/Set/Insert.antt =====
-- `insert_range` of crates/nntp-tui/src/readstate/set.rs: the ranges that touch the new one are
-- merged into it, and the others stay.
use rust_nntp.Prelude.{
  ℕ, zero, suc, ◌+◌, ◌-◌, ◌≤◌, min, max, true, false, ◌&&◌, ◌||◌, List, [], ◌∷◌, ◌≡◌, ◌⊎◌, inl, inr,
  refl, arith, ltb, leb, Bool-cases, take, drop, partition_point, u64_max,
}
use rust_nntp.ReadState.Set.{Range, ReadSet, merge_all, merge_between, insert_pair, insert_range}
use rust_nntp.ReadState.Set.Sorted.{Sorted, IsValid, in_range, covers, members}

-- `m` merged with the ranges that start at `to` or below, in front of those that start above.
absorb : ℕ → Range → List Range → List Range
absorb to m rs =
    let last = partition_point (λ r. leb r.0 to) rs in merge_all m (take last rs) ∷ drop last rs

absorb_step :
    (to a c l h : ℕ) (rs : List Range)
    → leb l to ≡ true
    → absorb to (a, c) ((l, h) ∷ rs) ≡ absorb to (min a l, max c h) rs
unfolding absorb merge_all
absorb_step to a c l h rs e = rw e

absorb_stop :
    (to a c l h : ℕ) (rs : List Range)
    → leb l to ≡ false
    → absorb to (a, c) ((l, h) ∷ rs) ≡ (a, c) ∷ (l, h) ∷ rs
unfolding absorb merge_all
absorb_stop to a c l h rs e = rw e

-- The saturated end of the merge window.
abbrev window : ℕ → ℕ
window hi = min (hi + 1) u64_max

absorb-Sorted :
    (hi x a c b : ℕ) (rs : List Range)
    → Sorted b rs
    → x ≤ a
    → x ≤ b
    → a ≤ c
    → c ≤ u64_max
    → hi ≤ c
    → (c ≤ hi) ⊎ (c + 2 ≤ b)
    → Sorted x (absorb (window hi) (a, c) rs)
absorb-Sorted hi x a c b [] s xa xb ac cm hc d = unfold absorb merge_all in omega arith
absorb-Sorted hi x a c b ((l, h) ∷ rs) (p, q, r, s) xa xb ac cm hc d =
    elim (Bool-cases (leb l (window hi))) [
      | inl e ↦ rw (absorb_step (window hi) a c l h rs e) (
          absorb-Sorted hi x (min a l) (max c h) (h + 2) rs s (omega arith) (omega arith)
            (omega arith) (omega arith) (omega arith) (omega arith))
      | inr e ↦ rw (absorb_stop (window hi) a c l h rs e) (ground arith)
    ]

absorb-covers :
    (hi n a c b : ℕ) (rs : List Range)
    → Sorted b rs
    → a ≤ b + 1
    → a ≤ c
    → hi ≤ c
    → covers (absorb (window hi) (a, c) rs) n ≡ (in_range a c n || covers rs n)
absorb-covers hi n a c b [] s ab ac hc = unfold absorb merge_all covers in refl
absorb-covers hi n a c b ((l, h) ∷ rs) (p, q, r, s) ab ac hc =
    elim (Bool-cases (leb l (window hi))) [
      | inl e ↦
          rw
            (
              absorb_step (window hi) a c l h rs e,
              absorb-covers hi n (min a l) (max c h) (h + 2) rs s (omega arith) (omega arith)
                  (omega arith),
            )
            (unfold covers in ground arith)
      | inr e ↦ rw (absorb_stop (window hi) a c l h rs e) (unfold covers in refl)
    ]

-- The merge at the first range that touches the new one.
absorb_first-covers :
    (lo hi n l h : ℕ) (rs : List Range)
    → l ≤ h
    → Sorted (h + 2) rs
    → lo ≤ hi
    → lo ≤ h + 1
    → covers (absorb (window hi) (lo, hi) ((l, h) ∷ rs)) n
      ≡ (in_range lo hi n || covers ((l, h) ∷ rs) n)
absorb_first-covers lo hi n l h rs q s lh touch = elim (Bool-cases (leb l (window hi))) [
  | inl e ↦
      rw
        (
          absorb_step (window hi) lo hi l h rs e,
          absorb-covers hi n (min lo l) (max hi h) (h + 2) rs s (omega arith) (omega arith)
              (omega arith),
        )
        (unfold covers in ground arith)
  | inr e ↦ rw (absorb_stop (window hi) lo hi l h rs e) (unfold covers in refl)
]

merge_between-suc :
    (lo hi first last : ℕ) (r : Range) (rs : List Range)
    → merge_between lo hi (suc first) (suc last) (r ∷ rs) ≡ r ∷ merge_between lo hi first last rs
unfolding merge_between
merge_between-suc lo hi first last r rs =
    let same : suc last - suc first ≡ last - first = omega arith in
    elim (Bool-cases (leb last first)) [
      | inl e ↦ rw (e, (let f : leb (suc last) (suc first) ≡ true = ground arith in f))
      | inr e ↦ rw (same, e, (let f : leb (suc last) (suc first) ≡ false = ground arith in f))
    ]

merge_between-zero :
    (lo hi last : ℕ) (rs : List Range)
    → merge_between lo hi 0 last rs ≡ merge_all (lo, hi) (take last rs) ∷ drop last rs
unfolding merge_between merge_all
merge_between-zero lo hi zero rs = refl
merge_between-zero lo hi (suc last) rs =
    let test : leb (suc last) 0 ≡ false = ground arith in
    let all : suc last - 0 ≡ suc last = omega arith in rw (test, all)

-- A range below the window stays in front.
insert_pair_below :
    (lo hi l h : ℕ) (rs : List Range)
    → l ≤ h
    → lo ≤ hi
    → hi ≤ u64_max
    → ltb h (lo - 1) ≡ true
    → insert_pair lo hi ((l, h) ∷ rs) ≡ (l, h) ∷ insert_pair lo hi rs
unfolding insert_pair
insert_pair_below lo hi l h rs lh lohi him first =
    let last : leb l (window hi) ≡ true = ground arith in
    rw (first, last) (merge_between-suc lo hi _ _ (l, h) rs)

-- From the first range that is not below the window on, the insertion is a merge.
insert_pair-absorb :
    (lo hi l h : ℕ) (rs : List Range)
    → l ≤ h
    → ltb h (lo - 1) ≡ false
    → insert_pair lo hi ((l, h) ∷ rs) ≡ absorb (window hi) (lo, hi) ((l, h) ∷ rs)
unfolding insert_pair absorb
insert_pair-absorb lo hi l h rs lh e = rw e (merge_between-zero lo hi _ _)

insert_pair-Sorted :
    (lo hi b : ℕ) (rs : List Range)
    → Sorted b rs
    → b ≤ lo
    → lo ≤ hi
    → hi ≤ u64_max
    → Sorted b (insert_pair lo hi rs)
insert_pair-Sorted lo hi b [] s bl lh hm = unfold insert_pair merge_between in omega arith
insert_pair-Sorted lo hi b ((l, h) ∷ rs) (p, q, r, s) bl lh hm =
    elim (Bool-cases (ltb h (lo - 1))) [
      | inl e ↦
          rw (insert_pair_below lo hi l h rs q lh hm e)
            (p, q, r, insert_pair-Sorted lo hi (h + 2) rs s (ground arith) lh hm)
      | inr e ↦ rw (insert_pair-absorb lo hi l h rs q e) (
          absorb-Sorted hi b lo hi b ((l, h) ∷ rs) (p, q, r, s) bl (omega arith) lh hm (omega arith)
            (inl (omega arith)))
    ]

insert_pair-covers :
    (lo hi n b : ℕ) (rs : List Range)
    → Sorted b rs
    → lo ≤ hi
    → hi ≤ u64_max
    → covers (insert_pair lo hi rs) n ≡ (in_range lo hi n || covers rs n)
unfolding covers
insert_pair-covers lo hi n b [] s lh hm = unfold insert_pair merge_between in refl
insert_pair-covers lo hi n b ((l, h) ∷ rs) (p, q, r, s) lh hm = elim (Bool-cases (ltb h (lo - 1))) [
  | inl e ↦
      rw (insert_pair_below lo hi l h rs q lh hm e)
        (ground (arith, insert_pair-covers lo hi n (h + 2) rs s lh hm))
  | inr e ↦
      rw (insert_pair-absorb lo hi l h rs q e)
        (absorb_first-covers lo hi n l h rs q s lh (ground arith))
]

-- `insert_range` keeps the invariant, whatever the bounds.
pub insert_range-IsValid :
    (s : ReadSet) (low high : ℕ)
    → IsValid s
    → low ≤ u64_max
    → high ≤ u64_max
    → IsValid (insert_range s low high)
unfolding insert_range
insert_range-IsValid s low high v lm hm = ground (
  arith,
  insert_pair-Sorted (max low 1) high 1 s.ranges v,
  insert_pair-Sorted (max high 1) low 1 s.ranges v,
)

-- To a valid set, `insert_range` with two 64-bit bounds adds the numbers between these, in either
-- order, and no other: 0 is never added.
pub members-insert_range :
    (s : ReadSet) (low high n : ℕ)
    → IsValid s
    → low ≤ u64_max
    → high ≤ u64_max
    → members (insert_range s low high) n
      ≡ ((leb 1 n && in_range (min low high) (max low high) n) || members s n)
unfolding insert_range
members-insert_range s low high n v lm hm = ground (
  arith,
  insert_pair-covers (max low 1) high n 1 s.ranges v,
  insert_pair-covers (max high 1) low n 1 s.ranges v,
)
