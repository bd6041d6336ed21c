-- ===== src/ReadState/Set/Remove.antt =====
-- `remove` and `remove_range` of crates/nntp-tui/src/readstate/set.rs: ranges are split.
use rust_nntp.Prelude.{
  ℕ, zero, suc, ◌+◌, ◌-◌, ◌≤◌, ◌<◌, min, max, not, ◌&&◌, ◌||◌, Option, none, some, List, [], ◌∷◌,
  ◌++◌, ◌≡◌, refl, inl, inr, arith, ltb, ◌==◌, if◌then◌else◌, Bool-cases, u64_max,
}
use rust_nntp.ReadState.Set.{
  Range, ReadSet, Searched, found, absent, search_low, replacement, classify, remove_at,
  remove_found, remove, keep_outside, remove_pair, remove_range,
}
use rust_nntp.ReadState.Set.Lookup.{shifted, search_low-cons, search_low_first, search_low_below}
use rust_nntp.ReadState.Set.Sorted.{
  Sorted, Sorted-weaken, IsValid, covers, members, covers_below, in_range,
}

remove_at-suc :
    (n l h i : ℕ) (rs : List Range) (o : Option Range)
    → remove_at n ((l, h) ∷ rs) (suc i) o ≡ (l, h) ∷ remove_at n rs i o
unfolding remove_at
remove_at-suc n l h i rs none = refl
remove_at-suc n l h i rs (some (l', h')) =
    let next : suc i + 1 ≡ suc (i + 1) = omega arith in
    elim (Bool-cases (ltb n l' || ltb h' n)) [ inl e ↦ rw e | inr e ↦ rw (e, next) ]

remove_found-shifted :
    (n l h : ℕ) (rs : List Range) (a : Searched)
    → h < n
    → remove_found n ((l, h) ∷ rs) (shifted a) ≡ (l, h) ∷ remove_found n rs a
unfolding remove_found shifted
remove_found-shifted n l h rs (found i) hn = remove_at-suc n l h i rs _
remove_found-shifted n l h rs (absent zero) hn = unfold remove_at in ground arith
remove_found-shifted n l h rs (absent (suc i)) hn = remove_at-suc n l h i rs _

remove_at_first :
    (n l h : ℕ) (rs : List Range)
    → remove_at n ((l, h) ∷ rs) 0 (some (l, h))
      ≡ (if ltb n l || ltb h n then (l, h) ∷ rs else replacement n (l, h) ++ rs)
unfolding remove_at
remove_at_first n l h rs = refl

-- The search and the splice, as one pass over the ranges.
abbrev searched : ℕ → List Range → List Range
searched n rs = remove_found n rs (search_low n rs)

searched_past :
    (n l h : ℕ) (rs : List Range)
    → l ≤ h
    → h < n
    → searched n ((l, h) ∷ rs) ≡ (l, h) ∷ searched n rs
searched_past n l h rs q hn =
    rw (search_low-cons n l h rs (ground arith)) (remove_found-shifted n l h rs _ hn)

searched_here :
    (n l h : ℕ) (rs : List Range)
    → Sorted (h + 2) rs
    → n ≤ h
    → searched n ((l, h) ∷ rs)
      ≡ (if ltb n l || ltb h n then (l, h) ∷ rs else replacement n (l, h) ++ rs)
searched_here n l h rs s nh = elim (Bool-cases (ltb l n)) [
  | inl e ↦
      rw (search_low-cons n l h rs e, search_low_below n (h + 2) rs (omega arith) s)
        (unfold remove_found shifted in remove_at_first n l h rs)
  | inr e ↦
      rw (search_low_first n l h rs e)
        (unfold remove_found in ground (arith, remove_at_first n l h rs))
]

replacement-Sorted :
    (n b l h : ℕ) (rs : List Range)
    → Sorted b ((l, h) ∷ rs)
    → 1 ≤ n
    → l ≤ n
    → n ≤ h
    → Sorted b (replacement n (l, h) ++ rs)
unfolding replacement
replacement-Sorted n b l h rs (p, q, r, s) n1 ln nh = ground (
  arith,
  Sorted-weaken b (h + 2) rs (omega arith) s,
  Sorted-weaken (h - 1 + 2) (h + 2) rs (omega arith) s,
)

replacement-covers :
    (n b l h k : ℕ) (rs : List Range)
    → Sorted b ((l, h) ∷ rs)
    → 1 ≤ n
    → l ≤ n
    → n ≤ h
    → covers (replacement n (l, h) ++ rs) k ≡ (covers ((l, h) ∷ rs) k && not (k == n))
unfolding replacement covers
replacement-covers n b l h k rs (p, q, r, s) n1 ln nh = ground (arith, covers_below (h + 2) k rs s)

searched-Sorted : (n b : ℕ) (rs : List Range) → 1 ≤ n → Sorted b rs → Sorted b (searched n rs)
searched-Sorted n b [] n1 s = unfold remove_found remove_at search_low classify in tt
searched-Sorted n b ((l, h) ∷ rs) n1 (p, q, r, s) = elim (Bool-cases (ltb h n)) [
  | inl e ↦
      rw (searched_past n l h rs q (ground arith)) (p, q, r, searched-Sorted n (h + 2) rs n1 s)
  | inr e ↦
      rw (searched_here n l h rs s (ground arith))
        (ground (arith, replacement-Sorted n b l h rs (p, q, r, s) n1))
]

-- A first range that ends below the number stays.
keep_first :
    (n l h k : ℕ) (rs rs' : List Range)
    → h < n
    → covers rs' k ≡ (covers rs k && not (k == n))
    → covers ((l, h) ∷ rs') k ≡ (covers ((l, h) ∷ rs) k && not (k == n))
unfolding covers
keep_first n l h k rs rs' hn e = ground arith

-- A number below the first range is no member.
not_member :
    (n l h k : ℕ) (rs : List Range)
    → l ≤ h
    → Sorted (h + 2) rs
    → n < l
    → covers ((l, h) ∷ rs) k ≡ (covers ((l, h) ∷ rs) k && not (k == n))
unfolding covers
not_member n l h k rs q s below = ground (arith, covers_below (h + 2) k rs s)

searched-covers :
    (n b k : ℕ) (rs : List Range)
    → 1 ≤ n
    → Sorted b rs
    → covers (searched n rs) k ≡ (covers rs k && not (k == n))
searched-covers n b k [] n1 s = unfold remove_found remove_at search_low classify covers in refl
searched-covers n b k ((l, h) ∷ rs) n1 (p, q, r, s) = elim (Bool-cases (ltb h n)) [
  | inl e ↦
      rw (searched_past n l h rs q (ground arith))
        (keep_first n l h k rs (searched n rs) (ground arith) (searched-covers n (h + 2) k rs n1 s))
  | inr e ↦
      rw (searched_here n l h rs s (ground arith))
        (ground (arith, not_member n l h k rs q s, replacement-covers n b l h k rs (p, q, r, s) n1))
]

-- `remove` keeps the invariant.
pub remove-IsValid : (s : ReadSet) (n : ℕ) → IsValid s → IsValid (remove s n)
unfolding remove
remove-IsValid s n v = ground (arith, λ (p : 1 ≤ n). searched-Sorted n 1 s.ranges p v)

-- `remove` takes out exactly the given number.
pub members-remove :
    (s : ReadSet) (n k : ℕ) → IsValid s → members (remove s n) k ≡ (members s k && not (k == n))
unfolding remove
members-remove s n k v =
    ground (arith, λ (p : 1 ≤ n). searched-covers n 1 k s.ranges p v, covers_below 1 k s.ranges v)

keep_outside-Sorted :
    (lo hi b l h : ℕ) (rs : List Range)
    → 1 ≤ lo
    → lo ≤ hi
    → Sorted b ((l, h) ∷ [])
    → Sorted (h + 2) rs
    → Sorted b (keep_outside lo hi (l, h) ++ rs)
unfolding keep_outside
keep_outside-Sorted lo hi b l h rs l1 lh (p, q, r, _) s =
    ground
      (arith, Sorted-weaken b (h + 2) rs (omega arith) s, Sorted-weaken (lo - 1 + 2) (h + 2) rs)

keep_outside-covers :
    (lo hi l h k : ℕ) (rs : List Range)
    → 1 ≤ lo
    → lo ≤ hi
    → l ≤ h
    → h ≤ u64_max
    → covers (keep_outside lo hi (l, h) ++ rs) k
      ≡ ((in_range l h k && not (in_range lo hi k)) || covers rs k)
unfolding keep_outside covers
keep_outside-covers lo hi l h k rs l1 lh q r = ground arith

remove_pair-Sorted :
    (lo hi b : ℕ) (rs : List Range)
    → Sorted b rs
    → 1 ≤ lo
    → lo ≤ hi
    → Sorted b (remove_pair lo hi rs)
unfolding remove_pair
remove_pair-Sorted lo hi b [] s l1 lh = tt
remove_pair-Sorted lo hi b ((l, h) ∷ rs) (p, q, r, s) l1 lh =
    keep_outside-Sorted lo hi b l h (remove_pair lo hi rs) l1 lh (p, q, r, tt)
      (remove_pair-Sorted lo hi (h + 2) rs s l1 lh)

remove_pair-covers :
    (lo hi b k : ℕ) (rs : List Range)
    → Sorted b rs
    → 1 ≤ lo
    → lo ≤ hi
    → covers (remove_pair lo hi rs) k ≡ (covers rs k && not (in_range lo hi k))
unfolding remove_pair covers
remove_pair-covers lo hi b k [] s l1 lh = refl
remove_pair-covers lo hi b k ((l, h) ∷ rs) (p, q, r, s) l1 lh =
    rw (keep_outside-covers lo hi l h k (remove_pair lo hi rs) l1 lh q r)
      (ground (arith, remove_pair-covers lo hi (h + 2) k rs s l1 lh))

-- `remove_range` keeps the invariant.
pub remove_range-IsValid :
    (s : ReadSet) (low high : ℕ) → IsValid s → IsValid (remove_range s low high)
unfolding remove_range
remove_range-IsValid s low high v = ground (
  arith,
  remove_pair-Sorted (max low 1) high 1 s.ranges v,
  remove_pair-Sorted (max high 1) low 1 s.ranges v,
)

-- From a valid set, `remove_range` takes out exactly the numbers between its bounds, in either order.
pub members-remove_range :
    (s : ReadSet) (low high n : ℕ)
    → IsValid s
    → members (remove_range s low high) n
      ≡ (members s n && not (in_range (min low high) (max low high) n))
unfolding remove_range
members-remove_range s low high n v = ground (
  arith,
  remove_pair-covers (max low 1) high 1 n s.ranges v,
  remove_pair-covers (max high 1) low 1 n s.ranges v,
  covers_below 1 n s.ranges v,
)
