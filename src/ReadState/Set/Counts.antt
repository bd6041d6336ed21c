-- ===== src/ReadState/Set/Counts.antt =====
-- `count`, `read_in` and `unread_in` of crates/nntp-tui/src/readstate/set.rs: the counts are the
-- numbers of members, and the `u64` sums do not wrap around.
use rust_nntp.Prelude.{
  ℕ, zero, suc, ◌+◌, ◌-◌, ◌≤◌, min, max, Bool, not, List, [], ◌∷◌, ◌≡◌, refl, ◌∙◌, arith,
  if◌then◌else◌, u64_max,
}
use rust_nntp.ReadState.Set.{
  Range, ReadSet, width, count_ranges, count, overlap, overlaps, read_in, unread_in,
}
use rust_nntp.ReadState.Set.Sorted.{Sorted, IsValid, in_range, covers, members, covers_below}

-- How many of the `n` numbers from `low` on satisfy the test.
unfoldable pub tally : (ℕ → Bool) → ℕ → ℕ → ℕ
tally p low zero = 0
tally p low (suc n) = (if p (low + n) then 1 else 0) + tally p low n

tally-le : (p : ℕ → Bool) (low n : ℕ) → tally p low n ≤ n
unfolding tally
tally-le p low zero = omega arith
tally-le p low (suc n) = ground (arith, tally-le p low n)

tally-not : (p : ℕ → Bool) (low n : ℕ) → tally (λ k. not (p k)) low n + tally p low n ≡ n
unfolding tally
tally-not p low zero = omega arith
tally-not p low (suc n) = ground (arith, tally-not p low n)

-- The length of the part of `l..=h` within the `n` numbers from `low` on.
abbrev common : ℕ → ℕ → ℕ → ℕ → ℕ
common low n l h = min (h + 1) (low + n) - max l low

tally_range : (low n l h : ℕ) → l ≤ h → tally (in_range l h) low n ≡ common low n l h
unfolding tally
tally_range low zero l h q = omega arith
tally_range low (suc n) l h q = ground (arith, tally_range low n l h q)

tally-covers :
    (low n l h : ℕ) (rs : List Range)
    → l ≤ h
    → Sorted (h + 2) rs
    → tally (covers ((l, h) ∷ rs)) low n ≡ tally (in_range l h) low n + tally (covers rs) low n
unfolding covers tally
tally-covers low zero l h rs q s = omega arith
tally-covers low (suc n) l h rs q s =
    ground (arith, tally-covers low n l h rs q s, covers_below (h + 2) (low + n) rs s)

overlap_lem :
    (low high l h : ℕ)
    → low ≤ high
    → 1 ≤ low
    → high ≤ u64_max
    → l ≤ h
    → overlap low high (l, h) ≡ common low (high + 1 - low) l h
unfolding overlap
overlap_lem low high l h lh l1 hm q = ground arith

tally-nil : (low n : ℕ) → tally (covers []) low n ≡ 0
unfolding tally covers
tally-nil low zero = refl
tally-nil low (suc n) = omega (arith, tally-nil low n)

overlaps_lem :
    (low high b : ℕ) (rs : List Range)
    → Sorted b rs
    → low ≤ high
    → 1 ≤ low
    → high ≤ u64_max
    → overlaps low high rs ≡ tally (covers rs) low (high + 1 - low)
unfolding overlaps
overlaps_lem low high b [] s lh l1 hm = omega (arith, tally-nil low (high + 1 - low))
overlaps_lem low high b ((l, h) ∷ rs) (p, q, r, s) lh l1 hm = omega (
  arith,
  overlap_lem low high l h lh l1 hm q,
  overlaps_lem low high (h + 2) rs s lh l1 hm,
  tally_range low (high + 1 - low) l h q,
  tally-covers low (high + 1 - low) l h rs q s,
  tally-le (covers ((l, h) ∷ rs)) low (high + 1 - low),
)

tally_none : (p : ℕ → Bool) (low n : ℕ) → n ≡ 0 → tally p low n ≡ 0
unfolding tally
tally_none p low zero e = refl
tally_none p low (suc n) e = absurd (omega arith)

-- `read_in` is the number of members between the bounds, and 0 if there is nothing between them.
pub read_in-tally :
    (s : ReadSet) (low high : ℕ)
    → IsValid s
    → high ≤ u64_max
    → read_in s low high ≡ tally (members s) (max low 1) (high + 1 - max low 1)
unfolding read_in
read_in-tally s low high v hm = ground (
  arith,
  overlaps_lem (max low 1) high 1 s.ranges v,
  tally_none (members s) (max low 1) (high + 1 - max low 1),
)

-- Of a valid set and a 64-bit upper bound, `unread_in` is the number of article numbers between the
-- bounds that are not members.
pub unread_in-tally :
    (s : ReadSet) (low high : ℕ)
    → IsValid s
    → high ≤ u64_max
    → unread_in s low high ≡ tally (λ n. not (members s n)) (max low 1) (high + 1 - max low 1)
unfolding unread_in
unread_in-tally s low high v hm =
    let from = max low 1 in
    let span = high + 1 - from in
    ground (
      arith,
      read_in-tally s from high v hm,
      tally-not (members s) from span,
      tally_none (λ n. not (members s n)) from span,
    )

overlap_whole : (l h : ℕ) → 1 ≤ l → l ≤ h → h ≤ u64_max → overlap 1 u64_max (l, h) ≡ width (l, h)
unfolding overlap
overlap_whole l h l1 q r = ground arith

count_ranges-overlaps :
    (b : ℕ) (rs : List Range) → 1 ≤ b → Sorted b rs → count_ranges rs ≡ overlaps 1 u64_max rs
unfolding count_ranges overlaps
count_ranges-overlaps b [] b1 s = refl
count_ranges-overlaps b ((l, h) ∷ rs) b1 (p, q, r, s) =
    cc (overlap_whole l h (omega arith) q r, count_ranges-overlaps (h + 2) rs (omega arith) s)

-- Of a valid set, `count` is the number of members: the sum of the widths does not wrap around.
pub count-tally : (s : ReadSet) → IsValid s → count s ≡ tally (members s) 1 u64_max
unfolding count
count-tally s v =
    count_ranges-overlaps 1 s.ranges (omega arith) v
    ∙ overlaps_lem 1 u64_max 1 s.ranges v (omega arith) (omega arith) (omega arith)
