-- ===== src/ReadState/Set/Sorted.antt =====
-- The invariant of `ReadSet` (crates/nntp-tui/src/readstate/set.rs), and the set of numbers that
-- its ranges stand for.
use rust_nntp.Prelude.{
  ℕ, ◌+◌, ◌≤◌, ◌<◌, Bool, false, ◌&&◌, ◌||◌, List, [], ◌∷◌, ◌≡◌, refl, arith, leb, u64_max,
}
use rust_nntp.ReadState.Set.{Range, ReadSet}

-- Sorted from `b` on, disjoint, with a number missing between two ranges, and within `u64`.
abbrev pub Sorted : ℕ → List Range → Type 0
Sorted b [] = Unit
Sorted b ((l, h) ∷ rs) = (b ≤ l) × (l ≤ h) × (h ≤ u64_max) × Sorted (h + 2) rs

-- No range holds 0, since article numbers start at 1.
abbrev pub IsValid : ReadSet → Type 0
IsValid s = Sorted 1 s.ranges

abbrev pub in_range : ℕ → ℕ → ℕ → Bool
in_range low high n = leb low n && leb n high

-- The numbers that the ranges hold.
unfoldable pub covers : List Range → ℕ → Bool
covers [] n = false
covers ((l, h) ∷ rs) n = in_range l h n || covers rs n

abbrev pub members : ReadSet → ℕ → Bool
members s = covers s.ranges

pub Sorted-weaken : (a b : ℕ) (rs : List Range) → a ≤ b → Sorted b rs → Sorted a rs
Sorted-weaken a b [] h s = tt
Sorted-weaken a b ((l, k) ∷ rs) h (p, q, r, s) = (omega arith, q, r, s)

pub covers_below : (b n : ℕ) (rs : List Range) → Sorted b rs → n < b → covers rs n ≡ false
unfolding covers
covers_below b n [] s h = refl
covers_below b n ((l, k) ∷ rs) (p, q, r, s) h = ground (arith, covers_below (k + 2) n rs s)

pub covers_above : (b n : ℕ) (rs : List Range) → Sorted b rs → u64_max < n → covers rs n ≡ false
unfolding covers
covers_above b n [] s h = refl
covers_above b n ((l, k) ∷ rs) (p, q, r, s) h = ground (arith, covers_above (k + 2) n rs s)
