-- ===== src/ReadState/Set/Lookup.antt =====
-- `contains` of crates/nntp-tui/src/readstate/set.rs: the binary search by the lower bounds.
use rust_nntp.Prelude.{
  ℕ, zero, suc, ◌+◌, ◌≤◌, ◌<◌, true, false, Option, none, some, List, [], ◌∷◌, ◌≡◌, refl, inl, inr,
  arith, ltb, ◌==◌, if◌then◌else◌, Bool-cases,
}
use rust_nntp.ReadState.Set.{
  Range, ReadSet, Searched, found, absent, classify, search_low, reaches, contains_at, contains,
}
use rust_nntp.ReadState.Set.Sorted.{Sorted, IsValid, covers, members, covers_below}

-- A search behind a first range that starts below the number, given the result in the rest.
unfoldable pub shifted : Searched → Searched
shifted (found i) = found (suc i)
shifted (absent i) = absent (suc i)

classify-shifted : (n i : ℕ) (o : Option Range) → classify n (suc i) o ≡ shifted (classify n i o)
unfolding classify shifted
classify-shifted n i none = refl
classify-shifted n i (some (l, h)) = ground arith

pub search_low-cons :
    (n l h : ℕ) (rs : List Range)
    → ltb l n ≡ true
    → search_low n ((l, h) ∷ rs) ≡ shifted (search_low n rs)
unfolding search_low
search_low-cons n l h rs e = rw e (classify-shifted n _ _)

pub search_low_first :
    (n l h : ℕ) (rs : List Range)
    → ltb l n ≡ false
    → search_low n ((l, h) ∷ rs) ≡ (if l == n then found 0 else absent 0)
unfolding search_low classify
search_low_first n l h rs e = rw e

-- A number below every range is absent at the front.
pub search_low_below :
    (n b : ℕ) (rs : List Range) → n < b → Sorted b rs → search_low n rs ≡ absent 0
unfolding search_low classify
search_low_below n b [] h s = refl
search_low_below n b ((l, k) ∷ rs) h (p, q, r, s) = ground arith

-- Behind a first range that ends below the number, the answer is that of the rest.
contains_at-shifted :
    (n l h : ℕ) (rs : List Range) (a : Searched)
    → h < n
    → contains_at n ((l, h) ∷ rs) (shifted a) ≡ contains_at n rs a
unfolding contains_at reaches shifted
contains_at-shifted n l h rs (found i) hn = refl
contains_at-shifted n l h rs (absent zero) hn = ground arith
contains_at-shifted n l h rs (absent (suc i)) hn = refl

contains_at_first :
    (n l h : ℕ) (rs : List Range)
    → l ≤ h
    → Sorted (h + 2) rs
    → ltb l n ≡ false
    → contains_at n ((l, h) ∷ rs) (if l == n then found 0 else absent 0) ≡ covers ((l, h) ∷ rs) n
unfolding contains_at covers
contains_at_first n l h rs q s e = ground (arith, covers_below (h + 2) n rs s)

contains_at-covers :
    (n b : ℕ) (rs : List Range) → Sorted b rs → contains_at n rs (search_low n rs) ≡ covers rs n
unfolding covers
contains_at-covers n b [] s = unfold contains_at search_low classify in refl
contains_at-covers n b ((l, h) ∷ rs) (p, q, r, s) = elim (Bool-cases (ltb l n)) [
  | inr e ↦ rw (search_low_first n l h rs e) (contains_at_first n l h rs q s e)
  | inl e ↦ elim (Bool-cases (ltb h n)) [
    | inl past ↦
        rw
          (
            search_low-cons n l h rs e,
            contains_at-shifted n l h rs (search_low n rs) (ground arith),
          )
          (ground (arith, contains_at-covers n (h + 2) rs s))
    | inr here ↦
        rw (search_low-cons n l h rs e, search_low_below n (h + 2) rs (ground arith) s)
          (unfold contains_at reaches shifted in ground arith)
  ]
]

-- In a valid set, the binary search finds exactly the members.
pub contains-members : (s : ReadSet) (n : ℕ) → IsValid s → contains s n ≡ members s n
unfolding contains
contains-members s n v =
    ground (arith, contains_at-covers n 1 s.ranges v, covers_below 1 n s.ranges v)
