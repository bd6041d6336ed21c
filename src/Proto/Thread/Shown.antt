-- ===== src/Proto/Thread/Shown.antt =====
-- Which containers are the roots of `thread` in crates/nntp-proto/src/thread.rs.
use rust_nntp.Prelude.{
  ℕ, zero, suc, ◌+◌, ◌<◌, Bool, true, false, not, ◌&&◌, Option, none, some, List, [], ◌∷◌, ◌≡◌,
  refl, subst, ◌∙◌, arith, if◌then◌else◌, length, Bool-cases, inl, inr, leb, ltb,
}
use rust_nntp.Proto.Thread.Forest.{IsForest, times_in}
use rust_nntp.Proto.Thread.Grouped.{AreRoots, times_in-filter, group_by_subject-AreRoots}
use rust_nntp.Proto.Thread.Linked.{linked-IsSound}
use rust_nntp.Proto.Thread.Roots.{
  filter, first_article, key_leb, insert_by_key, sort_by_key, count_up, is_root, roots, grouped,
}
use rust_nntp.Proto.Thread.{OverviewRecord, Arena, is_some, parent_of, linked}

times_in-insert :
    (key : ℕ → Option ℕ) (x i : ℕ) (ys : List ℕ)
    → times_in i (insert_by_key key x ys) ≡ times_in i (x ∷ ys)
unfolding insert_by_key
times_in-insert key x i [] = refl
times_in-insert key x i (y ∷ ys) = elim (Bool-cases (key_leb (key x) (key y))) [
  | inl t ↦ rw t refl
  | inr t ↦ rw t (omega (arith, times_in-insert key x i ys))
]

times_in-sort :
    (key : ℕ → Option ℕ) (i : ℕ) (xs : List ℕ) → times_in i (sort_by_key key xs) ≡ times_in i xs
unfolding sort_by_key
times_in-sort key i [] = refl
times_in-sort key i (x ∷ xs) =
    times_in-insert key x i (sort_by_key key xs) ∙ omega (arith, times_in-sort key i xs)

times_in-count_up :
    (i low n : ℕ) → times_in i (count_up low n) ≡ (if leb low i && ltb i (low + n) then 1 else 0)
times_in-count_up i low zero = ground arith
times_in-count_up i low (suc n) = ground (arith, times_in-count_up i (low + 1) n)

-- `roots` has every container without a parent that has an article in its subtree, once, and no other.
pub roots-times :
    (a : Arena) (i : ℕ)
    → times_in i (roots a) ≡ (if is_root a i && ltb i (length a.containers) then 1 else 0)
unfolding roots
roots-times a i =
    times_in-sort (first_article a) i (filter (is_root a) (count_up 0 (length a.containers)))
    ∙ times_in-filter (is_root a) i (count_up 0 (length a.containers))
    ∙ counted (is_root a i) (times_in-count_up i 0 (length a.containers))
  where
    counted :
        (b : Bool) {m : ℕ}
        → m ≡ (if leb 0 i && ltb i (0 + length a.containers) then 1 else 0)
        → (if b then m else 0) ≡ (if b && ltb i (length a.containers) then 1 else 0)
    counted true e = ground (arith, e)
    counted false e = refl

pub roots-AreRoots : (a : Arena) → AreRoots a (roots a)
unfolding is_root
roots-AreRoots a i = (
  ground (arith, roots-times a i),
  λ p. found (parent_of a i) (is_some (first_article a i)) (subst (λ m. 0 < m) (roots-times a i) p),
)
  where
    found :
        (o : Option ℕ) (b : Bool)
        → 0 < (if (not (is_some o) && b) && ltb i (length a.containers) then 1 else 0)
        → (i < length a.containers) × (o ≡ none)
    found none true h = (ground (arith, h), refl)
    found none false h = absurd (omega (arith, h))
    found (some p) b h = absurd (omega (arith, h))

-- Whatever records are threaded: the links after the grouping by subject are those of a forest, and
-- each container that had no parent before, with an article in its subtree, is once in the list
-- of roots that is left, or has become the child of another container and is not in the list.
pub grouped-roots :
    (records : List OverviewRecord)
    → IsForest (grouped records).0
      × ((i : ℕ)
          → i < length (linked records).containers
          → is_root (linked records) i ≡ true
          → times_in i (grouped records).1
            ≡ (if is_some (parent_of (grouped records).0 i) then 0 else 1))
unfolding grouped
grouped-roots records =
    let (forest, kept) =
      group_by_subject-AreRoots records (linked records) (roots (linked records))
        (linked-IsSound records).0.forest (roots-AreRoots (linked records)) in
    (forest, λ i inside root. kept i (ground (arith, roots-times (linked records) i, inside, root)))
