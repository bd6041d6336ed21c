-- ===== src/Proto/Thread/Ancestor.antt =====
-- `is_ancestor` and `set_parent` of crates/nntp-proto/src/thread.rs: the bound on the steps of the
-- walk is never what ends it.
use mathlib.Core.Option.{none-ne-some, some-injective}
use rust_nntp.Prelude.{
  ℕ, zero, suc, ◌+◌, ◌≤◌, ◌<◌, true, false, Option, none, some, List, [], ◌∷◌, ◌≡◌, ◌≢◌, ◌⊎◌, refl,
  sym, ap, ◌∙◌, arith, ◌==◌, if◌then◌else◌, ltb, ◌↔◌, subst, length, get_elem?, All, Bool-cases,
  inl, inr,
}
use rust_nntp.Proto.Thread.Containers.{parent_of-attach}
use rust_nntp.Proto.Thread.Forest.{IsForest, Rooted, top, up, times_in, points_to}
use rust_nntp.Proto.Thread.{
  Arena, Container, parent_of, children_of, children_in, ancestor_loop, is_ancestor, set_parent,
}

-- The numbers below `n` that stand in a list, with repetitions.
pub sum_times : List ℕ → ℕ → ℕ
sum_times xs zero = 0
sum_times xs (suc n) = times_in n xs + sum_times xs n

sum_times-nil : (n : ℕ) → sum_times [] n ≡ 0
unfolding sum_times
sum_times-nil zero = refl
sum_times-nil (suc n) = omega (arith, sum_times-nil n)

sum_times-high : (x : ℕ) (xs : List ℕ) (n : ℕ) → n ≤ x → sum_times (x ∷ xs) n ≡ sum_times xs n
unfolding sum_times
sum_times-high x xs zero h = refl
sum_times-high x xs (suc n) h = ground (arith, h, sum_times-high x xs n (omega (arith, h)))

sum_times-cons : (x : ℕ) (xs : List ℕ) (n : ℕ) → x < n → sum_times (x ∷ xs) n ≡ suc (sum_times xs n)
unfolding sum_times
sum_times-cons x xs zero h = absurd (omega (arith, h))
sum_times-cons x xs (suc n) h = elim (Bool-cases (x == n)) [
  | inl e ↦ ground (arith, e, sum_times-high x xs n (ground (arith, e)))
  | inr e ↦ ground (arith, e, sum_times-cons x xs n (ground (arith, e, h)))
]

pub sum_times-length : (xs : List ℕ) (n : ℕ) → All (λ x. x < n) xs → sum_times xs n ≡ length xs
sum_times-length [] n h = sum_times-nil n
sum_times-length (x ∷ xs) n (hx, h) = sum_times-cons x xs n hx ∙ ap suc (sum_times-length xs n h)

pub sum_times-once : (xs : List ℕ) (n : ℕ) → ((k : ℕ) → times_in k xs ≤ 1) → sum_times xs n ≤ n
unfolding sum_times
sum_times-once xs zero h = omega arith
sum_times-once xs (suc n) h = omega (arith, h n, sum_times-once xs n h)

-- The links that a walk follows, and the containers that it meets.
depth : {parent : ℕ → Option ℕ} {i : ℕ} → Rooted parent i → ℕ
depth (top e) = 0
depth (up e r) = suc (depth r)

walk : {parent : ℕ → Option ℕ} {i : ℕ} → Rooted parent i → List ℕ
walk {i = i} (top e) = i ∷ []
walk {i = i} (up e r) = i ∷ walk r

length-walk :
    {parent : ℕ → Option ℕ} {i : ℕ} (r : Rooted parent i) → length (walk r) ≡ suc (depth r)
unfolding walk depth
length-walk (top e) = refl
length-walk (up e r) = ap suc (length-walk r)

depth_unique :
    (parent : ℕ → Option ℕ) {i j : ℕ}
    → i ≡ j
    → (r : Rooted parent i) (s : Rooted parent j) → depth r ≡ depth s
unfolding depth
depth_unique parent t (top e) (top d) = refl
depth_unique parent t (top e) (up {p = k} d s) = absurd (none-ne-some k (sym e ∙ ap parent t ∙ d))
depth_unique parent t (up {p = k} e r) (top d) =
    absurd (none-ne-some k (sym d ∙ ap parent (sym t) ∙ e))
depth_unique parent t (up {p = k} e r) (up {p = m} d s) =
    ap suc (depth_unique parent (some-injective k m (sym e ∙ ap parent t ∙ d)) r s)

-- A container that is deeper is not met.
deeper_missed :
    (parent : ℕ → Option ℕ) {i k : ℕ} (r : Rooted parent i) (s : Rooted parent k)
    → depth r < depth s
    → times_in k (walk r) ≡ 0
unfolding walk depth
deeper_missed parent {i} {k} (top e) s h = elim (Bool-cases (i == k)) [
  | inl t ↦ absurd (omega (arith, h, depth_unique parent (ground (arith, t)) (top e) s))
  | inr t ↦ ground (arith, t)
]
deeper_missed parent {i} {k} (up e r) s h = elim (Bool-cases (i == k)) [
  | inl t ↦ absurd (omega (arith, h, depth_unique parent (ground (arith, t)) (up e r) s))
  | inr t ↦ ground (arith, t, deeper_missed parent r s (omega (arith, h)))
]

-- No container is met twice.
walk-once : (parent : ℕ → Option ℕ) {i : ℕ} (r : Rooted parent i) (k : ℕ) → times_in k (walk r) ≤ 1
unfolding walk depth
walk-once parent (top e) k = ground arith
walk-once parent {i} (up e r) k = elim (Bool-cases (i == k)) [
  | inl t ↦
      let same : i ≡ k = ground (arith, t) in
      rw (← same) (ground (arith, deeper_missed parent r (up e r) (omega arith)))
  | inr t ↦ ground (arith, t, walk-once parent r k)
]

-- A container with a child is in the arena.
pub parent_inside :
    (a : Arena) → IsForest a → (i p : ℕ) → parent_of a i ≡ some p → p < length a.containers
unfolding children_of
parent_inside a f i p e = elim (Bool-cases (ltb p (length a.containers))) [
  | inl t ↦ ground (arith, t)
  | inr t ↦ absurd (childless (f.counted p i) (beyond p a.containers (ground (arith, t))))
]
  where
    beyond : (j : ℕ) (cs : List Container) → length cs ≤ j → children_in (get_elem? cs j) ≡ []
    beyond j [] h = refl
    beyond zero (c ∷ cs) h = absurd (omega (arith, h))
    beyond (suc j) (c ∷ cs) h = beyond j cs (omega (arith, h))

    childless :
        times_in i (children_in (get_elem? a.containers p))
          ≡ (if points_to (parent_of a i) p then 1 else 0)
        → children_in (get_elem? a.containers p) ≡ []
        → ⊥
    childless h none_there =
        ground (arith, sym h ∙ ap (times_in i) none_there, ap (λ o. points_to o p) e)

walk-inside :
    (a : Arena)
    → IsForest a
    → {i : ℕ} (r : Rooted (parent_of a) i) → i < length a.containers
    → All (λ k. k < length a.containers) (walk r)
unfolding walk
walk-inside a f (top e) h = (h, tt)
walk-inside a f {i} (up {p = p} e r) h = (h, walk-inside a f r (parent_inside a f i p e))

-- So a walk has at most as many containers as the arena.
depth-bound :
    (a : Arena)
    → IsForest a
    → {i : ℕ} (r : Rooted (parent_of a) i) → i < length a.containers
    → depth r < length a.containers
depth-bound a f r h = omega (
  arith,
  length-walk r,
  sum_times-length (walk r) (length a.containers) (walk-inside a f r h),
  sum_times-once (walk r) (length a.containers) (walk-once (parent_of a) r),
)

-- A container is another one, or an ancestor of it.
pub data IsAbove (parent : ℕ → Option ℕ) (c : ℕ) : ℕ → Type 0 where
  at : IsAbove parent c c
  over : {i p : ℕ} → parent i ≡ some p → IsAbove parent c p → IsAbove parent c i

IsAbove-eq : (parent : ℕ → Option ℕ) (c i : ℕ) → i ≡ c → IsAbove parent c i
IsAbove-eq parent c i e = subst (IsAbove parent c) (sym e) at

IsAbove-loop :
    (a : Arena) (c : ℕ) {i : ℕ}
    → IsAbove (parent_of a) c i
    → (steps : ℕ) → ancestor_loop steps a c (some i) ≡ true
unfolding ancestor_loop
IsAbove-loop a c up_to zero = refl
IsAbove-loop a c at (suc steps) = ground arith
IsAbove-loop a c {i} (over e above) (suc steps) = elim (Bool-cases (i == c)) [
  | inl t ↦ rw t refl
  | inr t ↦ rw t (rw e (IsAbove-loop a c above steps))
]

loop-IsAbove :
    (a : Arena) (c : ℕ) {i : ℕ} (r : Rooted (parent_of a) i) (steps : ℕ)
    → depth r + 1 < steps
    → ancestor_loop steps a c (some i) ≡ true
    → IsAbove (parent_of a) c i
unfolding ancestor_loop depth
loop-IsAbove a c r zero enough h = absurd (omega (arith, enough))
loop-IsAbove a c {i} (top e) (suc zero) enough h = absurd (omega (arith, enough))
loop-IsAbove a c {i} (top e) (suc (suc steps)) enough h = elim (Bool-cases (i == c)) [
  | inl t ↦ IsAbove-eq (parent_of a) c i (ground (arith, t))
  | inr t ↦ absurd (ground (arith, rw e at (rw t at h)))
]
loop-IsAbove a c {i} (up e r) (suc steps) enough h = elim (Bool-cases (i == c)) [
  | inl t ↦ IsAbove-eq (parent_of a) c i (ground (arith, t))
  | inr t ↦ over e (loop-IsAbove a c r steps (omega (arith, enough)) (rw e at (rw t at h)))
]

is_ancestor-IsAbove :
    (a : Arena) (c i : ℕ)
    → IsForest a
    → i < length a.containers
    → (is_ancestor a c i ≡ true) ↔ IsAbove (parent_of a) c i
unfolding is_ancestor
is_ancestor-IsAbove a c i f h = (
  loop-IsAbove a c (f.rooted i) (length a.containers + 1)
      (omega (arith, depth-bound a f (f.rooted i) h)),
  λ above. IsAbove-loop a c above (length a.containers + 1),
)

-- The link is left out: the child has a parent, or is an ancestor of the new one, or is it.
abbrev pub Refuses : ℕ → ℕ → Arena → Type 0
Refuses child parent a =
    (set_parent child parent a ≡ a)
    × ((parent_of a child ≢ none) ⊎ IsAbove (parent_of a) child parent)

-- The link is made, and no other changes.
abbrev pub Links : ℕ → ℕ → Arena → Type 0
Links child parent a =
    (parent_of a child ≡ none)
    × (IsAbove (parent_of a) child parent → ⊥)
    × ((j : ℕ)
        → parent_of (set_parent child parent a) j
          ≡ (if j == child then some parent else parent_of a j))

-- In a forest, `set_parent` gives a container a parent exactly when it has none and neither is the
-- new parent nor one of its ancestors; then no other container changes its parent, and otherwise
-- nothing changes at all.
pub set_parent_lem :
    (child parent : ℕ) (a : Arena)
    → IsForest a
    → child < length a.containers
    → parent < length a.containers
    → Refuses child parent a ⊎ Links child parent a
unfolding set_parent
set_parent_lem child parent a f hc hp = elim (Bool-cases (child == parent)) [
  | inl e ↦ inl (rw e refl, inr (IsAbove-eq (parent_of a) child parent (ground (arith, e))))
  | inr e ↦ by_parent (parent_of a child) refl e
]
  where
    by_parent :
        (o : Option ℕ)
        → parent_of a child ≡ o
        → child == parent ≡ false
        → Refuses child parent a ⊎ Links child parent a
    by_parent (some p) q e = inl (rw (e, q) refl, inl (λ n. absurd (none-ne-some p (sym n ∙ q))))
    by_parent none q e = elim (Bool-cases (is_ancestor a child parent)) [
      | inl t ↦ inl (rw (e, q, t) refl, inr ((is_ancestor-IsAbove a child parent f hp).0 t))
      | inr t ↦ inr (
        q,
        (λ above. ground (arith, t, (is_ancestor-IsAbove a child parent f hp).1 above)),
        λ j. rw (e, q, t) (parent_of-attach child parent j a hc),
      )
    ]
