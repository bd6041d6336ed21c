-- ===== src/Proto/Thread/First.antt =====
-- The walk of a subtree in `first_article` of crates/nntp-proto/src/thread.rs.
use mathlib.Core.Option.{none-ne-some, some-injective}
use rust_nntp.Prelude.{
  ℕ, zero, suc, ◌+◌, ◌≤◌, ◌<◌, false, Option, none, some, List, [], ◌∷◌, ◌≡◌, ◌⊎◌, refl, sym, ap,
  ◌∙◌, arith, ◌==◌, if◌then◌else◌, length, get_elem?, All, Bool-cases, inl, inr, leb, ltb, subst,
}
use rust_nntp.Proto.Thread.Ancestor.{IsAbove, at, over, sum_times-length, sum_times-once}
use rust_nntp.Proto.Thread.Forest.{IsForest, times_in, points_to}
use rust_nntp.Proto.Thread.Roots.{least, push_all, first_loop, first_article}
use rust_nntp.Proto.Thread.{Arena, Container, parent_in, article_of, parent_of, children_of}

abbrev pub AtMost : Option ℕ → ℕ → Type 0
AtMost none m = ⊥
AtMost (some b) m = b ≤ m

least-left : (best o : Option ℕ) (m : ℕ) → AtMost best m → AtMost (least best o) m
unfolding least
least-left best none m h = h
least-left none (some k) m h = absurd h
least-left (some b) (some k) m h = omega (arith, h)

least-right : (best o : Option ℕ) (m : ℕ) → o ≡ some m → AtMost (least best o) m
unfolding least
least-right best none m h = absurd (none-ne-some m h)
least-right none (some k) m h = omega (arith, some-injective k m h)
least-right (some b) (some k) m h = omega (arith, some-injective k m h)

least-cases : (best o : Option ℕ) → (least best o ≡ best) ⊎ (least best o ≡ o)
unfolding least
least-cases best none = inl refl
least-cases none (some k) = inr refl
least-cases (some b) (some k) = elim (Bool-cases (leb b k)) [
  | inl e ↦ inl (ap some (ground (arith, e)))
  | inr e ↦ inr (ap some (ground (arith, e)))
]

times_in-push_all :
    (k : ℕ) (cs st : List ℕ) → times_in k (push_all cs st) ≡ times_in k cs + times_in k st
unfolding push_all
times_in-push_all k [] st = omega arith
times_in-push_all k (c ∷ cs) st = omega (arith, times_in-push_all k cs (c ∷ st))

-- Only a container of the arena has a parent.
child_inside : (a : Arena) (i p : ℕ) → parent_of a i ≡ some p → i < length a.containers
unfolding parent_of
child_inside a i p e = inside i a.containers e
  where
    inside : (j : ℕ) (cs : List Container) → parent_in (get_elem? cs j) ≡ some p → j < length cs
    inside j [] h = absurd (none-ne-some p h)
    inside zero (c ∷ cs) h = omega arith
    inside (suc j) (c ∷ cs) h = omega (arith, inside j cs h)

module _ (a : Arena) (id : ℕ) (forest : IsForest a) (root : parent_of a id ≡ none) where
  -- The walk has visited some containers and will visit those on the stack.
  record IsWalk (visited stack : List ℕ) (best : Option ℕ) : Type 0 where
    pub once : (k : ℕ) → times_in k visited + times_in k stack ≤ 1
    pub above : (k : ℕ) → 0 < times_in k visited + times_in k stack → IsAbove (parent_of a) id k
    pub inside : (k : ℕ) → 0 < times_in k visited + times_in k stack → k < length a.containers
    pub entered :
        (k p : ℕ)
        → 0 < times_in k visited + times_in k stack
        → parent_of a k ≡ some p
        → 0 < times_in p visited
    pub closed :
        (k p : ℕ)
        → 0 < times_in p visited
        → parent_of a k ≡ some p
        → 0 < times_in k visited + times_in k stack
    pub start : 0 < times_in id visited + times_in id stack
    pub real :
        (m : ℕ) → best ≡ some m → (j : ℕ) × IsAbove (parent_of a) id j × (article_of a j ≡ some m)
    pub lowest : (k m : ℕ) → 0 < times_in k visited → article_of a k ≡ some m → AtMost best m

  points : (k c : ℕ) → (parent_of a k ≡ some c) ⊎ (points_to (parent_of a k) c ≡ false)
  points k c = by_value (parent_of a k)
    where
      by_value : (o : Option ℕ) → (o ≡ some c) ⊎ (points_to o c ≡ false)
      by_value none = inr refl
      by_value (some p) = elim (Bool-cases (p == c)) [
        | inl e ↦ inl (ap some (ground (arith, e)))
        | inr e ↦ inr e
      ]

  -- The container on top of the stack is visited, and its children are pushed.
  module _ (visited : List ℕ) (c : ℕ) (stack : List ℕ) (best : Option ℕ)
      (w : IsWalk visited (c ∷ stack) best) where
    pushed : List ℕ
    pushed = push_all (children_of a c) stack

    times_in-pushed :
        (k : ℕ)
        → times_in k pushed ≡ (if points_to (parent_of a k) c then 1 else 0) + times_in k stack
    unfolding pushed
    times_in-pushed k =
        times_in-push_all k (children_of a c) stack
        ∙ ap (λ m. m + times_in k stack) (forest.counted c k)

    -- A child of it is not seen before.
    child_new : (k : ℕ) → parent_of a k ≡ some c → times_in k visited + times_in k (c ∷ stack) ≡ 0
    child_new k e = elim (Bool-cases (ltb 0 (times_in k visited + times_in k (c ∷ stack)))) [
      | inl t ↦ absurd (ground (arith, w.entered k c (ground (arith, t)) e, w.once c))
      | inr t ↦ ground (arith, t)
    ]

    child_times : (k : ℕ) → parent_of a k ≡ some c → times_in k pushed ≡ 1 + times_in k stack
    child_times k e = times_in-pushed k ∙ rw e (ground arith)

    other_times :
        (k : ℕ) → points_to (parent_of a k) c ≡ false → times_in k pushed ≡ times_in k stack
    other_times k e = times_in-pushed k ∙ rw e (omega arith)

    child_or_seen :
        (k : ℕ)
        → 0 < times_in k (c ∷ visited) + times_in k pushed
        → (parent_of a k ≡ some c) ⊎ (0 < times_in k visited + times_in k (c ∷ stack))
    child_or_seen k h = elim (points k c) [
      | inl e ↦ inl e
      | inr e ↦ inr (omega (arith, h, other_times k e))
    ]

    step-IsWalk : IsWalk (c ∷ visited) pushed (least best (article_of a c))
    step-IsWalk = record {
      once = λ k. elim (points k c) [
        | inl e ↦ omega (arith, child_new k e, child_times k e)
        | inr e ↦ omega (arith, w.once k, other_times k e)
      ];
      above = λ k h. elim (child_or_seen k h) [
        | inl e ↦ over e (w.above c (ground arith))
        | inr d ↦ w.above k d
      ];
      inside =
          λ k h. elim (child_or_seen k h) [ inl e ↦ child_inside a k c e | inr d ↦ w.inside k d ];
      entered = λ k p h e. elim (child_or_seen k h) [
        | inl d ↦ let t : c ≡ p = some-injective c p (sym d ∙ e) in ground (arith, t)
        | inr d ↦ omega (arith, w.entered k p d e)
      ];
      closed = λ k p h e. elim (Bool-cases (c == p)) [
        | inl t ↦ let m : p ≡ c = ground (arith, t) in omega (arith, child_times k (e ∙ ap some m))
        | inr t ↦ at_old k (w.closed k p (ground (arith, t, h)) e)
      ];
      start = at_old id w.start;
      real = λ m e. elim (least-cases best (article_of a c)) [
        | inl t ↦ w.real m (sym t ∙ e)
        | inr t ↦ (c, w.above c (ground arith), sym t ∙ e)
      ];
      lowest = λ k m h e. elim (Bool-cases (c == k)) [
        | inl t ↦
            let n : c ≡ k = ground (arith, t) in
            least-right best (article_of a c) m (ap (article_of a) n ∙ e)
        | inr t ↦ least-left best (article_of a c) m (w.lowest k m (ground (arith, t, h)) e)
      ];
    }
      where
        at_old :
            (k : ℕ)
            → 0 < times_in k visited + times_in k (c ∷ stack)
            → 0 < times_in k (c ∷ visited) + times_in k pushed
        at_old k h = omega (arith, h, times_in-pushed k)

  -- The least article of those that are above.
  pub record IsLeast (o : Option ℕ) : Type 0 where
    pub held_below :
        (m : ℕ) → o ≡ some m → (j : ℕ) × IsAbove (parent_of a) id j × (article_of a j ≡ some m)
    pub none_lower : (j m : ℕ) → IsAbove (parent_of a) id j → article_of a j ≡ some m → AtMost o m

  complete :
      (visited : List ℕ) (best : Option ℕ)
      → IsWalk visited [] best
      → (j : ℕ) → IsAbove (parent_of a) id j
      → 0 < times_in j visited
  complete visited best w j at = omega (arith, w.start)
  complete visited best w j (over {p = p} e above) =
      omega (arith, w.closed j p (complete visited best w p above) e)

  few_visited :
      (visited stack : List ℕ) (best : Option ℕ)
      → IsWalk visited stack best
      → length visited ≤ length a.containers
  few_visited visited stack best w = omega (
    arith,
    sum_times-length visited (length a.containers)
        (all_inside visited (λ k h. w.inside k (omega (arith, h)))),
    sum_times-once visited (length a.containers) (λ k. omega (arith, w.once k)),
  )
    where
      all_inside :
          (xs : List ℕ)
          → ((k : ℕ) → 0 < times_in k xs → k < length a.containers)
          → All (λ k. k < length a.containers) xs
      all_inside [] h = tt
      all_inside (x ∷ xs) h = (h x (ground arith), all_inside xs (λ k d. h k (omega (arith, d))))

  walk-IsLeast :
      (steps : ℕ) (visited stack : List ℕ) (best : Option ℕ)
      → steps + length visited ≡ length a.containers + 1
      → IsWalk visited stack best
      → IsLeast (first_loop steps a stack best)
  unfolding first_loop
  walk-IsLeast zero visited stack best e w =
      absurd (omega (arith, e, few_visited visited stack best w))
  walk-IsLeast (suc steps) visited [] best e w = record {
    held_below = w.real;
    none_lower = λ j m h d. w.lowest j m (complete visited best w j h) d;
  }
  walk-IsLeast (suc steps) visited (c ∷ stack) best e w =
      walk-IsLeast steps (c ∷ visited) (push_all (children_of a c) stack)
        (least best (article_of a c)) (omega (arith, e))
        (unfold pushed in step-IsWalk visited c stack best w)

  pub first_article-IsLeast : id < length a.containers → IsLeast (first_article a id)
  unfolding first_article
  first_article-IsLeast h =
      walk-IsLeast (length a.containers + 1) [] (id ∷ []) (article_of a id) (omega arith) start
    where
      only : (k : ℕ) → 0 < times_in k [] + times_in k (id ∷ []) → id ≡ k
      only k d = ground (arith, d)

      start : IsWalk [] (id ∷ []) (article_of a id)
      start = record {
        once = λ k. ground arith;
        above = λ k d. subst (IsAbove (parent_of a) id) (only k d) at;
        inside = λ k d. ground (arith, d, h);
        entered = λ k p d e. absurd (none-ne-some p (sym root ∙ ap (parent_of a) (only k d) ∙ e));
        closed = λ k p d e. absurd (omega (arith, d));
        start = ground arith;
        real = λ m e. (id, at, e);
        lowest = λ k m d e. absurd (omega (arith, d));
      }
