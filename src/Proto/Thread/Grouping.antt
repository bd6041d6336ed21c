-- ===== src/Proto/Thread/Grouping.antt =====
-- `group_by_subject` of crates/nntp-proto/src/thread.rs loses no root.
use mathlib.Core.Option.{none-ne-some, some-injective}
use rust_nntp.Prelude.SortedMap.Laws.{lookup-cons}
use rust_nntp.Prelude.SortedMap.Order.{same-eq}
use rust_nntp.Prelude.SortedMap.{lookup, same}
use rust_nntp.Prelude.Text.{Bytes}
use rust_nntp.Prelude.{
  ℕ, ◌≤◌, ◌<◌, Bool, true, false, ◌||◌, none, some, List, [], ◌∷◌, ◌++◌, ◌≡◌, ◌≢◌, ◌⊎◌, refl, sym,
  ap, ◌∙◌, arith, ◌==◌, if◌then◌else◌, length, any, Bool-cases, inl, inr,
}
use rust_nntp.Proto.Thread.Ancestor.{IsAbove, at, over, set_parent_lem}
use rust_nntp.Proto.Thread.Forest.{IsForest, times_in, set_parent-IsForest}
use rust_nntp.Proto.Thread.Linked.{set_parent-same}
use rust_nntp.Proto.Thread.Roots.{Grouping, merge}
use rust_nntp.Proto.Thread.{Arena, is_some, article_of, parent_of, set_parent}

-- While `ids` are left of the roots `all_ids`, in an arena of `n` containers: those that are left and
-- those that hold a subject have no parent, and the merged ones are those with a parent.
pub record IsGrouping (a0 : Arena) (n : ℕ) (all_ids ids : List ℕ) (g : Grouping) : Type 0 where
  pub forest : IsForest g.arena
  pub size : length g.arena.containers ≡ n
  pub held :
      (s : Bytes) (h : ℕ)
      → lookup s g.holders ≡ some h
      → (h < n) × (parent_of g.arena h ≡ none) × (times_in h ids ≡ 0) × (0 < times_in h all_ids)
  pub one_subject :
      (s t : Bytes) (h : ℕ) → lookup s g.holders ≡ some h → lookup t g.holders ≡ some h → s ≡ t
  pub waiting : (i : ℕ) → 0 < times_in i ids → (i < n) × (parent_of g.arena i ≡ none)
  pub once : (i : ℕ) → times_in i ids ≤ 1
  pub among : (i : ℕ) → 0 < times_in i ids → 0 < times_in i all_ids
  pub parents :
      (i p : ℕ) → 0 < times_in i all_ids → parent_of g.arena i ≡ some p → 0 < times_in p all_ids
  pub others : (i : ℕ) → times_in i all_ids ≡ 0 → parent_of g.arena i ≡ parent_of a0 i
  pub articles : (i : ℕ) → article_of g.arena i ≡ article_of a0 i
  pub merged_ones :
      (i : ℕ) → 0 < times_in i all_ids → any (λ m. m == i) g.merged ≡ is_some (parent_of g.arena i)

module _ (a0 : Arena) (n : ℕ) (all_ids : List ℕ) where
  -- The next root is left alone.
  pub skip-IsGrouping :
      (id : ℕ) (ids : List ℕ) (g : Grouping)
      → IsGrouping a0 n all_ids (id ∷ ids) g
      → IsGrouping a0 n all_ids ids g
  skip-IsGrouping id ids g w = record {
    forest = w.forest;
    size = w.size;
    held = λ s h e. let (a, b, c, d) = w.held s h e in (a, b, omega (arith, c), d);
    one_subject = w.one_subject;
    waiting = λ i p. w.waiting i (omega (arith, p));
    once = λ i. omega (arith, w.once i);
    among = λ i p. w.among i (omega (arith, p));
    parents = w.parents;
    others = w.others;
    articles = w.articles;
    merged_ones = w.merged_ones;
  }

  -- The next root holds a subject.
  pub hold-IsGrouping :
      (subject : Bytes) (id : ℕ) (ids : List ℕ) (g : Grouping)
      → IsGrouping a0 n all_ids (id ∷ ids) g
      → IsGrouping a0 n all_ids ids (record g { holders = (subject, id) ∷ g.holders })
  hold-IsGrouping subject id ids g w =
      let v = skip-IsGrouping id ids g w in
      record {
        forest = w.forest;
        size = w.size;
        held = λ s h e. held s h (same s subject) (sym (lookup-cons s subject id g.holders) ∙ e);
        one_subject = λ s t h e d.
            one s t h (Bool-cases (same s subject)) (Bool-cases (same t subject))
              (sym (lookup-cons s subject id g.holders) ∙ e)
              (sym (lookup-cons t subject id g.holders) ∙ d);
        waiting = v.waiting;
        once = v.once;
        among = v.among;
        parents = w.parents;
        others = w.others;
        articles = w.articles;
        merged_ones = w.merged_ones;
      }
    where
      present : 0 < times_in id (id ∷ ids)
      present = ground arith

      held :
          (s : Bytes) (h : ℕ) (b : Bool)
          → (if b then some id else lookup s g.holders) ≡ some h
          → (h < n) × (parent_of g.arena h ≡ none) × (times_in h ids ≡ 0) × (0 < times_in h all_ids)
      held s h true e =
          let here : id ≡ h = some-injective id h e in
          let (a, b) = w.waiting id present in
          rw (← here) (a, b, ground (arith, w.once id), w.among id present)
      held s h false e = let (a, b, c, d) = w.held s h e in (a, b, omega (arith, c), d)

      other : (s : Bytes) (h : ℕ) → id ≡ h → lookup s g.holders ≡ some h → ⊥
      other s h t e = let (a, b, c, d) = w.held s h e in ground (arith, t, c)

      one :
          (s t : Bytes) (h : ℕ)
          → (same s subject ≡ true) ⊎ (same s subject ≡ false)
          → (same t subject ≡ true) ⊎ (same t subject ≡ false)
          → (if same s subject then some id else lookup s g.holders) ≡ some h
          → (if same t subject then some id else lookup t g.holders) ≡ some h
          → s ≡ t
      one s t h (inl p) (inl q) e d = same-eq s subject p ∙ sym (same-eq t subject q)
      one s t h (inl p) (inr q) e d =
          absurd (other t h (some-injective id h (rw p at e)) (rw q at d))
      one s t h (inr p) (inl q) e d =
          absurd (other s h (some-injective id h (rw q at d)) (rw p at e))
      one s t h (inr p) (inr q) e d = w.one_subject s t h (rw p at e) (rw q at d)

  any-append :
      (i m : ℕ) (ms : List ℕ) → any (λ k. k == i) (ms ++ m ∷ []) ≡ any (λ k. k == i) ms || m == i
  any-append i m [] = ground arith
  any-append i m (k ∷ ms) = ground (arith, any-append i m ms)

  -- Nothing but the container itself is above a root.
  root_above : (a : Arena) (c i : ℕ) → parent_of a i ≡ none → IsAbove (parent_of a) c i → c ≡ i
  root_above a c i e at = refl
  root_above a c i e (over {p = p} d above) = absurd (none-ne-some p (sym e ∙ d))

  pub merge-IsGrouping :
      (child parent : ℕ) (ids : List ℕ) (g : Grouping)
      → child < n
      → parent < n
      → child ≢ parent
      → parent_of g.arena child ≡ none
      → parent_of g.arena parent ≡ none
      → times_in child ids ≡ 0
      → 0 < times_in child all_ids
      → 0 < times_in parent all_ids
      → ((s : Bytes) → lookup s g.holders ≢ some child)
      → IsGrouping a0 n all_ids ids g
      → IsGrouping a0 n all_ids ids (merge child parent g)
  unfolding merge
  merge-IsGrouping child parent ids g hc hp ne free top gone child_among parent_in_all unheld w =
      record {
        forest = set_parent-IsForest child parent g.arena inside_child inside_parent w.forest;
        size = (set_parent-same child parent g.arena).0 ∙ w.size;
        held = λ s h e.
            let (a, b, c, d) = w.held s h e in
            (a, others h (λ q. unheld s (e ∙ ap some q)) ∙ b, c, d);
        one_subject = w.one_subject;
        waiting = λ i p.
            let (a, b) = w.waiting i p in
            (a, others i (λ q. omega (arith, p, gone, ap (λ k. times_in k ids) q)) ∙ b);
        once = w.once;
        among = w.among;
        parents = λ i p q e. parent_among i p q (Bool-cases (i == child)) (sym (moved i) ∙ e);
        others = λ i q.
            others i (λ t. omega (arith, q, child_among, ap (λ k. times_in k all_ids) t))
            ∙ w.others i q;
        articles = λ i. (set_parent-same child parent g.arena).3 i ∙ w.articles i;
        merged_ones = λ i p.
            any-append i child g.merged ∙ joined i (Bool-cases (i == child)) (w.merged_ones i p);
      }
    where
      inside_child : child < length g.arena.containers
      inside_child = omega (arith, hc, w.size)

      inside_parent : parent < length g.arena.containers
      inside_parent = omega (arith, hp, w.size)

      moved :
          (j : ℕ)
          → parent_of (set_parent child parent g.arena) j
            ≡ (if j == child then some parent else parent_of g.arena j)
      moved = elim (set_parent_lem child parent g.arena w.forest inside_child inside_parent) [
        | inl (e, inl p) ↦ absurd (p free)
        | inl (e, inr above) ↦ absurd (ne (root_above g.arena child parent top above))
        | inr (p, q, r) ↦ r
      ]

      others :
          (j : ℕ) → j ≢ child → parent_of (set_parent child parent g.arena) j ≡ parent_of g.arena j
      others j q = moved j ∙ ground (arith, q)

      parent_among :
          (i p : ℕ)
          → 0 < times_in i all_ids
          → (i == child ≡ true) ⊎ (i == child ≡ false)
          → (if i == child then some parent else parent_of g.arena i) ≡ some p
          → 0 < times_in p all_ids
      parent_among i p q (inl t) e =
          let here : parent ≡ p = some-injective parent p (rw t at e) in rw (← here) parent_in_all
      parent_among i p q (inr t) e = w.parents i p q (rw t at e)

      joined :
          (i : ℕ)
          → (i == child ≡ true) ⊎ (i == child ≡ false)
          → any (λ m. m == i) g.merged ≡ is_some (parent_of g.arena i)
          → any (λ m. m == i) g.merged || child == i
            ≡ is_some (parent_of (set_parent child parent g.arena) i)
      joined i (inl t) e = rw (moved i) (rw t (ground (arith, t)))
      joined i (inr t) e = rw (moved i) (rw t (ground (arith, t, e)))
