-- ===== src/Proto/Thread/Reached.antt =====
-- `thread` of crates/nntp-proto/src/thread.rs loses no record, up to its call of `clamp_depth`.
use mathlib.Core.Option.{none-ne-some, some-injective}
use rust_nntp.Prelude.{
  ℕ, zero, suc, ◌<◌, true, not, Option, none, some, List, [], ◌∷◌, ◌≡◌, refl, subst, sym, ap, ◌∙◌,
  arith, if◌then◌else◌, length, get_elem?, ltb, Bool-cases, inl, inr,
}
use rust_nntp.Proto.Thread.Ancestor.{IsAbove, at, over, parent_inside}
use rust_nntp.Proto.Thread.First.{AtMost, first_article-IsLeast}
use rust_nntp.Proto.Thread.Forest.{IsForest, Rooted, top, up, times_in}
use rust_nntp.Proto.Thread.Grouped.{ungrouped-IsGrouping, ungrouped, group_by_subject-AreRoots}
use rust_nntp.Proto.Thread.Grouping.{IsGrouping}
use rust_nntp.Proto.Thread.Linked.{linked-IsSound}
use rust_nntp.Proto.Thread.Roots.{
  Grouping, first_article, is_root, roots, group_loop, group_by_subject, grouped,
}
use rust_nntp.Proto.Thread.Sound.{IsSound}
use rust_nntp.Proto.Thread.Shown.{roots-times, roots-AreRoots}
use rust_nntp.Proto.Thread.{OverviewRecord, Arena, is_some, article_of, parent_of, linked}

-- The container without a parent that a walk ends at.
highest :
    (a : Arena)
    → IsForest a
    → {i : ℕ} → Rooted (parent_of a) i
    → i < length a.containers
    → (t : ℕ) × (t < length a.containers) × (parent_of a t ≡ none) × IsAbove (parent_of a) t i
highest a f {i} (top e) h = (i, h, e, at)
highest a f {i} (up {p = p} e r) h =
    let (t, inside, free, above) = highest a f r (parent_inside a f i p e) in
    (t, inside, free, over e above)

-- It is a root, if the container holds an article.
highest-is_root :
    (a : Arena)
    → IsForest a
    → (t i k : ℕ) → t < length a.containers
    → parent_of a t ≡ none
    → IsAbove (parent_of a) t i
    → article_of a i ≡ some k
    → 0 < times_in t (roots a)
unfolding is_root
highest-is_root a f t i k inside free above holds =
    let found =
      held (first_article a t)
        ((first_article-IsLeast a t f free inside).none_lower i k above holds) in
    let no_parent = ap (λ o. not (is_some o)) free in
    ground (arith, roots-times a t, inside, found, no_parent)
  where
    held : (o : Option ℕ) → AtMost o k → is_some o ≡ true
    held none h = absurd h
    held (some m) h = refl

-- After the grouping, a container below a root is below one that has no parent.
still_below :
    (a : Arena) (n : ℕ) (ids : List ℕ) (g : Grouping)
    → IsGrouping a n ids [] g
    → {i : ℕ} → Rooted (parent_of g.arena) i
    → (t : ℕ) → 0 < times_in t ids
    → IsAbove (parent_of a) t i
    → (u : ℕ) × (0 < times_in u ids)
      × (parent_of g.arena u ≡ none)
      × IsAbove (parent_of g.arena) u i
still_below a n ids g w {i} (top e) t among at = (i, among, e, at)
still_below a n ids g w {i} (top e) t among (over {p = p} d above) =
    elim (Bool-cases (ltb 0 (times_in i ids))) [
      | inl q ↦ (i, ground (arith, q), e, at)
      | inr q ↦ absurd (none-ne-some p (sym e ∙ w.others i (ground (arith, q)) ∙ d))
    ]
still_below a n ids g w {i} (up {p = p} e r) t among at =
    let (u, listed, free, below) = still_below a n ids g w r p (w.parents i p among e) at in
    (u, listed, free, over e below)
still_below a n ids g w {i} (up {p = p} e r) t among (over {p = m} d above) =
    elim (Bool-cases (ltb 0 (times_in i ids))) [
      | inl q ↦
          let (u, listed, free, below) =
            still_below a n ids g w r p (w.parents i p (ground (arith, q)) e) at in
          (u, listed, free, over e below)
      | inr q ↦
          let alike : m ≡ p =
            some-injective m p (sym d ∙ sym (w.others i (ground (arith, q))) ∙ e) in
          let (u, listed, free, below) =
            still_below a n ids g w r t among (subst (IsAbove (parent_of a) t) alike above) in
          (u, listed, free, over e below)
    ]

get_inside : (xs : List ℕ) (k : ℕ) → k < length xs → (i : ℕ) × (get_elem? xs k ≡ some i)
get_inside [] k h = absurd (omega (arith, h))
get_inside (x ∷ xs) zero h = (x, refl)
get_inside (x ∷ xs) (suc k) h = get_inside xs k (omega (arith, h))

-- Whatever records are threaded: once they are linked and grouped by subject, the links are those of a
-- forest, and each record is in a container that is in the list of roots, or below one that is; and
-- that root is in the list once.
pub grouped-IsAbove :
    (records : List OverviewRecord)
    → IsForest (grouped records).0
      × ((k : ℕ)
          → k < length records
          → (i : ℕ) × (u : ℕ) × (article_of (grouped records).0 i ≡ some k)
            × IsAbove (parent_of (grouped records).0) u i
            × (times_in u (grouped records).1 ≡ 1))
unfolding grouped group_by_subject
grouped-IsAbove records = (
  done.forest,
  λ k h.
      let (i, e) = get_inside a.by_article k (omega (arith, h, sound.1)) in
      let (inside, holds) = sound.0.articles k i e in
      let (t, within, free, above) = highest a forest (forest.rooted i) inside in
      let among = highest-is_root a forest t i k within free above holds in
      let (u, listed, top_one, below) =
        still_below a (length a.containers) (roots a) g done (done.forest.rooted i) t among above in
      (i, u, done.articles i ∙ holds, below, listed_once u listed top_one),
)
  where
    a : Arena
    a = linked records

    sound : IsSound a × (length a.by_article ≡ length records)
    sound = linked-IsSound records

    forest : IsForest a
    forest = sound.0.forest

    g : Grouping
    g = group_loop records (roots a) (ungrouped a)

    done : IsGrouping a (length a.containers) (roots a) [] g
    done = ungrouped-IsGrouping records a (roots a) forest (roots-AreRoots a)

    listed_once :
        (u : ℕ)
        → 0 < times_in u (roots a)
        → parent_of g.arena u ≡ none
        → times_in u (group_by_subject records a (roots a)).1 ≡ 1
    listed_once u listed top_one =
        (group_by_subject-AreRoots records a (roots a) forest (roots-AreRoots a)).1 u listed
        ∙ ap (λ o. if is_some o then 0 else 1) top_one
