-- ===== src/Proto/Thread/Sound.antt =====
-- What holds of the arena of crates/nntp-proto/src/thread.rs while its containers are made.
use mathlib.Core.Option.{none-ne-some}
use rust_nntp.Prelude.SortedMap.Laws.{lookup-cons}
use rust_nntp.Prelude.SortedMap.{lookup, same}
use rust_nntp.Prelude.Text.{Bytes}
use rust_nntp.Prelude.{
  ℕ, zero, suc, ◌<◌, Bool, true, false, Option, none, some, List, [], ◌∷◌, ◌++◌, ◌≡◌, ◌⊎◌, refl,
  sym, ap, ◌∙◌, arith, ◌==◌, if◌then◌else◌, length, length-append, get_elem?, Bool-cases, inl, inr,
}
use rust_nntp.Proto.Thread.Containers.{
  length-modify, parent_of-new, children_of-new, article_of-none, article_of-new, article_of-fill,
  parent_of-fill, children_of-fill,
}
use rust_nntp.Proto.Thread.Forest.{IsForest, Rooted-same, top}
use rust_nntp.Proto.Thread.{
  Arena, no_containers, new_container, update, with_article, article_of, parent_of, children_of,
  insert_alone,
}

-- The links are those of a forest; what `by_id` and `by_article` name are containers of the arena;
-- and the container that a record has in `by_article` holds that record.
pub record IsSound (a : Arena) : Type 0 where
  pub forest : IsForest a
  pub ids : (id : Bytes) (i : ℕ) → lookup id a.by_id ≡ some i → i < length a.containers
  pub articles :
      (k i : ℕ)
      → get_elem? a.by_article k ≡ some i
      → (i < length a.containers) × (article_of a i ≡ some k)

pub no_containers-IsSound : IsSound no_containers
unfolding parent_of children_of lookup
no_containers-IsSound = record {
  forest = record { rooted = λ i. top refl; counted = λ p c. refl };
  ids = λ id i e. absurd (ground (arith, e));
  articles = λ k i e. absurd (ground (arith, e));
}

IsForest-same :
    (a b : Arena)
    → ((j : ℕ) → parent_of b j ≡ parent_of a j)
    → ((j : ℕ) → children_of b j ≡ children_of a j)
    → IsForest a
    → IsForest b
IsForest-same a b p c f = record {
  rooted = λ i. Rooted-same (parent_of a) (parent_of b) i p (f.rooted i);
  counted = λ q i. rw (p i) (rw (c q) (f.counted q i));
}

pub length-new :
    (article : Option ℕ) (a : Arena)
    → length (new_container article a).0.containers ≡ suc (length a.containers)
unfolding new_container
length-new article a = length-append a.containers _ ∙ omega arith

-- The element at a place of a list that has grown at its end.
get_grown :
    (x : ℕ) (xs : List ℕ) (k i : ℕ)
    → get_elem? (xs ++ x ∷ []) k ≡ some i
    → ((k ≡ length xs) × (i ≡ x)) ⊎ (get_elem? xs k ≡ some i)
get_grown x [] zero i e = inl (refl, ground (arith, e))
get_grown x [] (suc k) i e = absurd (ground (arith, e))
get_grown x (y ∷ xs) zero i e = inr e
get_grown x (y ∷ xs) (suc k) i e = elim (get_grown x xs k i e) [
  | inl (p, q) ↦ inl (ap suc p, q)
  | inr h ↦ inr h
]

-- The records before `n` have their containers.
abbrev pub Holds : ℕ → Arena → Type 0
Holds n a = IsSound a × (length a.by_article ≡ n)

ids-new :
    (article : Option ℕ) (a : Arena)
    → IsSound a
    → (id : Bytes) (i : ℕ) → lookup id a.by_id ≡ some i
    → i < length (new_container article a).0.containers
ids-new article a s id i e = omega (arith, s.ids id i e, length-new article a)

pub insert_alone-Holds :
    (index : ℕ) (a : Arena) → Holds index a → Holds (suc index) (insert_alone index a)
unfolding insert_alone new_container parent_of children_of article_of
insert_alone-Holds index a (s, h) = (
  record {
    forest =
        IsForest-same a (insert_alone index a) (λ j. parent_of-new (some index) a j)
          (λ j. children_of-new (some index) a j) s.forest;
    ids = ids-new (some index) a s;
    articles = λ k i e. placed k i (get_grown (length a.containers) a.by_article k i e);
  },
  length-append a.by_article (length a.containers ∷ []) ∙ omega (arith, h),
)
  where
    grown : length (new_container (some index) a).0.containers ≡ suc (length a.containers)
    grown = length-new (some index) a

    placed :
        (k i : ℕ)
        → ((k ≡ length a.by_article) × (i ≡ length a.containers))
          ⊎ (get_elem? a.by_article k ≡ some i)
        → (i < length (new_container (some index) a).0.containers)
          × (article_of (new_container (some index) a).0 i ≡ some k)
    placed k i (inl (p, q)) =
        (omega (arith, q, grown), article_of-new (some index) a i ∙ ground (arith, q, p, h))
    placed k i (inr e) =
        let (inside, holds) = s.articles k i e in
        (
          omega (arith, inside, grown),
          article_of-new (some index) a i ∙ ground (arith, inside, holds),
        )

-- A new entry of `by_id` for a container of the arena.
pub claim-IsSound :
    (id : Bytes) (i : ℕ) (a : Arena)
    → i < length a.containers
    → IsSound a
    → IsSound (record a { by_id = (id, i) ∷ a.by_id })
unfolding parent_of children_of article_of
claim-IsSound id i a inside s = record {
  forest =
      IsForest-same a (record a { by_id = (id, i) ∷ a.by_id }) (λ j. refl) (λ j. refl) s.forest;
  ids = λ id' i' e. named id' i' (same id' id) (sym (lookup-cons id' id i a.by_id) ∙ e);
  articles = s.articles;
}
  where
    named :
        (id' : Bytes) (i' : ℕ) (b : Bool)
        → (if b then some i else lookup id' a.by_id) ≡ some i'
        → i' < length a.containers
    named id' i' true e = ground (arith, inside, e)
    named id' i' false e = s.ids id' i' e

-- The container of an article that was only referred to is filled.
pub fill-Holds :
    (index i : ℕ) (a : Arena)
    → i < length a.containers
    → article_of a i ≡ none
    → Holds index a
    → Holds
        (suc index)
        (record (update i (with_article index) a) { by_article = a.by_article ++ i ∷ [] })
unfolding parent_of children_of article_of
fill-Holds index i a inside empty (s, h) = (
  record {
    forest =
        IsForest-same a
          (record (update i (with_article index) a) { by_article = a.by_article ++ i ∷ [] })
          (λ j. parent_of-fill i index a j) (λ j. children_of-fill i index a j) s.forest;
    ids = λ id k e. omega (arith, s.ids id k e, length-modify i (with_article index) a.containers);
    articles = λ k j e. placed k j (get_grown i a.by_article k j e);
  },
  length-append a.by_article (i ∷ []) ∙ omega (arith, h),
)
  where
    other :
        (j k : ℕ)
        → (j == i ≡ true) ⊎ (j == i ≡ false)
        → article_of a j ≡ some k
        → (if j == i then some index else article_of a j) ≡ some k
    other j k (inl t) holds =
        let at_place : i ≡ j = ground (arith, t) in
        absurd (none-ne-some k (sym empty ∙ ap (article_of a) at_place ∙ holds))
    other j k (inr t) holds = rw t holds

    placed :
        (k j : ℕ)
        → ((k ≡ length a.by_article) × (j ≡ i)) ⊎ (get_elem? a.by_article k ≡ some j)
        → (j < length (update i (with_article index) a).containers)
          × (article_of (update i (with_article index) a) j ≡ some k)
    placed k j (inl (p, q)) = (
      omega (arith, q, inside, length-modify i (with_article index) a.containers),
      article_of-fill i index a j inside ∙ ground (arith, q, p, h),
    )
    placed k j (inr e) =
        let (within, holds) = s.articles k j e in
        (
          omega (arith, within, length-modify i (with_article index) a.containers),
          article_of-fill i index a j inside ∙ other j k (Bool-cases (j == i)) holds,
        )

pub new_container-Holds : (n : ℕ) (a : Arena) → Holds n a → Holds n (new_container none a).0
unfolding new_container parent_of children_of article_of
new_container-Holds n a (s, h) = (
  record {
    forest =
        IsForest-same a (new_container none a).0 (λ j. parent_of-new none a j)
          (λ j. children_of-new none a j) s.forest;
    ids = ids-new none a s;
    articles = λ k i e.
        let (inside, holds) = s.articles k i e in
        (omega (arith, inside, length-new none a), article_of-none a i ∙ holds);
  },
  h,
)

pub claim-Holds :
    (n : ℕ) (id : Bytes) (i : ℕ) (a : Arena)
    → i < length a.containers
    → Holds n a
    → Holds n (record a { by_id = (id, i) ∷ a.by_id })
claim-Holds n id i a inside (s, h) = (claim-IsSound id i a inside s, h)
