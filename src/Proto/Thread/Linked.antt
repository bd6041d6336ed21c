-- ===== src/Proto/Thread/Linked.antt =====
-- The arena of crates/nntp-proto/src/thread.rs after its records are inserted and linked.
use rust_nntp.Prelude.SortedMap.{lookup}
use rust_nntp.Prelude.Text.{Bytes}
use rust_nntp.Prelude.{
  ℕ, suc, ◌+◌, ◌≤◌, ◌<◌, ◌||◌, Option, none, some, List, [], ◌∷◌, ◌++◌, ◌≡◌, refl, sym, ap, ◌∙◌,
  arith, ◌==◌, if◌then◌else◌, length, get_elem?, Bool-cases, inl, inr,
}
use rust_nntp.Proto.Thread.Containers.{length-attach, article_of-attach}
use rust_nntp.Proto.Thread.Sound.{
  IsSound, Holds, no_containers-IsSound, length-new, insert_alone-Holds, claim-IsSound, fill-Holds,
  new_container-Holds, claim-Holds,
}
use rust_nntp.Proto.Thread.Forest.{set_parent-IsForest}
use rust_nntp.Proto.Thread.{
  OverviewRecord, Arena, no_containers, new_container, update, with_article, is_some, article_of,
  parent_of, insert_alone, insert_known, insert_with, insert, container_at, container_for_id,
  is_ancestor, attach, set_parent, link_to, link_chain, link_child, link_references,
  insert_all_from, link_all_from, linked,
}

insert_known-Holds :
    (index : ℕ) (id : Bytes) (o : Option ℕ) (a : Arena)
    → lookup id a.by_id ≡ o
    → Holds index a
    → Holds (suc index) (insert_known index id o a)
unfolding insert_known
insert_known-Holds index id none a e h =
    let (s, n) = insert_alone-Holds index a h in
    (
      claim-IsSound id (length a.containers) (insert_alone index a)
          (unfold insert_alone in omega (arith, length-new (some index) a)) s,
      n,
    )
insert_known-Holds index id (some existing) a e h = by_article_there (article_of a existing) refl
  where
    by_article_there :
        (o : Option ℕ)
        → article_of a existing ≡ o
        → Holds (suc index) (
            if is_some o
            then insert_alone index a
            else record (update existing (with_article index) a) {
              by_article = a.by_article ++ existing ∷ [];
            })
    by_article_there none q = fill-Holds index existing a (h.0.ids id existing e) q h
    by_article_there (some k) q = insert_alone-Holds index a h

insert-Holds :
    (index : ℕ) (r : OverviewRecord) (a : Arena)
    → Holds index a
    → Holds (suc index) (insert index r a)
unfolding insert insert_with
insert-Holds index r a h = by_message_id r.message_id
  where
    by_message_id : (o : Option Bytes) → Holds (suc index) (insert_with index o a)
    by_message_id none = insert_alone-Holds index a h
    by_message_id (some id) = insert_known-Holds index id (lookup id a.by_id) a refl h

insert_all_from-Holds :
    (index : ℕ) (rs : List OverviewRecord) (a : Arena)
    → Holds index a
    → Holds (index + length rs) (insert_all_from index rs a)
unfolding insert_all_from
insert_all_from-Holds index [] a (s, h) = (s, omega (arith, h))
insert_all_from-Holds index (r ∷ rs) a h =
    let (s, n) =
      insert_all_from-Holds (index + 1) rs (insert index r a)
        (next_index (insert-Holds index r a h)) in
    (s, omega (arith, n))
  where
    next_index : Holds (suc index) (insert index r a) → Holds (index + 1) (insert index r a)
    next_index (s, n) = (s, omega (arith, n))

abbrev IsInside : Option ℕ → Arena → Type 0
IsInside none a = Unit
IsInside (some i) a = i < length a.containers

IsInside-more :
    (o : Option ℕ) (a b : Arena)
    → length a.containers ≤ length b.containers
    → IsInside o a
    → IsInside o b
IsInside-more none a b more h = tt
IsInside-more (some i) a b more h = omega (arith, more, h)

-- Beside the links, `set_parent` changes nothing.
pub set_parent-same :
    (child parent : ℕ) (a : Arena)
    → (length (set_parent child parent a).containers ≡ length a.containers)
      × ((set_parent child parent a).by_id ≡ a.by_id)
      × ((set_parent child parent a).by_article ≡ a.by_article)
      × ((i : ℕ) → article_of (set_parent child parent a) i ≡ article_of a i)
unfolding set_parent attach
set_parent-same child parent a =
    elim (Bool-cases (child == parent || is_some (parent_of a child))) [
      | inl e ↦ rw e (refl, refl, refl, λ i. refl)
      | inr e ↦ elim (Bool-cases (is_ancestor a child parent)) [
        | inl t ↦ rw e (rw t (refl, refl, refl, λ i. refl))
        | inr t ↦ rw e (
            rw t
              (length-attach child parent a, refl, refl, λ i. article_of-attach child parent i a))
      ]
    ]

set_parent-Holds :
    (n child parent : ℕ) (a : Arena)
    → child < length a.containers
    → parent < length a.containers
    → Holds n a
    → Holds n (set_parent child parent a)
      × (length (set_parent child parent a).containers ≡ length a.containers)
set_parent-Holds n child parent a hc hp (s, h) =
    let f = set_parent-IsForest child parent a hc hp s.forest in
    let (same_length, same_ids, same_places, same_articles) = set_parent-same child parent a in
    (
      (
        record {
          forest = f;
          ids =
              λ id i e. omega (arith, s.ids id i (ap (lookup id) (sym same_ids) ∙ e), same_length);
          articles = λ k i e.
              let (inside, holds) =
                s.articles k i (ap (λ xs. get_elem? xs k) (sym same_places) ∙ e) in
              (omega (arith, inside, same_length), same_articles i ∙ holds);
        },
        ap length same_places ∙ h,
      ),
      same_length,
    )

container_for_id-Holds :
    (n : ℕ) (id : Bytes) (a : Arena)
    → Holds n a
    → Holds n (container_for_id id a).0
      × ((container_for_id id a).1 < length (container_for_id id a).0.containers)
      × (length a.containers ≤ length (container_for_id id a).0.containers)
unfolding container_for_id container_at new_container
container_for_id-Holds n id a h = at_entry (lookup id a.by_id) refl
  where
    at_entry :
        (o : Option ℕ)
        → lookup id a.by_id ≡ o
        → Holds n (container_at id o a).0
          × ((container_at id o a).1 < length (container_at id o a).0.containers)
          × (length a.containers ≤ length (container_at id o a).0.containers)
    at_entry none e = (
      claim-Holds n id (length a.containers) (new_container none a).0
          (omega (arith, length-new none a)) (new_container-Holds n a h),
      omega (arith, length-new none a),
      omega (arith, length-new none a),
    )
    at_entry (some i) e = (h, h.0.ids id i e, omega arith)

link_to-Holds :
    (n : ℕ) (o : Option ℕ) (child : ℕ) (a : Arena)
    → IsInside o a
    → child < length a.containers
    → Holds n a
    → Holds n (link_to o child a) × (length (link_to o child a).containers ≡ length a.containers)
unfolding link_to
link_to-Holds n none child a ho hc h = (h, refl)
link_to-Holds n (some parent) child a ho hc h = set_parent-Holds n child parent a hc ho h

link_chain-Holds :
    (n : ℕ) (ids : List Bytes) (o : Option ℕ) (child : ℕ) (a : Arena)
    → IsInside o a
    → child < length a.containers
    → Holds n a
    → Holds n (link_chain ids o child a)
unfolding link_chain
link_chain-Holds n [] o child a ho hc h = (link_to-Holds n o child a ho hc h).0
link_chain-Holds n (id ∷ ids) o child a ho hc h =
    let (made, inside, more) = container_for_id-Holds n id a h in
    let (joined, same_length) =
      link_to-Holds n o (container_for_id id a).1 (container_for_id id a).0
        (IsInside-more o a _ more ho) inside made in
    link_chain-Holds n ids (some (container_for_id id a).1) child _
      (omega (arith, inside, same_length)) (omega (arith, hc, more, same_length)) joined

link_references-Holds :
    (n index : ℕ) (r : OverviewRecord) (a : Arena) → Holds n a → Holds n (link_references index r a)
unfolding link_references link_child
link_references-Holds n index r a h = from_child (get_elem? a.by_article index) refl
  where
    from_child : (o : Option ℕ) → get_elem? a.by_article index ≡ o → Holds n (link_child o r a)
    from_child none e = h
    from_child (some child) e =
        link_chain-Holds n _ none child a tt (h.0.articles index child e).0 h

link_all_from-Holds :
    (n index : ℕ) (rs : List OverviewRecord) (a : Arena)
    → Holds n a
    → Holds n (link_all_from index rs a)
unfolding link_all_from
link_all_from-Holds n index [] a h = h
link_all_from-Holds n index (r ∷ rs) a h =
    link_all_from-Holds n (index + 1) rs (link_references index r a)
      (link_references-Holds n index r a h)

-- Whatever ids and references the records have, repeated, missing or in a circle: once all are
-- inserted and linked, every walk from a container to its ancestors ends, a container is once in the
-- list of children of its parent and in no other list, and each record is in a container of its own.
pub linked-IsSound :
    (records : List OverviewRecord)
    → IsSound (linked records) × (length (linked records).by_article ≡ length records)
unfolding linked
linked-IsSound records =
    link_all_from-Holds (length records) 0 records (insert_all_from 0 records no_containers)
      (counted (insert_all_from-Holds 0 records no_containers (no_containers-IsSound, refl)))
  where
    counted :
        Holds (0 + length records) (insert_all_from 0 records no_containers)
        → Holds (length records) (insert_all_from 0 records no_containers)
    counted (s, h) = (s, omega (arith, h))
