-- ===== src/Proto/Thread/Containers.antt =====
-- What the operations on the arena of crates/nntp-proto/src/thread.rs do to each container.
use rust_nntp.Prelude.{
  ℕ, zero, suc, ◌<◌, Option, none, some, List, [], ◌∷◌, ◌++◌, ◌≡◌, ◌≢◌, refl, sym, ap, ◌∙◌, arith,
  ◌==◌, if◌then◌else◌, length, get_elem?, Bool-cases, inl, inr,
}
use rust_nntp.Proto.Thread.{
  Container, Arena, modify, new_container, article_in, article_of, parent_in, parent_of,
  children_in, children_of, with_parent, with_child, attach, update, with_article,
}

pub length-modify :
    (i : ℕ) (f : Container → Container) (cs : List Container) → length (modify i f cs) ≡ length cs
unfolding modify
length-modify i f [] = refl
length-modify zero f (c ∷ cs) = refl
length-modify (suc i) f (c ∷ cs) = omega (arith, length-modify i f cs)

-- A view of a container that a change leaves alone, and that is `d` out of range.
module _ {A : Type 0} (view : Option Container → A) where
  view-modify :
      (i j : ℕ) (f : Container → Container) (cs : List Container)
      → ((c : Container) → view (some (f c)) ≡ view (some c))
      → view (get_elem? (modify i f cs) j) ≡ view (get_elem? cs j)
  unfolding modify
  view-modify i j f [] h = refl
  view-modify zero zero f (c ∷ cs) h = h c
  view-modify zero (suc j) f (c ∷ cs) h = refl
  view-modify (suc i) zero f (c ∷ cs) h = refl
  view-modify (suc i) (suc j) f (c ∷ cs) h = view-modify i j f cs h

  view-other :
      (i j : ℕ) (f : Container → Container) (cs : List Container)
      → i ≢ j
      → view (get_elem? (modify i f cs) j) ≡ view (get_elem? cs j)
  unfolding modify
  view-other i j f [] h = refl
  view-other zero zero f (c ∷ cs) h = absurd (h refl)
  view-other zero (suc j) f (c ∷ cs) h = refl
  view-other (suc i) zero f (c ∷ cs) h = refl
  view-other (suc i) (suc j) f (c ∷ cs) h = view-other i j f cs (λ e. h (ap suc e))

  -- A new container looks like one that is not there.
  view-new :
      (x : Container) (j : ℕ) (cs : List Container)
      → view (some x) ≡ view none
      → view (get_elem? (cs ++ x ∷ []) j) ≡ view (get_elem? cs j)
  view-new x zero [] h = h
  view-new x (suc j) [] h = refl
  view-new x zero (c ∷ cs) h = refl
  view-new x (suc j) (c ∷ cs) h = view-new x j cs h

get_modified :
    (i : ℕ) (f : Container → Container) (cs : List Container)
    → i < length cs
    → (c : Container) × (get_elem? cs i ≡ some c) × (get_elem? (modify i f cs) i ≡ some (f c))
unfolding modify
get_modified i f [] h = absurd (omega (arith, h))
get_modified zero f (c ∷ cs) h = (c, refl, refl)
get_modified (suc i) f (c ∷ cs) h = get_modified i f cs (omega (arith, h))

pub length-attach :
    (child parent : ℕ) (a : Arena) → length (attach child parent a).containers ≡ length a.containers
unfolding attach
length-attach child parent a =
    length-modify parent (with_child child) _
    ∙ length-modify child (with_parent parent) a.containers

pub article_of-attach :
    (child parent j : ℕ) (a : Arena) → article_of (attach child parent a) j ≡ article_of a j
unfolding attach article_of
article_of-attach child parent j a =
    view-modify article_in parent j (with_child child) _ (λ c. refl)
    ∙ view-modify article_in child j (with_parent parent) a.containers (λ c. refl)

pub parent_of-attach :
    (child parent j : ℕ) (a : Arena)
    → child < length a.containers
    → parent_of (attach child parent a) j ≡ (if j == child then some parent else parent_of a j)
unfolding attach parent_of
parent_of-attach child parent j a h =
    view-modify parent_in parent j (with_child child) _ (λ c. refl)
    ∙ (elim (Bool-cases (j == child)) [
      | inl e ↦
          let at_child : child ≡ j = ground (arith, e) in
          let (c, was, now) = get_modified child (with_parent parent) a.containers h in
          rw e (rw (← at_child) (ap parent_in now))
      | inr e ↦
          rw e (view-other parent_in child j (with_parent parent) a.containers (ground (arith, e)))
    ])

pub children_of-attach :
    (child parent j : ℕ) (a : Arena)
    → parent < length a.containers
    → children_of (attach child parent a) j
      ≡ (if j == parent then children_of a j ++ child ∷ [] else children_of a j)
unfolding attach children_of
children_of-attach child parent j a h = elim (Bool-cases (j == parent)) [
  | inl e ↦
      let at_parent : parent ≡ j = ground (arith, e) in
      let inside : parent < length (modify child (with_parent parent) a.containers) =
        rw (length-modify child (with_parent parent) a.containers) h in
      let (c, was, now) =
        get_modified parent (with_child child) (modify child (with_parent parent) a.containers)
          inside in
      rw e (
        rw (← at_parent) (
          ap children_in now
          ∙ ap (λ x. x ++ child ∷ [])
              (sym (ap children_in was)
                ∙ view-modify children_in child parent (with_parent parent) a.containers
                    (λ x. refl))))
  | inr e ↦ rw e (
      view-other children_in parent j (with_child child)
        (modify child (with_parent parent) a.containers) (ground (arith, e))
      ∙ view-modify children_in child j (with_parent parent) a.containers (λ x. refl))
]

pub parent_of-new :
    (article : Option ℕ) (a : Arena) (j : ℕ)
    → parent_of (new_container article a).0 j ≡ parent_of a j
unfolding new_container parent_of
parent_of-new article a j = view-new parent_in _ j a.containers refl

pub children_of-new :
    (article : Option ℕ) (a : Arena) (j : ℕ)
    → children_of (new_container article a).0 j ≡ children_of a j
unfolding new_container children_of
children_of-new article a j = view-new children_in _ j a.containers refl

pub article_of-none : (a : Arena) (j : ℕ) → article_of (new_container none a).0 j ≡ article_of a j
unfolding new_container article_of
article_of-none a j = view-new article_in _ j a.containers refl

get_new : (x : Container) (cs : List Container) → get_elem? (cs ++ x ∷ []) (length cs) ≡ some x
get_new x [] = refl
get_new x (c ∷ cs) = get_new x cs

get_old :
    (x : Container) (j : ℕ) (cs : List Container)
    → j ≢ length cs
    → get_elem? (cs ++ x ∷ []) j ≡ get_elem? cs j
get_old x zero [] h = absurd (h refl)
get_old x (suc j) [] h = refl
get_old x zero (c ∷ cs) h = refl
get_old x (suc j) (c ∷ cs) h = get_old x j cs (λ e. h (ap suc e))

pub article_of-new :
    (article : Option ℕ) (a : Arena) (j : ℕ)
    → article_of (new_container article a).0 j
      ≡ (if j == length a.containers then article else article_of a j)
unfolding new_container article_of
article_of-new article a j = elim (Bool-cases (j == length a.containers)) [
  | inl e ↦
      let at_end : length a.containers ≡ j = ground (arith, e) in
      rw e (rw (← at_end) (ap article_in (get_new _ a.containers)))
  | inr e ↦ rw e (ap article_in (get_old _ j a.containers (ground (arith, e))))
]

pub article_of-fill :
    (i index : ℕ) (a : Arena) (j : ℕ)
    → i < length a.containers
    → article_of (update i (with_article index) a) j
      ≡ (if j == i then some index else article_of a j)
unfolding article_of
article_of-fill i index a j h = elim (Bool-cases (j == i)) [
  | inl e ↦
      let at_place : i ≡ j = ground (arith, e) in
      let (c, was, now) = get_modified i (with_article index) a.containers h in
      rw e (rw (← at_place) (ap article_in now))
  | inr e ↦ rw e (view-other article_in i j (with_article index) a.containers (ground (arith, e)))
]

pub parent_of-fill :
    (i index : ℕ) (a : Arena) (j : ℕ)
    → parent_of (update i (with_article index) a) j ≡ parent_of a j
unfolding parent_of
parent_of-fill i index a j = view-modify parent_in i j (with_article index) a.containers (λ c. refl)

pub children_of-fill :
    (i index : ℕ) (a : Arena) (j : ℕ)
    → children_of (update i (with_article index) a) j ≡ children_of a j
unfolding children_of
children_of-fill i index a j =
    view-modify children_in i j (with_article index) a.containers (λ c. refl)
