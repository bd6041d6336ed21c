-- ===== src/Proto/Thread/Forest.antt =====
-- The links that `set_parent` of crates/nntp-proto/src/thread.rs makes are those of a forest.
use rust_nntp.Prelude.{
  ℕ, zero, suc, ◌+◌, ◌<◌, Bool, true, false, ◌||◌, Option, none, some, List, [], ◌∷◌, ◌++◌, ◌≡◌,
  ◌≢◌, refl, ap, ◌∙◌, arith, ◌==◌, if◌then◌else◌, length, Bool-cases, inl, inr,
}
use rust_nntp.Proto.Thread.Containers.{parent_of-attach, children_of-attach}
use rust_nntp.Proto.Thread.{
  Arena, is_some, parent_of, children_of, ancestor_loop, is_ancestor, attach, set_parent,
}

-- The walk from a container to its ancestors ends.
pub data Rooted (parent : ℕ → Option ℕ) : ℕ → Type 0 where
  top : {i : ℕ} → parent i ≡ none → Rooted parent i
  up : {i p : ℕ} → parent i ≡ some p → Rooted parent p → Rooted parent i

-- How often a number stands in a list.
abbrev pub times_in : ℕ → List ℕ → ℕ
times_in c [] = 0
times_in c (d ∷ ds) = (if d == c then 1 else 0) + times_in c ds

abbrev pub points_to : Option ℕ → ℕ → Bool
points_to none p = false
points_to (some q) p = q == p

-- Every walk to the ancestors ends, and a container is in the list of children of its parent, once,
-- and in no other.
pub record IsForest (a : Arena) : Type 0 where
  pub rooted : (i : ℕ) → Rooted (parent_of a) i
  pub counted :
      (p c : ℕ) → times_in c (children_of a p) ≡ (if points_to (parent_of a c) p then 1 else 0)

-- Links that are the same for every container keep the walks.
pub Rooted-same : (p q : ℕ → Option ℕ) (i : ℕ) → ((j : ℕ) → q j ≡ p j) → Rooted p i → Rooted q i
Rooted-same p q i same (top e) = top (same i ∙ e)
Rooted-same p q i same (up e r) = up (same i ∙ e) (Rooted-same p q _ same r)

-- A walk that `is_ancestor` finds to miss a container ends whatever the link of that container.
missed-Rooted :
    (steps : ℕ) (a : Arena) (q : ℕ → Option ℕ) (c i : ℕ)
    → ((j : ℕ) → j ≢ c → q j ≡ parent_of a j)
    → ancestor_loop steps a c (some i) ≡ false
    → Rooted q i
unfolding ancestor_loop
missed-Rooted zero a q c i same h = absurd (ground (arith, h))
missed-Rooted (suc steps) a q c i same h = elim (Bool-cases (i == c)) [
  | inl e ↦ absurd (ground (arith, rw e at h))
  | inr e ↦
      above (parent_of a i) refl (rw e at h) (same i (ground (arith, e)))
        (missed-Rooted steps a q c)
]
  where
    above :
        (o : Option ℕ)
        → parent_of a i ≡ o
        → ancestor_loop steps a c o ≡ false
        → q i ≡ parent_of a i
        → ((k : ℕ)
            → ((j : ℕ) → j ≢ c → q j ≡ parent_of a j)
            → ancestor_loop steps a c (some k) ≡ false
            → Rooted q k)
        → Rooted q i
    above none e l s rest = top (s ∙ e)
    above (some k) e l s rest = up (s ∙ e) (rest k same l)

-- A link to a container whose walk ends.
linked-Rooted :
    (p q : ℕ → Option ℕ) (c parent i : ℕ)
    → q c ≡ some parent
    → Rooted q parent
    → ((j : ℕ) → j ≢ c → q j ≡ p j)
    → Rooted p i
    → Rooted q i
linked-Rooted p q c parent i at_c r same (top e) = elim (Bool-cases (i == c)) [
  | inl t ↦ up (let k : i ≡ c = ground (arith, t) in ap q k ∙ at_c) r
  | inr t ↦ top (same i (ground (arith, t)) ∙ e)
]
linked-Rooted p q c parent i at_c r same (up {p = k} e w) = elim (Bool-cases (i == c)) [
  | inl t ↦ up (let m : i ≡ c = ground (arith, t) in ap q m ∙ at_c) r
  | inr t ↦ up (same i (ground (arith, t)) ∙ e) (linked-Rooted p q c parent k at_c r same w)
]

times_in-append :
    (c d : ℕ) (cs : List ℕ) → times_in c (cs ++ d ∷ []) ≡ times_in c cs + (if d == c then 1 else 0)
times_in-append c d [] = omega arith
times_in-append c d (x ∷ cs) = ground (arith, times_in-append c d cs)

attach-counted :
    (child parent : ℕ) (a : Arena)
    → child < length a.containers
    → parent < length a.containers
    → parent_of a child ≡ none
    → IsForest a
    → (p c : ℕ)
    → times_in c (children_of (attach child parent a) p)
      ≡ (if points_to (parent_of (attach child parent a) c) p then 1 else 0)
attach-counted child parent a hc hp free f p c = rw (children_of-attach child parent p a hp) (
    rw (parent_of-attach child parent c a hc) (elim (Bool-cases (p == parent)) [
      | inl e ↦ rw e (times_in-append c child (children_of a p) ∙ at_parent e)
      | inr e ↦ rw e (elsewhere e)
    ]))
  where
    none_yet : c ≡ child → times_in c (children_of a p) ≡ 0
    none_yet e =
        f.counted p c ∙ ap (λ o. if points_to o p then 1 else 0) (ap (parent_of a) e ∙ free)

    at_parent :
        p == parent ≡ true
        → times_in c (children_of a p) + (if child == c then 1 else 0)
          ≡ (if points_to (if c == child then some parent else parent_of a c) p then 1 else 0)
    at_parent e = elim (Bool-cases (c == child)) [
      | inl t ↦ rw t (ground (arith, none_yet (ground (arith, t)), e, t))
      | inr t ↦ rw t (ground (arith, f.counted p c, t))
    ]

    elsewhere :
        p == parent ≡ false
        → times_in c (children_of a p)
          ≡ (if points_to (if c == child then some parent else parent_of a c) p then 1 else 0)
    elsewhere e = elim (Bool-cases (c == child)) [
      | inl t ↦ rw t (ground (arith, none_yet (ground (arith, t)), e))
      | inr t ↦ rw t (f.counted p c)
    ]

attach-IsForest :
    (child parent : ℕ) (a : Arena)
    → child < length a.containers
    → parent < length a.containers
    → parent_of a child ≡ none
    → is_ancestor a child parent ≡ false
    → IsForest a
    → IsForest (attach child parent a)
attach-IsForest child parent a hc hp free missed f = record {
  rooted = λ i.
      linked-Rooted (parent_of a) (parent_of (attach child parent a)) child parent i at_child
        (missed-Rooted (length a.containers + 1) a _ child parent others
          (unfold is_ancestor in missed))
        others (f.rooted i);
  counted = attach-counted child parent a hc hp free f;
}
  where
    at_child : parent_of (attach child parent a) child ≡ some parent
    at_child = parent_of-attach child parent child a hc ∙ ground arith

    others : (j : ℕ) → j ≢ child → parent_of (attach child parent a) j ≡ parent_of a j
    others j ne = parent_of-attach child parent j a hc ∙ ground (arith, ne)

pub set_parent-IsForest :
    (child parent : ℕ) (a : Arena)
    → child < length a.containers
    → parent < length a.containers
    → IsForest a
    → IsForest (set_parent child parent a)
unfolding set_parent
set_parent-IsForest child parent a hc hp f =
    elim (Bool-cases (child == parent || is_some (parent_of a child))) [
      | inl e ↦ rw e f
      | inr e ↦ elim (Bool-cases (is_ancestor a child parent)) [
        | inl t ↦ rw e (rw t f)
        | inr t ↦ rw e (
            rw t (
              attach-IsForest child parent a hc hp
                (no_parent (parent_of a child) (or_right (child == parent) e)) t f))
      ]
    ]
  where
    or_right : (b : Bool) {c : Bool} → b || c ≡ false → c ≡ false
    or_right true h = absurd (ground (arith, h))
    or_right false h = h

    no_parent : (o : Option ℕ) → is_some o ≡ false → o ≡ none
    no_parent none h = refl
    no_parent (some p) h = absurd (ground (arith, h))
