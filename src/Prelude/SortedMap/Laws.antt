-- ===== src/Prelude/SortedMap/Laws.antt =====
-- Sorted maps: the lookups after an update, and that updates keep the order of the keys.
use mathlib.Core.Bool.{Bool, true, false}
use mathlib.Core.List.{[], ◌∷◌}
use mathlib.Core.Logic.{inl, inr}
use mathlib.Core.Option.{Option, none, some, some-injective}
use mathlib.Core.Path.{◌≡◌, refl, ap, sym, ◌∙◌}
use native.Mathlib.Omega.{arith}
use rust_nntp.Prelude.SortedMap.Order.{
  same_refl, same-eq, same-sym, before_trans, before-total, before-differ,
}
use rust_nntp.Prelude.SortedMap.{Map, same, before, lookup, upsert, adjust, get_or}
use rust_nntp.Prelude.Tests.{Bool-cases, if◌then◌else◌}
use rust_nntp.Prelude.Text.{Bytes}

same-exclusive : (i j k : Bytes) → same k j ≡ false → same i j ≡ true → same i k ≡ false
same-exclusive i j k e h = same-sym i k ∙ ap (same k) (same-eq i j h) ∙ e

module _ {ℓ} {V : Type ℓ} where
  -- Every key stands behind `k`.
  abbrev pub IsBehind : Bytes → Map V → Type 0
  IsBehind k [] = Unit
  IsBehind k ((j, v) ∷ m) = (before k j ≡ true) × IsBehind k m

  abbrev pub IsSorted : Map V → Type 0
  IsSorted [] = Unit
  IsSorted ((k, v) ∷ m) = IsBehind k m × IsSorted m

  IsBehind-trans : (j k : Bytes) (m : Map V) → before j k ≡ true → IsBehind k m → IsBehind j m
  IsBehind-trans j k [] b h = tt
  IsBehind-trans j k ((i, v) ∷ m) b (p, h) = (before_trans j k i b p, IsBehind-trans j k m b h)

  pub lookup-IsBehind : (k : Bytes) (m : Map V) → IsBehind k m → lookup k m ≡ none
  unfolding lookup
  lookup-IsBehind k [] h = refl
  lookup-IsBehind k ((j, v) ∷ m) (b, h) = rw (before-differ k j b) (lookup-IsBehind k m h)

  upsert-IsBehind :
      (i k : Bytes) (d : V) (f : V → V) (m : Map V)
      → before i k ≡ true
      → IsBehind i m
      → IsBehind i (upsert k d f m)
  unfolding upsert
  upsert-IsBehind i k d f [] b h = (b, tt)
  upsert-IsBehind i k d f ((j, v) ∷ m) b (p, h) = elim (Bool-cases (same k j)) [
    | inl e ↦ rw e (p, h)
    | inr e ↦ rw e (elim (Bool-cases (before k j)) [
      | inl e' ↦ rw e' (b, (p, h))
      | inr e' ↦ rw e' (p, upsert-IsBehind i k d f m b h)
    ])
  ]

  pub upsert-IsSorted :
      (k : Bytes) (d : V) (f : V → V) (m : Map V) → IsSorted m → IsSorted (upsert k d f m)
  unfolding upsert
  upsert-IsSorted k d f [] h = (tt, tt)
  upsert-IsSorted k d f ((j, v) ∷ m) (p, h) = elim (Bool-cases (same k j)) [
    | inl e ↦ rw e (p, h)
    | inr e ↦ rw e (elim (Bool-cases (before k j)) [
      | inl e' ↦ rw e' ((e', IsBehind-trans k j m e' p), (p, h))
      | inr e' ↦
          rw e' (upsert-IsBehind j k d f m (before-total k j e e') p, upsert-IsSorted k d f m h)
    ])
  ]

  pub upsert-past :
      (k j : Bytes) (d v : V) (f : V → V) (m : Map V)
      → same k j ≡ false
      → before k j ≡ false
      → upsert k d f ((j, v) ∷ m) ≡ (j, v) ∷ upsert k d f m
  unfolding upsert
  upsert-past k j d v f m e e' = rw (e, e') refl

  lookup-other :
      (k j : Bytes) (v : V) (m : Map V) → same k j ≡ false → lookup k ((j, v) ∷ m) ≡ lookup k m
  unfolding lookup
  lookup-other k j v m e = rw e refl

  pub lookup-cons :
      (k j : Bytes) (v : V) (m : Map V)
      → lookup k ((j, v) ∷ m) ≡ (if same k j then some v else lookup k m)
  unfolding lookup
  lookup-cons k j v m = refl

  swap_tests :
      (a b : Bool) (x y z : Option V)
      → (a ≡ true → b ≡ false)
      → (if a then x else if b then y else z) ≡ (if b then y else if a then x else z)
  swap_tests true true x y z h = absurd (clash (h refl))
    where
      clash : true ≡ false → ⊥
      clash q = ground (arith, q)
  swap_tests true false x y z h = refl
  swap_tests false true x y z h = refl
  swap_tests false false x y z h = refl

  -- The updated key has the new value, and no other key is touched.
  pub lookup-upsert :
      (i k : Bytes) (d : V) (f : V → V) (m : Map V)
      → IsSorted m
      → lookup i (upsert k d f m)
        ≡ (if same i k then some (f (get_or d (lookup k m))) else lookup i m)
  lookup-upsert i k d f [] h = unfold lookup upsert in refl
  lookup-upsert i k d f ((j, v) ∷ m) (p, h) = elim (Bool-cases (same k j)) [
    | inl e ↦ unfold lookup upsert in rw (same-eq k j e, same_refl j) (ground arith)
    | inr e ↦ elim (Bool-cases (before k j)) [
      | inl e' ↦
          unfold upsert in
          rw (e, e', lookup-other k j v m e, lookup-IsBehind k m (IsBehind-trans k j m e' p))
            (lookup-cons i k (f d) ((j, v) ∷ m))
      | inr e' ↦
          ap (lookup i) (upsert-past k j d v f m e e')
          ∙ lookup-cons i j v (upsert k d f m)
          ∙ ap (λ r. if same i j then some v else r) (lookup-upsert i k d f m h)
          ∙ swap_tests (same i j) (same i k) (some v) (some (f (get_or d (lookup k m))))
              (lookup i m) (same-exclusive i j k e)
          ∙ ap
              (λ r.
                if same i k then some (f (get_or d r)) else if same i j then some v else lookup i m)
              (sym (lookup-other k j v m e))
          ∙ ap (λ r. if same i k then some (f (get_or d (lookup k ((j, v) ∷ m)))) else r)
              (sym (lookup-cons i j v m))
    ]
  ]

  adjust-IsBehind : (i k : Bytes) (f : V → V) (m : Map V) → IsBehind i m → IsBehind i (adjust k f m)
  unfolding adjust
  adjust-IsBehind i k f [] h = tt
  adjust-IsBehind i k f ((j, v) ∷ m) (p, h) = elim (Bool-cases (same k j)) [
    | inl e ↦ rw e (p, h)
    | inr e ↦ rw e (p, adjust-IsBehind i k f m h)
  ]

  pub adjust-IsSorted : (k : Bytes) (f : V → V) (m : Map V) → IsSorted m → IsSorted (adjust k f m)
  unfolding adjust
  adjust-IsSorted k f [] h = tt
  adjust-IsSorted k f ((j, v) ∷ m) (p, h) = elim (Bool-cases (same k j)) [
    | inl e ↦ rw e (p, h)
    | inr e ↦ rw e (adjust-IsBehind j k f m p, adjust-IsSorted k f m h)
  ]

  abbrev pub map_value : (V → V) → Option V → Option V
  map_value f none = none
  map_value f (some v) = some (f v)

  pub lookup-adjust :
      (i k : Bytes) (f : V → V) (m : Map V)
      → lookup i (adjust k f m) ≡ (if same i k then map_value f (lookup k m) else lookup i m)
  unfolding adjust
  lookup-adjust i k f [] = unfold lookup in ground arith
  lookup-adjust i k f ((j, v) ∷ m) = elim (Bool-cases (same k j)) [
    | inl e ↦ unfold lookup in rw (same-eq k j e, same_refl j) (ground arith)
    | inr e ↦ rw e (
        lookup-cons i j v (adjust k f m)
        ∙ ap (λ r. if same i j then some v else r) (lookup-adjust i k f m)
        ∙ swap_tests (same i j) (same i k) (some v) (map_value f (lookup k m)) (lookup i m)
            (same-exclusive i j k e)
        ∙ ap (λ r. if same i k then map_value f r else if same i j then some v else lookup i m)
            (sym (lookup-other k j v m e))
        ∙ ap (λ r. if same i k then map_value f (lookup k ((j, v) ∷ m)) else r)
            (sym (lookup-cons i j v m)))
  ]

  -- An update that changes nothing gives the same map.
  pub adjust-same :
      (k : Bytes) (f : V → V) (v : V) (m : Map V) → lookup k m ≡ some v → f v ≡ v → adjust k f m ≡ m
  unfolding adjust lookup
  adjust-same k f v [] e h = refl
  adjust-same k f v ((j, w) ∷ m) e h = elim (Bool-cases (same k j)) [
    | inl t ↦ let here : w ≡ v = some-injective w v (rw t at e) in rw (t, here, h) refl
    | inr t ↦ rw t (ap (λ r. (j, w) ∷ r) (adjust-same k f v m (rw t at e) h))
  ]

  module _ {κ} (P : V → Type κ) where
    -- The entries all have a property.
    abbrev pub Values : Map V → Type κ
    Values [] = Unit
    Values ((k, v) ∷ m) = P v × Values m

    pub upsert-Values :
        (k : Bytes) (d : V) (f : V → V) (m : Map V)
        → P d
        → ((v : V) → P v → P (f v))
        → Values m
        → Values (upsert k d f m)
    unfolding upsert
    upsert-Values k d f [] pd pf h = (pf d pd, tt)
    upsert-Values k d f ((j, v) ∷ m) pd pf (p, h) = elim (Bool-cases (same k j)) [
      | inl e ↦ rw e (pf v p, h)
      | inr e ↦ rw e (elim (Bool-cases (before k j)) [
        | inl e' ↦ rw e' (pf d pd, (p, h))
        | inr e' ↦ rw e' (p, upsert-Values k d f m pd pf h)
      ])
    ]

    pub adjust-Values :
        (k : Bytes) (f : V → V) (m : Map V)
        → ((v : V) → P v → P (f v))
        → Values m
        → Values (adjust k f m)
    unfolding adjust
    adjust-Values k f [] pf h = tt
    adjust-Values k f ((j, v) ∷ m) pf (p, h) = elim (Bool-cases (same k j)) [
      | inl e ↦ rw e (pf v p, h)
      | inr e ↦ rw e (p, adjust-Values k f m pf h)
    ]

    pub lookup-Values : (k : Bytes) (d : V) (m : Map V) → P d → Values m → P (get_or d (lookup k m))
    unfolding lookup
    lookup-Values k d [] pd h = pd
    lookup-Values k d ((j, v) ∷ m) pd (p, h) = elim (Bool-cases (same k j)) [
      | inl e ↦ rw e p
      | inr e ↦ rw e (lookup-Values k d m pd h)
    ]
