-- ===== src/Prelude/SortedMap/Order.antt =====
-- The order of the keys is strict and total.
use mathlib.Core.Bool.{true, false}
use mathlib.Core.List.{[], ◌∷◌}
use mathlib.Core.Path.{◌≡◌, refl}
use native.Mathlib.Omega.{arith}
use rust_nntp.Prelude.SortedMap.{same, before}
use rust_nntp.Prelude.Text.{Bytes}

pub same_refl : (s : Bytes) → same s s ≡ true
unfolding same
same_refl [] = refl
same_refl (c ∷ s) = ground (arith, same_refl s)

pub same-eq : (s t : Bytes) → same s t ≡ true → s ≡ t
unfolding same
same-eq [] [] e = refl
same-eq [] (d ∷ t) e = cc
same-eq (c ∷ s) [] e = cc
same-eq (c ∷ s) (d ∷ t) e =
    let tails : s ≡ t = same-eq s t (ground arith) in let heads : c ≡ d = ground arith in cc

pub before_irrefl : (s : Bytes) → before s s ≡ false
unfolding before
before_irrefl [] = refl
before_irrefl (c ∷ s) = ground (arith, before_irrefl s)

pub before_trans : (r s t : Bytes) → before r s ≡ true → before s t ≡ true → before r t ≡ true
unfolding before
before_trans r s [] p q = q
before_trans r [] (e ∷ t) p q = cc
before_trans [] (d ∷ s) (e ∷ t) p q = refl
before_trans (c ∷ r) (d ∷ s) (e ∷ t) p q = ground (arith, before_trans r s t)

-- One of two different keys stands before the other.
pub before-total : (s t : Bytes) → same s t ≡ false → before s t ≡ false → before t s ≡ true
unfolding same before
before-total [] [] n b = cc
before-total (c ∷ s) [] n b = refl
before-total [] (d ∷ t) n b = cc
before-total (c ∷ s) (d ∷ t) n b = ground (arith, before-total s t)

pub before-differ : (s t : Bytes) → before s t ≡ true → same s t ≡ false
unfolding same before
before-differ s [] b = cc
before-differ [] (d ∷ t) b = refl
before-differ (c ∷ s) (d ∷ t) b = ground (arith, before-differ s t)

pub same-sym : (s t : Bytes) → same s t ≡ same t s
unfolding same
same-sym [] [] = refl
same-sym [] (d ∷ t) = refl
same-sym (c ∷ s) [] = refl
same-sym (c ∷ s) (d ∷ t) = ground (arith, same-sym s t)
