-- ===== src/Prelude/Text/Laws.antt =====
-- Laws of trimming and splitting.
use Prim.Native.Nat.{ℕ}
use mathlib.Core.Bool.{false}
use mathlib.Core.List.{List, [], ◌∷◌, ◌++◌}
use mathlib.Core.Logic.{◌≢◌, inl, inr}
use mathlib.Core.Option.{none, some}
use mathlib.Core.Path.{◌≡◌, refl}
use native.Mathlib.Omega.{arith}
use rust_nntp.Prelude.Lists.{All}
use rust_nntp.Prelude.Tests.{◌==◌, Bool-cases}
use rust_nntp.Prelude.Text.{Bytes, is_whitespace, trim_start, trim_end, trim, split, split_once}

abbrev pub IsSolid : ℕ → Type 0
IsSolid c = is_whitespace c ≡ false

abbrev pub Lacks : ℕ → Bytes → Type 0
Lacks b = All (λ c. c ≢ b)

trim_start-IsSolid : (s : Bytes) → All IsSolid s → trim_start s ≡ s
unfolding trim_start
trim_start-IsSolid [] h = refl
trim_start-IsSolid (c ∷ s) (h, _) = rw h

pub trim_end-IsSolid : (s : Bytes) → All IsSolid s → trim_end s ≡ s
unfolding trim_end
trim_end-IsSolid [] h = refl
trim_end-IsSolid (c ∷ []) (h, _) = rw h
trim_end-IsSolid (c ∷ d ∷ s) (_, h) = rw (trim_end-IsSolid (d ∷ s) h)

-- A text without whitespace is its own trim.
pub trim-IsSolid : (s : Bytes) → All IsSolid s → trim s ≡ s
unfolding trim
trim-IsSolid s h = rw (trim_start-IsSolid s h) (trim_end-IsSolid s h)

pub split-cons : (sep : ℕ) (s : Bytes) → (p : Bytes) × (ps : List Bytes) × (split sep s ≡ p ∷ ps)
unfolding split
split-cons sep [] = ([], [], refl)
split-cons sep (c ∷ s) =
    let (p, ps, e) = split-cons sep s in
    elim (Bool-cases (c == sep)) [
      | inl at ↦ ([], p ∷ ps, rw (e, at))
      | inr past ↦ (c ∷ p, ps, rw (e, past))
    ]

pub split-Lacks : (sep : ℕ) (p : Bytes) → Lacks sep p → split sep p ≡ p ∷ []
unfolding split
split-Lacks sep [] h = refl
split-Lacks sep (c ∷ p) (hc, h) = rw (split-Lacks sep p h) (ground arith)

pub split-append :
    (sep : ℕ) (p rest : Bytes) → Lacks sep p → split sep (p ++ sep ∷ rest) ≡ p ∷ split sep rest
unfolding split
split-append sep [] rest h = let (q, qs, e) = split-cons sep rest in rw e (ground arith)
split-append sep (c ∷ p) rest (hc, h) = rw (split-append sep p rest h) (ground arith)

pub split_once-Lacks : (sep : ℕ) (p : Bytes) → Lacks sep p → split_once sep p ≡ none
unfolding split_once
split_once-Lacks sep [] h = refl
split_once-Lacks sep (c ∷ p) (hc, h) = rw (split_once-Lacks sep p h) (ground arith)

pub split_once-append :
    (sep : ℕ) (p rest : Bytes) → Lacks sep p → split_once sep (p ++ sep ∷ rest) ≡ some (p, rest)
unfolding split_once
split_once-append sep [] rest h = ground arith
split_once-append sep (c ∷ p) rest (hc, h) = rw (split_once-append sep p rest h) (ground arith)
