-- ===== src/ReadState/Set/Newsrc/Denotes.antt =====
-- What a piece of a range list means, without `parse_piece` of
-- crates/nntp-tui/src/readstate/set.rs, and that `parse_piece` reads exactly this.
use mathlib.Core.Option.{some-injective}
use rust_nntp.Prelude.Decimal.{parse_u64}
use rust_nntp.Prelude.Text.{Bytes, trim, split_once}
use rust_nntp.Prelude.Text.Laws.{Lacks, split_once-Lacks, split_once-append}
use rust_nntp.Prelude.{
  ℕ, Option, none, some, [], ◌∷◌, ◌++◌, ◌≡◌, ◌⊎◌, inl, inr, refl, ap, sym, ◌∙◌, arith, ◌==◌,
  Bool-cases,
}
use rust_nntp.ReadState.Set.Newsrc.{both, parse_high, parse_sides, parse_piece}

-- A number `n` without a hyphen stands for the range from `n` to `n`, and two numbers on the two
-- sides of the first hyphen for the range between them. White space around the numbers is allowed,
-- and neither number may be missing.
pub data Denotes (p : Bytes) (low high : ℕ) : Type 0 where
  one : Lacks b'-' p → parse_u64 (trim p) ≡ some low → low ≡ high → Denotes p low high
  two :
      (a b : Bytes)
      → p ≡ a ++ b'-' ∷ b
      → Lacks b'-' a
      → parse_u64 (trim a) ≡ some low
      → parse_u64 (trim b) ≡ some high
      → Denotes p low high

-- Where a text is split: nowhere, or at the first separator.
split_once-cases :
    (sep : ℕ) (s : Bytes)
    → (Lacks sep s × (split_once sep s ≡ none))
      ⊎ ((a : Bytes) × (b : Bytes) × (s ≡ a ++ sep ∷ b)
          × Lacks sep a
          × (split_once sep s ≡ some (a, b)))
unfolding split_once
split_once-cases sep [] = inl (tt, refl)
split_once-cases sep (c ∷ s) = elim (Bool-cases (c == sep)) [
  | inl at ↦ inr ([], s, ground arith, tt, rw at refl)
  | inr past ↦ elim (split_once-cases sep s) [
    | inl (h, e) ↦ inl ((ground arith, h), rw (past, e) refl)
    | inr (a, b, e, h, q) ↦ inr (c ∷ a, b, ap (λ x. c ∷ x) e, (ground arith, h), rw (past, q) refl)
  ]
]

both-some :
    (a b : Option ℕ) (low high : ℕ) → both a b ≡ some (low, high) → (a ≡ some low) × (b ≡ some high)
both-some none b low high e = cc
both-some (some x) none low high e = cc
both-some (some x) (some y) low high e =
    let at : (x, y) ≡ (low, high) = some-injective _ _ e in
    (ap (λ r. some (r.0)) at, ap (λ r. some (r.1)) at)

parse_high-some :
    (t u : Bytes) (low high : ℕ)
    → parse_high t u ≡ some (low, high)
    → (parse_u64 t ≡ some low) × (parse_u64 u ≡ some high)
unfolding parse_high
parse_high-some t [] low high e = cc
parse_high-some t (c ∷ s) low high e = both-some (parse_u64 t) (parse_u64 (c ∷ s)) low high e

parse_high-both :
    (t u : Bytes) (low high : ℕ)
    → parse_u64 t ≡ some low
    → parse_u64 u ≡ some high
    → parse_high t u ≡ some (low, high)
unfolding parse_high parse_u64
parse_high-both t [] low high e q = cc
parse_high-both t (c ∷ s) low high e q = rw (e, q) refl

-- What is parsed is what the piece means.
pub parse_piece-Denotes :
    (p : Bytes) (low high : ℕ) → parse_piece p ≡ some (low, high) → Denotes p low high
unfolding parse_piece parse_sides
parse_piece-Denotes p low high e = elim (split_once-cases b'-' p) [
  | inl (h, q) ↦
      let sides =
        both-some (parse_u64 (trim p)) (parse_u64 (trim p)) low high
          (ap (parse_sides p) (sym q) ∙ e) in
      one h sides.0 (some-injective low high (sym sides.0 ∙ sides.1))
  | inr (a, b, at, h, q) ↦
      let sides = parse_high-some (trim a) (trim b) low high (ap (parse_sides p) (sym q) ∙ e) in
      two a b at h sides.0 sides.1
]

-- What the piece means is parsed.
pub Denotes-parse_piece :
    (p : Bytes) (low high : ℕ) → Denotes p low high → parse_piece p ≡ some (low, high)
unfolding parse_piece parse_sides
Denotes-parse_piece p low high (one h e same) =
    ap (parse_sides p) (split_once-Lacks b'-' p h)
    ∙ ap (λ n. both n n) e
    ∙ ap (λ n. some (low, n)) same
Denotes-parse_piece p low high (two a b at h e q) =
    ap (parse_sides p) (ap (split_once b'-') at ∙ split_once-append b'-' a b h)
    ∙ parse_high-both (trim a) (trim b) low high e q
