-- ===== src/Proto/Spec/Chunks.antt =====
-- `Range::chunks` of crates/nntp-proto/src/spec.rs cuts a range into consecutive pieces.
use rust_nntp.Prelude.{
  ℕ, zero, suc, ◌+◌, ◌-◌, ◌≤◌, ◌<◌, min, true, false, some, List, [], ◌∷◌, ◌≡◌, refl, arith, inl,
  inr, leb, ◌==◌, Bool-cases, u64_max, any, saturating_add, add_u64,
}
use rust_nntp.Proto.Spec.{Range, single, between, from, new_between, contains, chunk_loop, chunks}

-- The ranges are non-empty, stand one behind the other without a gap from `low` to `high`, hold at
-- most `chunk` numbers each, and all but the last exactly `chunk`.
abbrev pub Tiles : ℕ → ℕ → ℕ → List Range → Type 0
Tiles chunk low high [] = ⊥
Tiles chunk low high (between l h ∷ []) = (l ≡ low) × (h ≡ high) × (l ≤ h) × (h + 1 ≤ l + chunk)
Tiles chunk low high (between l h ∷ r ∷ rs) =
    (l ≡ low) × (h + 1 ≡ l + chunk) × (h < high) × Tiles chunk (h + 1) high (r ∷ rs)
Tiles chunk low high (_ ∷ _) = ⊥

Tiles-cons :
    (chunk l h high : ℕ) (rs : List Range)
    → h + 1 ≡ l + chunk
    → h < high
    → Tiles chunk (h + 1) high rs
    → Tiles chunk l high (between l h ∷ rs)
Tiles-cons chunk l h high [] e less t = absurd t
Tiles-cons chunk l h high (r ∷ rs) e less t = (refl, e, less, t)

chunk_loop-Tiles :
    (fuel chunk high start : ℕ)
    → high < start + fuel
    → start ≤ high
    → high ≤ u64_max
    → 0 < chunk
    → (rs : List Range) × (chunk_loop fuel chunk high start ≡ some rs) × Tiles chunk start high rs
unfolding chunk_loop new_between
chunk_loop-Tiles zero chunk high start f sh hm c = absurd (omega arith)
chunk_loop-Tiles (suc fuel) chunk high start f sh hm c =
    let end = min (saturating_add start (chunk - 1)) high in
    let ordered : leb start end ≡ true = ground arith in
    elim (Bool-cases (leb high end)) [
      | inl e ↦
          let last : end ≡ high = ground arith in
          (between start end ∷ [], rw (e, ordered), omega arith)
      | inr e ↦
          let next : add_u64 end 1 ≡ end + 1 = ground arith in
          let (rs, more, tiles) =
            chunk_loop-Tiles fuel chunk high (end + 1) (ground arith) (ground arith) hm c in
          (
            between start end ∷ rs,
            rw (e, ordered, next, more),
            Tiles-cons chunk start end high rs (ground arith) (ground arith) tiles,
          )
    ]

-- If the bounds are in order, the upper one fits 64 bits and the width is not 0, then `chunks` ends,
-- and cuts the range into consecutive pieces without a gap or an overlap, all of `chunk` numbers but
-- the last, which has at most as many.
pub chunks-Tiles :
    (low high chunk : ℕ)
    → low ≤ high
    → high ≤ u64_max
    → 0 < chunk
    → (rs : List Range) × (chunks (between low high) chunk ≡ some rs) × Tiles chunk low high rs
unfolding chunks
chunks-Tiles low high chunk lh hm c =
    let cut : (chunk == 0) ≡ false = ground arith in
    let (rs, e, t) = chunk_loop-Tiles (high - low + 1) chunk high low (omega arith) lh hm c in
    (rs, rw (cut, e), t)

Tiles-contains :
    (chunk low high : ℕ) (rs : List Range) (n : ℕ)
    → 0 < chunk
    → Tiles chunk low high rs
    → any (λ r. contains r n) rs ≡ contains (between low high) n
unfolding contains
Tiles-contains chunk low high [] n c t = absurd t
Tiles-contains chunk low high (single k ∷ rs) n c t = absurd t
Tiles-contains chunk low high (from k ∷ rs) n c t = absurd t
Tiles-contains chunk low high (between l h ∷ []) n c (p, q, r, s) = ground arith
Tiles-contains chunk low high (between l h ∷ r ∷ rs) n c (p, q, less, t) =
    ground (arith, Tiles-contains chunk (h + 1) high (r ∷ rs) n c t)

-- If the bounds are in order and the upper one fits 64 bits, then the pieces hold the numbers of the
-- range and no other.
pub chunks-contains :
    (low high chunk n : ℕ) (rs : List Range)
    → low ≤ high
    → high ≤ u64_max
    → chunks (between low high) chunk ≡ some rs
    → any (λ r. contains r n) rs ≡ contains (between low high) n
unfolding chunks contains new_between
chunks-contains low high zero n rs lh hm e = ground arith
chunks-contains low high (suc c) n rs lh hm e =
    let (rs', cut, tiles) = chunks-Tiles low high (suc c) lh hm (omega arith) in
    let same : rs' ≡ rs = ground arith in
    rw same at (Tiles-contains (suc c) low high rs' n (omega arith) tiles)
