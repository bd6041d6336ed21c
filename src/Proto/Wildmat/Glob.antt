-- ===== src/Proto/Wildmat/Glob.antt =====
-- What a pattern with `*` and `?` matches, by recursion on the pattern with every way to fill a
-- star.
use rust_nntp.Prelude.Text.{Bytes}
use rust_nntp.Prelude.{
  ℕ, zero, suc, ◌≤◌, ◌<◌, Bool, true, false, ◌||◌, [], ◌∷◌, ◌++◌, ◌≡◌, ◌≢◌, refl, sym, ◌∙◌, arith,
  ◌==◌, if◌then◌else◌, Bool-cases, inl, inr, length, drop, All,
}
use rust_nntp.Proto.Wildmat.{only_stars}

-- Whether the test holds of a final part of the name, the whole and the empty one included.
unfoldable pub some_suffix : (Bytes → Bool) → Bytes → Bool
some_suffix f [] = f []
some_suffix f (c ∷ n) = f (c ∷ n) || some_suffix f n

unfoldable pub glob : Bytes → Bytes → Bool
glob [] [] = true
glob [] (c ∷ n) = false
glob (d ∷ p) [] = if d == b'*' then glob p [] else false
glob (d ∷ p) (c ∷ n) =
    let rest = glob p n in
    if d == b'*' then some_suffix (glob p) (c ∷ n) else if d == b'?' || d == c then rest else false

pub glob-star : (p n : Bytes) → glob (b'*' ∷ p) n ≡ some_suffix (glob p) n
unfolding glob some_suffix
glob-star p [] = refl
glob-star p (c ∷ n) = refl

pub glob-only_stars : (p : Bytes) → glob p [] ≡ only_stars p
unfolding glob only_stars
glob-only_stars [] = refl
glob-only_stars (d ∷ p) = rw (glob-only_stars p) refl

-- No star.
abbrev pub IsPlainText : Bytes → Type 0
IsPlainText = All (λ d. d ≢ b'*')

-- What stands before the first star takes one character for each of its own.
glob-plain :
    (u r m : Bytes)
    → IsPlainText u
    → glob (u ++ r) m ≡ true
    → (glob r (drop (length u) m) ≡ true) × (length u ≤ length m)
unfolding glob
glob-plain [] r m h e = (e, omega arith)
glob-plain (d ∷ u) r [] (hd, h) e = absurd (ground (arith, hd, e))
glob-plain (d ∷ u) r (c ∷ m) (hd, h) e =
    let plain : (d == b'*') ≡ false = ground (arith, hd) in
    elim (Bool-cases (d == b'?' || d == c)) [
      | inl same ↦
          let (rest, short) = glob-plain u r m h (rw (plain, same) at e) in
          (rest, omega (arith, short))
      | inr other ↦ absurd (false-ne (rw (plain, other) at e))
    ]
  where
    false-ne : false ≡ true → ⊥
    false-ne h = ground (arith, h)

drop_more :
    (f : Bytes → Bool) (k : ℕ) (t : Bytes)
    → some_suffix f (drop (suc k) t) ≡ true
    → some_suffix f (drop k t) ≡ true
unfolding some_suffix
drop_more f zero [] e = e
drop_more f (suc k) [] e = e
drop_more f zero (d ∷ t) e = ground (arith, e)
drop_more f (suc k) (d ∷ t) e = drop_more f k t e

pub drop_cons :
    (f : Bytes → Bool) (k : ℕ) (d : ℕ) (t : Bytes)
    → some_suffix f (drop k t) ≡ true
    → some_suffix f (drop k (d ∷ t)) ≡ true
unfolding some_suffix
drop_cons f zero d t e = ground (arith, e)
drop_cons f (suc k) d t e = drop_more f k t e

-- A match of a star further on, behind a part without stars, is a match of the next star here.
pub suffix-star :
    (u p t : Bytes)
    → IsPlainText u
    → some_suffix (glob (u ++ b'*' ∷ p)) t ≡ true
    → some_suffix (glob p) (drop (length u) t) ≡ true
unfolding some_suffix
suffix-star u p [] h e = sym (glob-star p (drop (length u) [])) ∙ (glob-plain u (b'*' ∷ p) [] h e).0
suffix-star u p (c ∷ t) h e = elim (Bool-cases (glob (u ++ b'*' ∷ p) (c ∷ t))) [
  | inl here ↦
      sym (glob-star p (drop (length u) (c ∷ t))) ∙ (glob-plain u (b'*' ∷ p) (c ∷ t) h here).0
  | inr not_here ↦ drop_cons (glob p) (length u) c t (suffix-star u p t h (rw not_here at e))
]

-- A part without stars matches nothing shorter.
pub suffix-short :
    (u p t : Bytes) → IsPlainText u → length t < length u → some_suffix (glob (u ++ p)) t ≡ false
unfolding some_suffix
suffix-short u p [] h less = elim (Bool-cases (glob (u ++ p) [])) [
  | inr e ↦ e
  | inl e ↦ absurd (omega (arith, less, (glob-plain u p [] h e).1))
]
suffix-short u p (c ∷ t) h less = elim (Bool-cases (glob (u ++ p) (c ∷ t))) [
  | inr e ↦ rw e (suffix-short u p t h (omega (arith, less)))
  | inl e ↦ absurd (omega (arith, less, (glob-plain u p (c ∷ t) h e).1))
]
