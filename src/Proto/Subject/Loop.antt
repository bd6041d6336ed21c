-- ===== src/Proto/Subject/Loop.antt =====
-- The loop of `normalise_subject` of crates/nntp-proto/src/thread.rs ends, and what it leaves.
use rust_nntp.Prelude.Text.{Bytes, split_once, trim_start, trim_end, is_whitespace}
use rust_nntp.Prelude.{
  ℕ, zero, suc, ◌≤◌, ◌<◌, Bool, true, false, ◌||◌, Option, none, some, [], ◌∷◌, ◌≡◌, refl, sym, ap,
  ◌∙◌, arith, if◌then◌else◌, length, Bool-cases, inl, inr,
}
use rust_nntp.Proto.Subject.Laws.{IsTrimmed, LeftBehind, strip_round-IsBehind}
use rust_nntp.Proto.Subject.{strip_tag, marker_tail, strip_marker, strip_round, strip_loop}

-- A text without white space at its ends, that has nothing left to take off.
pub record IsStripped (s : Bytes) : Type 0 where
  pub stopped : strip_round s ≡ none
  pub end_trimmed : IsTrimmed s
  pub start_trimmed : trim_start s ≡ s

-- What the loop does with the result of a round, for a given rest of the loop.
abbrev pub continue :
    (Bytes → Bool → Bytes × Bool) → Bytes → Bool → Option (Bytes × Bool) → Bytes × Bool
continue loop s was none = (s, was)
continue loop s was (some (b, marked)) = loop b (was || marked)

pub strip_loop-suc :
    (fuel : ℕ) (s : Bytes) (was : Bool)
    → strip_loop (suc fuel) s was ≡ continue (strip_loop fuel) s was (strip_round s)
unfolding strip_loop
strip_loop-suc fuel s was = by_round (strip_round s)
  where
    by_round :
        (o : Option (Bytes × Bool))
        → (elim o as (λ x. Bytes × Bool) [
          | none ↦ (s, was)
          | some (b, marked) ↦ strip_loop fuel b (was || marked)
        ])
          ≡ continue (strip_loop fuel) s was o
    by_round none = refl
    by_round (some x) = refl

-- With fuel for the length of the text, the loop ends with such a text.
pub strip_loop-IsStripped :
    (fuel : ℕ) (s : Bytes) (was : Bool)
    → length s ≤ fuel
    → IsTrimmed s
    → trim_start s ≡ s
    → IsStripped (strip_loop fuel s was).0
unfolding strip_loop
strip_loop-IsStripped zero [] was fits h t = record {
  stopped = unfold strip_round strip_tag strip_marker split_once marker_tail in refl;
  end_trimmed = h;
  start_trimmed = t;
}
strip_loop-IsStripped zero (c ∷ s) was fits h t = absurd (omega (arith, fits))
strip_loop-IsStripped (suc fuel) s was fits h t = rw (strip_loop-suc fuel s was) (
    round (strip_round s) refl (strip_round-IsBehind s)
      (λ b marked l. strip_loop-IsStripped fuel b (was || marked) (omega (arith, l, fits))))
  where
    round :
        (o : Option (Bytes × Bool))
        → strip_round s ≡ o
        → LeftBehind s o
        → ((b : Bytes) (marked : Bool)
            → length b < length s
            → IsTrimmed b
            → trim_start b ≡ b
            → IsStripped (strip_loop fuel b (was || marked)).0)
        → IsStripped (continue (strip_loop fuel) s was o).0
    round none e b rest = record { stopped = e; end_trimmed = h; start_trimmed = t }
    round (some (b, marked)) e ((f, l), d) rest = rest b marked l (f h) d

pub strip_loop-nil : (fuel : ℕ) (was : Bool) → strip_loop fuel [] was ≡ ([], was)
unfolding strip_loop strip_round strip_tag strip_marker split_once marker_tail
strip_loop-nil zero was = refl
strip_loop-nil (suc fuel) was = refl

-- A marker that was taken off before is kept.
pub strip_loop-flag :
    (fuel : ℕ) (s : Bytes) (was : Bool)
    → strip_loop fuel s was ≡ ((strip_loop fuel s false).0, was || (strip_loop fuel s false).1)
strip_loop-flag zero s was = unfold strip_loop in ap (λ b. (s, b)) (or_false was)
  where
    or_false : (b : Bool) → b ≡ b || false
    or_false true = refl
    or_false false = refl
strip_loop-flag (suc fuel) s was = rw (strip_loop-suc fuel s was) (
    rw (strip_loop-suc fuel s false)
      (round (strip_round s) (λ b flag. strip_loop-flag fuel b flag)))
  where
    or_assoc : (a b c : Bool) → (a || b) || c ≡ a || (b || c)
    or_assoc true b c = refl
    or_assoc false b c = refl

    or_false : (b : Bool) → b ≡ b || false
    or_false true = refl
    or_false false = refl

    round :
        (o : Option (Bytes × Bool))
        → ((b : Bytes) (flag : Bool)
            → strip_loop fuel b flag
              ≡ ((strip_loop fuel b false).0, flag || (strip_loop fuel b false).1))
        → continue (strip_loop fuel) s was o ≡ (
          (continue (strip_loop fuel) s false o).0,
          was || (continue (strip_loop fuel) s false o).1,
        )
    round none rest = ap (λ b. (s, b)) (or_false was)
    round (some (b, marked)) rest =
        rest b (was || marked)
        ∙ ap (λ c. ((strip_loop fuel b false).0, c))
            (or_assoc was marked (strip_loop fuel b false).1)
        ∙ ap (λ r. let q : Bytes × Bool = (r.0, was || r.1) in q) (sym (rest b marked))

-- More fuel changes nothing.
pub strip_loop-more :
    (f g : ℕ) (s : Bytes) (was : Bool)
    → length s ≤ f
    → length s ≤ g
    → strip_loop f s was ≡ strip_loop g s was
strip_loop-more zero g [] was hf hg = strip_loop-nil zero was ∙ sym (strip_loop-nil g was)
strip_loop-more zero g (c ∷ s) was hf hg = absurd (omega (arith, hf))
strip_loop-more (suc f) zero [] was hf hg =
    strip_loop-nil (suc f) was ∙ sym (strip_loop-nil zero was)
strip_loop-more (suc f) zero (c ∷ s) was hf hg = absurd (omega (arith, hg))
strip_loop-more (suc f) (suc g) s was hf hg =
    strip_loop-suc f s was
    ∙ round (strip_round s) (strip_round-IsBehind s)
        (λ b flag l. strip_loop-more f g b flag (omega (arith, l, hf)) (omega (arith, l, hg)))
    ∙ sym (strip_loop-suc g s was)
  where
    round :
        (o : Option (Bytes × Bool))
        → LeftBehind s o
        → ((b : Bytes) (flag : Bool)
            → length b < length s
            → strip_loop f b flag ≡ strip_loop g b flag)
        → continue (strip_loop f) s was o ≡ continue (strip_loop g) s was o
    round none b rest = refl
    round (some (b, marked)) ((_, l), d) rest = rest b (was || marked) l

pub trim_end_idem : (s : Bytes) → trim_end (trim_end s) ≡ trim_end s
unfolding trim_end
trim_end_idem [] = refl
trim_end_idem (c ∷ s) = again (trim_end s) (trim_end_idem s)
  where
    blank :
        (b : Bool)
        → is_whitespace c ≡ b
        → trim_end (if b then [] else c ∷ []) ≡ (if b then [] else c ∷ [])
    blank true e = refl
    blank false e = rw e refl

    again :
        (r : Bytes)
        → trim_end r ≡ r
        → trim_end (elim r as (λ x. Bytes) [
          | [] ↦ if is_whitespace c then [] else c ∷ []
          | d ∷ t ↦ c ∷ d ∷ t
        ])
          ≡ elim r as (λ x. Bytes) [
            | [] ↦ if is_whitespace c then [] else c ∷ []
            | d ∷ t ↦ c ∷ d ∷ t
          ]
    again [] h = blank (is_whitespace c) refl
    again (d ∷ t) h = rw h refl

pub trim_start-trim_end : (s : Bytes) → trim_start (trim_end s) ≡ trim_end (trim_start s)
unfolding trim_start trim_end
trim_start-trim_end [] = refl
trim_start-trim_end (c ∷ s) = elim (Bool-cases (is_whitespace c)) [
  | inl e ↦ dropped (trim_end s) e ∙ trim_start-trim_end s ∙ ap trim_end (front true e)
  | inr e ↦ kept (trim_end s) e ∙ ap trim_end (front false e)
]
  where
    front :
        (b : Bool) → is_whitespace c ≡ b → (if b then trim_start s else c ∷ s) ≡ trim_start (c ∷ s)
    front b e = rw e refl

    dropped :
        (r : Bytes)
        → is_whitespace c ≡ true
        → trim_start (elim r as (λ x. Bytes) [
          | [] ↦ if is_whitespace c then [] else c ∷ []
          | d ∷ t ↦ c ∷ d ∷ t
        ])
          ≡ trim_start r
    dropped [] e = rw e refl
    dropped (d ∷ t) e = rw e refl

    kept :
        (r : Bytes)
        → is_whitespace c ≡ false
        → trim_start (elim r as (λ x. Bytes) [
          | [] ↦ if is_whitespace c then [] else c ∷ []
          | d ∷ t ↦ c ∷ d ∷ t
        ])
          ≡ elim r as (λ x. Bytes) [
            | [] ↦ if is_whitespace c then [] else c ∷ []
            | d ∷ t ↦ c ∷ d ∷ t
          ]
    kept [] e = rw e (rw e refl)
    kept (d ∷ t) e = rw e refl
