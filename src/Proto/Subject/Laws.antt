-- ===== src/Proto/Subject/Laws.antt =====
-- A round of `normalise_subject` of crates/nntp-proto/src/thread.rs takes something off in front.
use rust_nntp.Prelude.Text.{Bytes, split_once, trim_start, trim_end, is_whitespace}
use rust_nntp.Prelude.{
  ℕ, ◌≤◌, ◌<◌, Bool, true, false, Option, none, some, [], ◌∷◌, ◌≡◌, refl, ap, ◌∙◌, arith, ◌==◌,
  if◌then◌else◌, length, any, Bool-cases, inl, inr,
}
use rust_nntp.Proto.Subject.{tag_tail, strip_tag, is_marker, marker_tail, strip_marker, strip_round}

-- No white space at the end
abbrev pub IsTrimmed : Bytes → Type 0
IsTrimmed s = trim_end s ≡ s

abbrev behind_first : Bytes → Bytes
behind_first [] = []
behind_first (c ∷ s) = s

IsTrimmed-tail : (c : ℕ) (s : Bytes) → IsTrimmed (c ∷ s) → IsTrimmed s
unfolding trim_end
IsTrimmed-tail c s h = kept (trim_end s) refl h
  where
    kept :
        (r : Bytes)
        → trim_end s ≡ r
        → (elim r as (λ x. Bytes) [
          | [] ↦ if is_whitespace c then [] else c ∷ []
          | d ∷ t ↦ c ∷ d ∷ t
        ])
          ≡ c ∷ s
        → trim_end s ≡ s
    kept [] e q = elim (Bool-cases (is_whitespace c)) [
      | inl w ↦ absurd (ground (arith, rw w at q))
      | inr w ↦ e ∙ ap behind_first (rw w at q)
    ]
    kept (d ∷ t) e q = e ∙ ap behind_first q

pub IsTrimmed-trim_start : (s : Bytes) → IsTrimmed s → IsTrimmed (trim_start s)
unfolding trim_start
IsTrimmed-trim_start [] h = h
IsTrimmed-trim_start (c ∷ s) h = elim (Bool-cases (is_whitespace c)) [
  | inl e ↦ rw e (IsTrimmed-trim_start s (IsTrimmed-tail c s h))
  | inr e ↦ rw e h
]

pub length-trim_start : (s : Bytes) → length (trim_start s) ≤ length s
unfolding trim_start
length-trim_start [] = omega arith
length-trim_start (c ∷ s) = elim (Bool-cases (is_whitespace c)) [
  | inl e ↦ rw e (omega (arith, length-trim_start s))
  | inr e ↦ rw e (omega arith)
]

-- A shorter text that is trimmed where the whole is.
abbrev pub IsBehind : Bytes → Bytes → Type 0
IsBehind s b = (IsTrimmed s → IsTrimmed b) × (length b < length s)

IsBehind-cons : (c : ℕ) (s b : Bytes) → IsBehind s b → IsBehind (c ∷ s) b
IsBehind-cons c s b (f, l) = (λ h. f (IsTrimmed-tail c s h), omega (arith, l))

pub trim_start_idem : (s : Bytes) → trim_start (trim_start s) ≡ trim_start s
unfolding trim_start
trim_start_idem [] = refl
trim_start_idem (c ∷ s) = elim (Bool-cases (is_whitespace c)) [
  | inl e ↦ rw e (trim_start_idem s)
  | inr e ↦ rw e (rw e refl)
]

-- And there is no white space in front of it.
abbrev pub IsLeft : Bytes → Bytes → Type 0
IsLeft s b = IsBehind s b × (trim_start b ≡ b)

IsLeft-trim_start : (s b : Bytes) → IsBehind s b → IsLeft s (trim_start b)
IsLeft-trim_start s b (f, l) =
    ((λ h. IsTrimmed-trim_start b (f h), omega (arith, l, length-trim_start b)), trim_start_idem b)

abbrev SecondBehind : Bytes → Option (Bytes × Bytes) → Type 0
SecondBehind s none = Unit
SecondBehind s (some (a, b)) = IsBehind s b

abbrev TailBehind : Bytes → Option Bytes → Type 0
TailBehind s none = Unit
TailBehind s (some b) = IsLeft s b

abbrev pub LeftBehind : Bytes → Option (Bytes × Bool) → Type 0
LeftBehind s none = Unit
LeftBehind s (some (b, marked)) = IsLeft s b

split_once-IsBehind : (c : ℕ) (s : Bytes) → SecondBehind s (split_once c s)
unfolding split_once
split_once-IsBehind c [] = tt
split_once-IsBehind c (d ∷ s) = elim (Bool-cases (d == c)) [
  | inl e ↦ rw e (IsTrimmed-tail d s, omega arith)
  | inr e ↦ rw e (longer (split_once c s) (split_once-IsBehind c s))
]
  where
    longer :
        (o : Option (Bytes × Bytes))
        → SecondBehind s o
        → SecondBehind (d ∷ s) (elim o as (λ x. Option (Bytes × Bytes)) [
          | none ↦ none
          | some (a, b) ↦ some (d ∷ a, b)
        ])
    longer none h = tt
    longer (some (a, b)) h = IsBehind-cons d s b h

tag_tail-IsBehind :
    (s : Bytes) (o : Option (Bytes × Bytes)) → SecondBehind s o → TailBehind s (tag_tail o)
unfolding tag_tail
tag_tail-IsBehind s none h = tt
tag_tail-IsBehind s (some ([], b)) h = tt
tag_tail-IsBehind s (some (c ∷ a, b)) h = elim (Bool-cases (any (λ d. d == b'[') (c ∷ a))) [
  | inl e ↦ rw e tt
  | inr e ↦ rw e (IsLeft-trim_start s b h)
]

marker_tail-IsBehind :
    (s : Bytes) (o : Option (Bytes × Bytes)) → SecondBehind s o → TailBehind s (marker_tail o)
unfolding marker_tail
marker_tail-IsBehind s none h = tt
marker_tail-IsBehind s (some (a, b)) h = elim (Bool-cases (is_marker a)) [
  | inl e ↦ rw e (IsLeft-trim_start s b h)
  | inr e ↦ rw e tt
]

strip_tag-IsBehind : (s : Bytes) → TailBehind s (strip_tag s)
unfolding strip_tag
strip_tag-IsBehind [] = tt
strip_tag-IsBehind (c ∷ s) = elim (Bool-cases (c == b'[')) [
  | inl e ↦
      rw e
        (longer (tag_tail (split_once b']' s)) (tag_tail-IsBehind s _ (split_once-IsBehind b']' s)))
  | inr e ↦ rw e tt
]
  where
    longer : (o : Option Bytes) → TailBehind s o → TailBehind (c ∷ s) o
    longer none h = tt
    longer (some b) (h, t) = (IsBehind-cons c s b h, t)

-- Each round leaves less, and keeps the end trimmed.
pub strip_round-IsBehind : (s : Bytes) → LeftBehind s (strip_round s)
unfolding strip_round strip_marker
strip_round-IsBehind s = by_tag (strip_tag s) (strip_tag-IsBehind s)
  where
    by_marker :
        (o : Option Bytes)
        → TailBehind s o
        → LeftBehind s
            (elim o as (λ x. Option (Bytes × Bool)) [ some tail ↦ some (tail, true) | none ↦ none ])
    by_marker none h = tt
    by_marker (some b) h = h

    by_tag :
        (o : Option Bytes)
        → TailBehind s o
        → LeftBehind s (elim o as (λ x. Option (Bytes × Bool)) [
          | some tail ↦ some (tail, false)
          | none ↦ elim (strip_marker s) [ some tail ↦ some (tail, true) | none ↦ none ]
        ])
    by_tag none h =
        by_marker (strip_marker s) (marker_tail-IsBehind s _ (split_once-IsBehind b':' s))
    by_tag (some b) h = h
