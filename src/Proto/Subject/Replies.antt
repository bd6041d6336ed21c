-- ===== src/Proto/Subject/Replies.antt =====
-- What `normalise_subject` of crates/nntp-proto/src/thread.rs leaves of a subject.
use rust_nntp.Prelude.Text.{
  Bytes, codes, split_once, to_lower, trim, trim_start, trim_end, is_whitespace,
}
use rust_nntp.Prelude.{
  ℕ, zero, suc, ◌≤◌, Bool, true, false, some, [], ◌∷◌, ◌++◌, ◌≡◌, refl, ap, ◌∙◌, arith,
  if◌then◌else◌, length,
}
use rust_nntp.Prelude.SortedMap.{same}
use rust_nntp.Proto.Subject.Laws.{IsTrimmed, length-trim_start, trim_start_idem}
use rust_nntp.Proto.Subject.Loop.{
  IsStripped, strip_loop-IsStripped, strip_loop-flag, strip_loop-more, strip_loop-suc, continue,
  trim_end_idem, trim_start-trim_end,
}
use rust_nntp.Proto.Subject.{
  strip_tag, before_bracket, is_marker, marker_tail, strip_marker, strip_round, strip_loop,
  normalise_subject,
}

trim-IsTrimmed : (s : Bytes) → IsTrimmed (trim s)
unfolding trim
trim-IsTrimmed s = trim_end_idem (trim_start s)

trim-front : (s : Bytes) → trim_start (trim s) ≡ trim s
unfolding trim
trim-front s = trim_start-trim_end (trim_start s) ∙ ap trim_end (trim_start_idem s)

trim-both : (s : Bytes) → IsTrimmed s → trim_start s ≡ s → trim s ≡ s
unfolding trim
trim-both s h t = ap trim_end t ∙ h

-- The loop of a text, before the last `trim`, which changes nothing.
loop_end : (s : Bytes) → IsStripped (strip_loop (length (trim s)) (trim s) false).0
loop_end s =
    strip_loop-IsStripped (length (trim s)) (trim s) false (omega arith) (trim-IsTrimmed s)
      (trim-front s)

subject_left :
    (s : Bytes) → (normalise_subject s).0 ≡ (strip_loop (length (trim s)) (trim s) false).0
unfolding normalise_subject
subject_left s =
    let left = loop_end s in
    trim-both (strip_loop (length (trim s)) (trim s) false).0 left.end_trimmed left.start_trimmed

stripped_stays : (s : Bytes) → IsStripped s → (fuel : ℕ) → strip_loop fuel s false ≡ (s, false)
stripped_stays s h zero = unfold strip_loop in refl
stripped_stays s h (suc fuel) =
    strip_loop-suc fuel s false ∙ ap (continue (strip_loop fuel) s false) h.stopped

normalised : Bytes → Bytes × Bool
normalised s = let r = strip_loop (length s) s false in (trim r.0, r.1)

stripped_subject : (s : Bytes) → IsStripped s → normalise_subject s ≡ (s, false)
unfolding normalise_subject normalised
stripped_subject s h =
    let same_text = trim-both s h.end_trimmed h.start_trimmed in
    ap normalised same_text
    ∙ ap (λ r. let q : Bytes × Bool = (trim r.0, r.1) in q) (stripped_stays s h (length s))
    ∙ ap (λ t. (t, false)) same_text

-- The subject that is left has neither a list tag nor a reply marker in front, and no white space
-- around it; so it is its own normal form, which is not that of a reply.
pub normalise_subject_idem :
    (s : Bytes)
    → IsStripped (normalise_subject s).0
      × (normalise_subject (normalise_subject s).0 ≡ ((normalise_subject s).0, false))
normalise_subject_idem s = (left, again)
  where
    left : IsStripped (normalise_subject s).0
    left = rw (subject_left s) (loop_end s)

    again : normalise_subject (normalise_subject s).0 ≡ ((normalise_subject s).0, false)
    again = stripped_subject (normalise_subject s).0 left

trim_end-keep : (c : ℕ) (s : Bytes) → is_whitespace c ≡ false → trim_end (c ∷ s) ≡ c ∷ trim_end s
unfolding trim_end
trim_end-keep c s e = keep (trim_end s)
  where
    keep :
        (r : Bytes)
        → (elim r as (λ x. Bytes) [
          | [] ↦ if is_whitespace c then [] else c ∷ []
          | d ∷ t ↦ c ∷ d ∷ t
        ])
          ≡ c ∷ r
    keep [] = rw e refl
    keep (d ∷ t) = refl

re_rest : Bytes → Bytes
re_rest s = trim_end (b' ' ∷ s)

trim-re : (s : Bytes) → trim (codes "Re: " ++ s) ≡ codes "Re:" ++ re_rest s
unfolding trim trim_start is_whitespace re_rest
trim-re s =
    trim_end-keep b'R' (b'e' ∷ b':' ∷ b' ' ∷ s) refl
    ∙ ap (λ t. b'R' ∷ t)
        (trim_end-keep b'e' (b':' ∷ b' ' ∷ s) refl
          ∙ ap (λ t. b'e' ∷ t) (trim_end-keep b':' (b' ' ∷ s) refl))

re_round : (t : Bytes) → strip_round (codes "Re:" ++ t) ≡ some (trim_start t, true)
unfolding strip_round strip_tag strip_marker split_once marker_tail is_marker before_bracket trim
    to_lower same trim_start trim_end is_whitespace
re_round t = refl

re_left : (s : Bytes) → trim_start (re_rest s) ≡ trim s
unfolding re_rest trim
re_left s = trim_start-trim_end (b' ' ∷ s) ∙ unfold trim_start is_whitespace in refl

-- `Re: ` in front of a subject leaves its normal form, and makes it that of a reply.
pub normalise_subject-re :
    (s : Bytes) → normalise_subject (codes "Re: " ++ s) ≡ ((normalise_subject s).0, true)
unfolding normalise_subject normalised
normalise_subject-re s =
    ap normalised (trim-re s) ∙ ap (λ r. let q : Bytes × Bool = (trim r.0, r.1) in q) stripped
  where
    fuel : ℕ
    fuel = suc (suc (length (re_rest s)))

    enough : length (trim s) ≤ fuel
    enough = omega (arith, length-trim_start (re_rest s), ap length (re_left s))

    stripped :
        strip_loop (suc fuel) (codes "Re:" ++ re_rest s) false
        ≡ ((strip_loop (length (trim s)) (trim s) false).0, true)
    stripped =
        strip_loop-suc fuel (codes "Re:" ++ re_rest s) false
        ∙ ap (continue (strip_loop fuel) (codes "Re:" ++ re_rest s) false) (re_round (re_rest s))
        ∙ ap (λ t. strip_loop fuel t true) (re_left s)
        ∙ strip_loop-more fuel (length (trim s)) (trim s) true enough (omega arith)
        ∙ strip_loop-flag (length (trim s)) (trim s) true
