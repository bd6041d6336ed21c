-- ===== src/Proto/Subject.antt =====
-- `normalise_subject` of crates/nntp-proto/src/thread.rs.
pub mod Laws
pub mod Loop
pub mod Replies
use rust_nntp.Prelude.SortedMap.{same}
use rust_nntp.Prelude.Text.{Bytes, codes, split_once, to_lower, trim, trim_start}
use rust_nntp.Prelude.{
  ℕ, zero, suc, Bool, true, false, ◌||◌, Option, none, some, List, [], ◌∷◌, ◌==◌, if◌then◌else◌,
  length, any, map,
}

unfoldable pub tag_tail : Option (Bytes × Bytes) → Option Bytes
tag_tail none = none
tag_tail (some ([], tail)) = none
tag_tail (some (c ∷ tag, tail)) =
    if any (λ d. d == b'[') (c ∷ tag) then none else some (trim_start tail)

-- What stands behind a list tag
unfoldable pub strip_tag : Bytes → Option Bytes
strip_tag [] = none
strip_tag (c ∷ s) = if c == b'[' then tag_tail (split_once b']' s) else none

-- `split_once(['[', '('])`, or the whole
unfoldable pub before_bracket : Bytes → Bytes
before_bracket [] = []
before_bracket (c ∷ s) = if c == b'[' || c == b'(' then [] else c ∷ before_bracket s

abbrev pub prefixes : List Bytes
prefixes =
    codes "re"
    ∷ codes "aw"
    ∷ codes "sv"
    ∷ codes "vs"
    ∷ codes "res"
    ∷ codes "odp"
    ∷ codes "ref"
    ∷ codes "antw"
    ∷ []

unfoldable pub is_marker : Bytes → Bool
is_marker head =
    any (λ p. same (map to_lower (trim (before_bracket (trim head)))) (map to_lower p)) prefixes

unfoldable pub marker_tail : Option (Bytes × Bytes) → Option Bytes
marker_tail none = none
marker_tail (some (head, tail)) = if is_marker head then some (trim_start tail) else none

-- What stands behind a reply marker
unfoldable pub strip_marker : Bytes → Option Bytes
strip_marker s = marker_tail (split_once b':' s)

-- A round of the loop: what is left, and whether a marker was taken off; `none` for `break`.
unfoldable pub strip_round : Bytes → Option (Bytes × Bool)
strip_round rest = elim (strip_tag rest) [
  | some tail ↦ some (tail, false)
  | none ↦ elim (strip_marker rest) [ some tail ↦ some (tail, true) | none ↦ none ]
]

unfoldable pub strip_loop : ℕ → Bytes → Bool → Bytes × Bool
strip_loop zero rest was_reply = (rest, was_reply)
strip_loop (suc fuel) rest was_reply = elim (strip_round rest) [
  | none ↦ (rest, was_reply)
  | some (tail, marked) ↦ strip_loop fuel tail (was_reply || marked)
]

-- Every round takes off a character at least.
unfoldable pub normalise_subject : Bytes → Bytes × Bool
normalise_subject subject =
    let stripped = strip_loop (length (trim subject)) (trim subject) false in
    (trim stripped.0, stripped.1)
