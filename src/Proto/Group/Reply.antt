-- ===== src/Proto/Group/Reply.antt =====
-- The reply of a server to GROUP, read by `GroupSummary::parse` of crates/nntp-proto/src/group.rs.
use rust_nntp.Prelude.Decimal.{
  IsDigit, to_string, to_string-IsDigit, to_string-ne-nil, parse_u64-to_string,
}
use rust_nntp.Prelude.Text.{Bytes, is_ascii_graphic}
use rust_nntp.Prelude.{
  ℕ, u64_max, all, length, ◌≤◌, true, false, ◌||◌, Option, [], ◌∷◌, ◌++◌, ◌≡◌, ◌≢◌, refl, ap, sym,
  ◌∙◌, arith, ltb, Bool-cases, inl, inr, All, All-weaken, append_assoc, append-nil,
}
use rust_nntp.Proto.Error.{ok}
use rust_nntp.Proto.Group.{name_of, parse_summary}
use rust_nntp.Proto.Names.{parse_group_name, is_group_name_octet, is_empty}
use rust_nntp.Proto.Utf8.{utf8, encode_char}
use rust_nntp.Proto.Response.{
  is_ascii_whitespace, words_onto, args, nth, arg, arg_u64, or_missing, number_of,
}

-- A word: not empty, and no white space in it.
abbrev pub IsWord : Bytes → Type 0
IsWord w = (w ≢ []) × All (λ c. is_ascii_whitespace c ≡ false) w

words_onto-blank : (w ws : Bytes) → w ≢ [] → words_onto w (b' ' ∷ ws) ≡ w ∷ words_onto [] ws
unfolding words_onto is_ascii_whitespace
words_onto-blank [] ws h = absurd (h refl)
words_onto-blank (c ∷ w) ws h = refl

words_onto-append :
    (acc w rest : Bytes)
    → All (λ c. is_ascii_whitespace c ≡ false) w
    → words_onto acc (w ++ rest) ≡ words_onto (acc ++ w) rest
unfolding words_onto
words_onto-append acc [] rest h = ap (λ a. words_onto a rest) (sym (append-nil acc))
words_onto-append [] (c ∷ w) rest (hc, h) =
    rw (words_onto, hc) (words_onto-append (c ∷ []) w rest h)
words_onto-append (a ∷ acc) (c ∷ w) rest (hc, h) =
    rw (words_onto, hc)
      (words_onto-append ((a ∷ acc) ++ c ∷ []) w rest h
        ∙ ap (λ t. words_onto t rest) (append_assoc (a ∷ acc) (c ∷ []) w))

words_onto-end : (v : Bytes) → v ≢ [] → words_onto v [] ≡ v ∷ []
unfolding words_onto
words_onto-end [] h = absurd (h refl)
words_onto-end (c ∷ v) h = refl

-- A word in front of a space is the first of the words.
pub first_word :
    (w rest : Bytes) → IsWord w → words_onto [] (w ++ b' ' ∷ rest) ≡ w ∷ words_onto [] rest
first_word w rest (ne, h) = words_onto-append [] w (b' ' ∷ rest) h ∙ words_onto-blank w rest ne

pub only_word : (w : Bytes) → IsWord w → words_onto [] w ≡ w ∷ []
only_word w (ne, h) =
    ap (words_onto []) (sym (append-nil w)) ∙ words_onto-append [] w [] h ∙ words_onto-end w ne

pub to_string-IsWord : (n : ℕ) → IsWord (to_string n)
unfolding is_ascii_whitespace
to_string-IsWord n = (
  to_string-ne-nil n,
  All-weaken IsDigit _ (λ c p. ground arith) (to_string n) (to_string-IsDigit n),
)

name_octet :
    (c : ℕ) (s : Bytes)
    → all is_group_name_octet (encode_char c ++ s) ≡ true
    → (is_ascii_whitespace c ≡ false) × (all is_group_name_octet s ≡ true)
unfolding is_group_name_octet is_ascii_graphic is_ascii_whitespace encode_char
name_octet c s e = elim (Bool-cases (ltb c 0x80)) [
  | inl small ↦ let h = rw small at e in (ground arith, ground arith)
  | inr e1 ↦ elim (Bool-cases (ltb c 0x800)) [
    | inl e2 ↦ let h = rw (e1, e2) at e in absurd (ground arith)
    | inr e2 ↦ elim (Bool-cases (ltb c 0x10000)) [
      | inl e3 ↦ let h = rw (e1, e2, e3) at e in absurd (ground arith)
      | inr e3 ↦ let h = rw (e1, e2, e3) at e in absurd (ground arith)
    ]
  ]
]

name_octets-solid :
    (s : Bytes)
    → all is_group_name_octet (utf8 s) ≡ true
    → All (λ c. is_ascii_whitespace c ≡ false) s
unfolding utf8
name_octets-solid [] e = tt
name_octets-solid (c ∷ s) e =
    let (solid, rest) = name_octet c (utf8 s) e in (solid, name_octets-solid s rest)

-- An accepted name is a word, and is accepted again.
pub accepted-IsWord :
    (v name : Bytes)
    → parse_group_name v ≡ ok name
    → IsWord name × (parse_group_name name ≡ ok name)
unfolding parse_group_name is_empty
accepted-IsWord v name e = elim (Bool-cases (is_empty v || ltb 480 (length (utf8 v)))) [
  | inl bad ↦ cc (rw bad at e)
  | inr fits ↦ elim (Bool-cases (all is_group_name_octet (utf8 v))) [
    | inr bad ↦ cc (rw (fits, bad) at e)
    | inl good ↦
        let same : v ≡ name = ground arith in
        rw (← same) ((filled v (ground arith), name_octets-solid v good), rw (fits, good) refl)
  ]
]
  where
    filled : (s : Bytes) → is_empty s ≡ false → s ≢ []
    filled [] h n = absurd (ground (arith, h))
    filled (c ∷ s) h n = absurd (ground (arith, n))

-- The text of a reply to GROUP, as RFC 3977 has it.
unfoldable pub group_text : ℕ → ℕ → ℕ → Bytes → Bytes
group_text n low high name =
    to_string n ++ b' ' ∷ (to_string low ++ b' ' ∷ (to_string high ++ b' ' ∷ name))

args-group_text :
    (code n low high : ℕ) (name : Bytes)
    → IsWord name
    → args (record { code = code; text = group_text n low high name })
      ≡ to_string n ∷ to_string low ∷ to_string high ∷ name ∷ []
unfolding args group_text
args-group_text code n low high name w =
    first_word (to_string n) _ (to_string-IsWord n)
    ∙ ap (◌∷◌ (to_string n)) (
        first_word (to_string low) _ (to_string-IsWord low)
        ∙ ap (◌∷◌ (to_string low)) (
            first_word (to_string high) name (to_string-IsWord high)
            ∙ ap (◌∷◌ (to_string high)) (only_word name w)))

-- A reply to GROUP with three 64-bit numbers and a name that `parse` accepts is read with those
-- numbers and that name, whatever name was asked for.
pub parse_summary-group_text :
    (code n low high : ℕ) (v name : Bytes) (fallback : Option Bytes)
    → n ≤ u64_max
    → low ≤ u64_max
    → high ≤ u64_max
    → parse_group_name v ≡ ok name
    → parse_summary (record { code = code; text = group_text n low high name }) fallback
      ≡ ok (record { name = name; estimated_count = n; low = low; high = high })
unfolding parse_summary arg_u64 arg nth or_missing number_of name_of
parse_summary-group_text code n low high v name fallback hn hl hh e =
    let (w, again) = accepted-IsWord v name e in
    rw (args-group_text code n low high name w) (
      rw (parse_u64-to_string n hn)
        (rw (parse_u64-to_string low hl) (rw (parse_u64-to_string high hh) (rw again refl))))
