-- ===== src/Proto/Utf8.antt =====
-- UTF-8: the octets of a text, which `str::len`, `str::bytes` and `String::into_bytes` go by.
pub mod Lossy
use rust_nntp.Prelude.Text.{Bytes}
use rust_nntp.Prelude.{
  ℕ, ◌+◌, ◌/◌, ◌%◌, ◌≤◌, ◌<◌, [], ◌∷◌, ◌++◌, ◌≡◌, refl, ap, arith, ltb, if◌then◌else◌, All,
  All-append, append_assoc, Bool-cases, inl, inr, ◌∙◌, sym,
}

unfoldable pub encode_char : ℕ → Bytes
encode_char c =
    if ltb c 0x80
    then c ∷ []
    else if ltb c 0x800
    then (0xC0 + c / 64) ∷ (0x80 + c % 64) ∷ []
    else if ltb c 0x10000
    then (0xE0 + c / 4096) ∷ (0x80 + c / 64 % 64) ∷ (0x80 + c % 64) ∷ []
    else (0xF0 + c / 262144) ∷ (0x80 + c / 4096 % 64) ∷ (0x80 + c / 64 % 64) ∷ (0x80 + c % 64) ∷ []

unfoldable pub utf8 : Bytes → Bytes
utf8 [] = []
utf8 (c ∷ s) = encode_char c ++ utf8 s

pub utf8-append : (s t : Bytes) → utf8 (s ++ t) ≡ utf8 s ++ utf8 t
unfolding utf8
utf8-append [] t = refl
utf8-append (c ∷ s) t =
    ap (◌++◌ (encode_char c)) (utf8-append s t)
    ∙ sym (append_assoc (encode_char c) (utf8 s) (utf8 t))

-- An ASCII text is its own encoding.
pub utf8_ascii : (s : Bytes) → All (λ c. c < 0x80) s → utf8 s ≡ s
unfolding utf8 encode_char
utf8_ascii [] h = refl
utf8_ascii (c ∷ s) (h, hs) = rw (utf8_ascii s hs) (ground arith)

-- The octets of a character are the character itself, or all outside ASCII.
pub encode_char-All :
    (P : ℕ → Type 0) (c : ℕ) → (c < 0x80 → P c) → ((b : ℕ) → 0x80 ≤ b → P b) → All P (encode_char c)
unfolding encode_char
encode_char-All P c ascii high = elim (Bool-cases (ltb c 0x80)) [
  | inl e ↦ rw e (ascii (ground arith), tt)
  | inr e ↦ rw e (elim (Bool-cases (ltb c 0x800)) [
    | inl e' ↦ rw e' (high _ (omega arith), (high _ (omega arith), tt))
    | inr e' ↦ rw e' (elim (Bool-cases (ltb c 0x10000)) [
      | inl e'' ↦ rw e'' (high _ (omega arith), (high _ (omega arith), (high _ (omega arith), tt)))
      | inr e'' ↦ rw e'' (
        high _ (omega arith),
        (high _ (omega arith), (high _ (omega arith), (high _ (omega arith), tt))),
      )
    ])
  ])
]

pub utf8-All :
    (P : ℕ → Type 0) (s : Bytes)
    → All (λ c. c < 0x80 → P c) s
    → ((b : ℕ) → 0x80 ≤ b → P b)
    → All P (utf8 s)
unfolding utf8
utf8-All P [] h high = tt
utf8-All P (c ∷ s) (hc, h) high =
    All-append P (encode_char c) (utf8 s) (encode_char-All P c hc high) (utf8-All P s h high)
