-- ===== src/Proto/Utf8/Lossy.antt =====
-- `String::from_utf8_lossy`: every maximal part of a character that is not completed is read as
-- the replacement character.
use rust_nntp.Prelude.Text.{Bytes, within}
use rust_nntp.Prelude.{
  ℕ, zero, suc, ◌+◌, ◌*◌, ◌-◌, ◌/◌, ◌%◌, ◌≤◌, ◌<◌, true, false, [], ◌∷◌, ◌++◌, ◌≡◌, refl, ap, ◌∙◌,
  arith, ltb, ◌==◌, if◌then◌else◌, Bool-cases, inl, inr, All,
}
use rust_nntp.Proto.Utf8.{utf8, encode_char}

abbrev pub replacement : ℕ
replacement = 0xFFFD

-- Between two characters, or behind the first octets of one: how many are to come, the bits so
-- far, and what the next one may be.
pub data Decoder : Type 0 where
  idle : Decoder
  inside_char : ℕ → ℕ → ℕ → ℕ → Decoder

-- An octet that starts a character: what is read with it, and the state behind it.
unfoldable pub start : ℕ → Bytes × Decoder
start b =
    if ltb b 0x80
    then (b ∷ [], idle)
    else if within 0xC2 0xDF b
    then ([], inside_char 0 (b - 0xC0) 0x80 0xBF)
    else if within 0xE0 0xEF b
    then (
      [],
      inside_char 1 (b - 0xE0) (if b == 0xE0 then 0xA0 else 0x80)
          (if b == 0xED then 0x9F else 0xBF),
    )
    else if within 0xF0 0xF4 b
    then (
      [],
      inside_char 2 (b - 0xF0) (if b == 0xF0 then 0x90 else 0x80)
          (if b == 0xF4 then 0x8F else 0xBF),
    )
    else (replacement ∷ [], idle)

-- The next octet, `inside_char k` with `k` more behind it.
unfoldable pub next : Decoder → ℕ → Bytes × Decoder
next idle b = start b
next (inside_char zero acc lo hi) b =
    if within lo hi b
    then ((acc * 64 + (b - 0x80)) ∷ [], idle)
    else (replacement ∷ (start b).0, (start b).1)
next (inside_char (suc k) acc lo hi) b =
    if within lo hi b
    then ([], inside_char k (acc * 64 + (b - 0x80)) 0x80 0xBF)
    else (replacement ∷ (start b).0, (start b).1)

unfoldable pub decode : Decoder → Bytes → Bytes
decode idle [] = []
decode (inside_char k acc lo hi) [] = replacement ∷ []
decode d (b ∷ bs) = let (out, d') = next d b in out ++ decode d' bs

unfoldable pub lossy : Bytes → Bytes
lossy bs = decode idle bs

-- `char`: a code point but for the surrogates.
abbrev pub IsChar : ℕ → Type 0
IsChar c = (within 0xD800 0xDFFF c ≡ false) × (c < 0x110000)

step-last :
    (acc lo hi b x : ℕ)
    → within lo hi b ≡ true
    → b ≡ 0x80 + x
    → next (inside_char 0 acc lo hi) b ≡ ((acc * 64 + x) ∷ [], idle)
unfolding next
step-last acc lo hi b x w e = ground (arith, w, e)

step-more :
    (k acc lo hi b x : ℕ)
    → within lo hi b ≡ true
    → b ≡ 0x80 + x
    → next (inside_char (suc k) acc lo hi) b ≡ ([], inside_char k (acc * 64 + x) 0x80 0xBF)
unfolding next
step-more k acc lo hi b x w e = ground (arith, w, e)

abbrev first_low : ℕ → ℕ
first_low b = if b == 0xE0 then 0xA0 else if b == 0xF0 then 0x90 else 0x80

abbrev first_high : ℕ → ℕ
first_high b = if b == 0xED then 0x9F else if b == 0xF4 then 0x8F else 0xBF

start_two : (x : ℕ) → 2 ≤ x → x < 32 → next idle (0xC0 + x) ≡ ([], inside_char 0 x 0x80 0xBF)
unfolding next start
start_two x l h = ground arith

start_three :
    (x : ℕ)
    → x < 16
    → next idle (0xE0 + x) ≡ ([], inside_char 1 x (first_low (0xE0 + x)) (first_high (0xE0 + x)))
unfolding next start
start_three x h = ground arith

start_four :
    (x : ℕ)
    → x < 5
    → next idle (0xF0 + x) ≡ ([], inside_char 2 x (first_low (0xF0 + x)) (first_high (0xF0 + x)))
unfolding next start
start_four x h = ground arith

decode-next :
    (d d' : Decoder) (b : ℕ) (bs out : Bytes)
    → next d b ≡ (out, d')
    → decode d (b ∷ bs) ≡ out ++ decode d' bs
unfolding decode
decode-next idle d' b bs out e = rw e refl
decode-next (inside_char k acc lo hi) d' b bs out e = rw e refl

-- The last octet of a character, and the character that it ends.
ends :
    (acc lo hi x c : ℕ) (bs : Bytes)
    → within lo hi (0x80 + x) ≡ true
    → acc * 64 + x ≡ c
    → decode (inside_char 0 acc lo hi) ((0x80 + x) ∷ bs) ≡ c ∷ decode idle bs
ends acc lo hi x c bs w e =
    decode-next (inside_char 0 acc lo hi) idle (0x80 + x) bs ((acc * 64 + x) ∷ [])
      (step-last acc lo hi (0x80 + x) x w refl)
    ∙ ap (λ r. r ∷ decode idle bs) e

goes_on :
    (k acc lo hi x : ℕ) (bs : Bytes)
    → within lo hi (0x80 + x) ≡ true
    → decode (inside_char (suc k) acc lo hi) ((0x80 + x) ∷ bs)
      ≡ decode (inside_char k (acc * 64 + x) 0x80 0xBF) bs
goes_on k acc lo hi x bs w =
    decode-next (inside_char (suc k) acc lo hi) (inside_char k (acc * 64 + x) 0x80 0xBF) (0x80 + x)
      bs [] (step-more k acc lo hi (0x80 + x) x w refl)

decode-two :
    (c : ℕ) (bs : Bytes)
    → 0x80 ≤ c
    → c < 0x800
    → decode idle ((0xC0 + c / 64) ∷ (0x80 + c % 64) ∷ bs) ≡ c ∷ decode idle bs
decode-two c bs l h =
    decode-next idle (inside_char 0 (c / 64) 0x80 0xBF) (0xC0 + c / 64) ((0x80 + c % 64) ∷ bs) []
      (start_two (c / 64) (omega arith) (omega arith))
    ∙ ends (c / 64) 0x80 0xBF (c % 64) c bs (ground arith) (omega arith)

decode-three :
    (c : ℕ) (bs : Bytes)
    → 0x800 ≤ c
    → c < 0x10000
    → within 0xD800 0xDFFF c ≡ false
    → decode idle ((0xE0 + c / 4096) ∷ (0x80 + c / 64 % 64) ∷ (0x80 + c % 64) ∷ bs)
      ≡ c ∷ decode idle bs
decode-three c bs l h s =
    decode-next idle
      (inside_char 1 (c / 4096) (first_low (0xE0 + c / 4096)) (first_high (0xE0 + c / 4096)))
      (0xE0 + c / 4096) ((0x80 + c / 64 % 64) ∷ (0x80 + c % 64) ∷ bs) []
      (start_three (c / 4096) (omega arith))
    ∙ goes_on 0 (c / 4096) _ _ (c / 64 % 64) ((0x80 + c % 64) ∷ bs) (ground arith)
    ∙ ends (c / 4096 * 64 + c / 64 % 64) 0x80 0xBF (c % 64) c bs (ground arith) (omega arith)

decode-four :
    (c : ℕ) (bs : Bytes)
    → 0x10000 ≤ c
    → c < 0x110000
    → decode idle
        ((0xF0 + c / 262144) ∷ (0x80 + c / 4096 % 64) ∷ (0x80 + c / 64 % 64) ∷ (0x80 + c % 64) ∷ bs)
      ≡ c ∷ decode idle bs
decode-four c bs l h =
    decode-next idle
      (inside_char 2 (c / 262144) (first_low (0xF0 + c / 262144)) (first_high (0xF0 + c / 262144)))
      (0xF0 + c / 262144) ((0x80 + c / 4096 % 64) ∷ (0x80 + c / 64 % 64) ∷ (0x80 + c % 64) ∷ bs) []
      (start_four (c / 262144) (omega arith))
    ∙ goes_on 1 (c / 262144) _ _ (c / 4096 % 64) ((0x80 + c / 64 % 64) ∷ (0x80 + c % 64) ∷ bs)
        (ground arith)
    ∙ goes_on 0 (c / 262144 * 64 + c / 4096 % 64) 0x80 0xBF (c / 64 % 64) ((0x80 + c % 64) ∷ bs)
        (ground arith)
    ∙ ends ((c / 262144 * 64 + c / 4096 % 64) * 64 + c / 64 % 64) 0x80 0xBF (c % 64) c bs
        (ground arith) (omega arith)

decode-one : (c : ℕ) (bs : Bytes) → c < 0x80 → decode idle (c ∷ bs) ≡ c ∷ decode idle bs
unfolding start next
decode-one c bs h = decode-next idle idle c bs (c ∷ []) (ground arith)

decode-encode_char :
    (c : ℕ) (bs : Bytes) → IsChar c → decode idle (encode_char c ++ bs) ≡ c ∷ decode idle bs
unfolding encode_char
decode-encode_char c bs (s, h) = elim (Bool-cases (ltb c 0x80)) [
  | inl e ↦ rw e (decode-one c bs (ground arith))
  | inr e ↦ rw e (elim (Bool-cases (ltb c 0x800)) [
    | inl e' ↦ rw e' (decode-two c bs (ground arith) (ground arith))
    | inr e' ↦ rw e' (elim (Bool-cases (ltb c 0x10000)) [
      | inl e'' ↦ rw e'' (decode-three c bs (ground arith) (ground arith) s)
      | inr e'' ↦ rw e'' (decode-four c bs (ground arith) h)
    ])
  ])
]

-- A text is read back from its encoding.
pub lossy-utf8 : (s : Bytes) → All IsChar s → lossy (utf8 s) ≡ s
unfolding lossy utf8 decode
lossy-utf8 [] h = refl
lossy-utf8 (c ∷ s) (hc, h) = decode-encode_char c (utf8 s) hc ∙ ap (◌∷◌ c) (lossy-utf8 s h)
