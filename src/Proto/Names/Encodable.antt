-- ===== src/Proto/Names/Encodable.antt =====
-- What the validated texts of crates/nntp-proto/src/message_id.rs, group.rs and command.rs
-- guarantee to the encoder: no control octet, and a bounded length.
use rust_nntp.Prelude.Decimal.{IsDigit, to_string, to_string-IsDigit, to_string-length}
use rust_nntp.Prelude.Text.{Bytes, is_control, is_ascii_graphic, trim}
use rust_nntp.Prelude.{
  ℕ, ◌+◌, ◌≤◌, ◌<◌, true, false, not, ◌&&◌, ◌||◌, ◌==◌, Option, none, some, [], ◌∷◌, ◌++◌, ◌≡◌,
  refl, arith, inl, inr, ltb, Bool-cases, length, length-append, all, any, All, All-append,
  All-weaken,
}
use rust_nntp.Proto.Error.{ok}
use rust_nntp.Proto.Names.{
  is_empty, strip_last, strip_first, inside, is_id_illegal, check_inner, parse_message_id,
  is_group_name_octet, parse_group_name, parse_wildmat, parse_header_name,
}
use rust_nntp.Proto.Command.{is_ascii_control}
use rust_nntp.Proto.Utf8.{utf8, utf8-append, utf8-All, utf8_ascii}

-- No control octet, and at most `k` octets.
pub record IsEncodable (k : ℕ) (s : Bytes) : Type 0 where
  pub plain : All (λ b. is_ascii_control b ≡ false) (utf8 s)
  pub short : length (utf8 s) ≤ k

pub IsEncodable-append :
    (j k : ℕ) (s t : Bytes) → IsEncodable j s → IsEncodable k t → IsEncodable (j + k) (s ++ t)
IsEncodable-append j k s t a b = record {
  plain =
      rw utf8-append
        (All-append (λ b. is_ascii_control b ≡ false) (utf8 s) (utf8 t) a.plain b.plain);
  short = rw utf8-append (omega (arith, length-append (utf8 s) (utf8 t), a.short, b.short));
}

graphic-IsPlain :
    (s : Bytes) → all is_ascii_graphic s ≡ true → All (λ b. is_ascii_control b ≡ false) s
unfolding is_ascii_graphic is_ascii_control
graphic-IsPlain [] e = tt
graphic-IsPlain (c ∷ s) e = (ground arith, graphic-IsPlain s (ground arith))

group_octets-IsPlain :
    (s : Bytes) → all is_group_name_octet s ≡ true → All (λ b. is_ascii_control b ≡ false) s
unfolding is_group_name_octet is_ascii_graphic is_ascii_control
group_octets-IsPlain [] e = tt
group_octets-IsPlain (c ∷ s) e = (ground arith, group_octets-IsPlain s (ground arith))

-- A group name that has been accepted is at most 480 octets, none of them a control octet.
pub parse_group_name-IsEncodable : (v g : Bytes) → parse_group_name v ≡ ok g → IsEncodable 480 g
unfolding parse_group_name
parse_group_name-IsEncodable v g e = elim (Bool-cases (is_empty v || ltb 480 (length (utf8 v)))) [
  | inl bad ↦ cc (rw bad at e)
  | inr fits ↦ elim (Bool-cases (all is_group_name_octet (utf8 v))) [
    | inr bad ↦ cc (rw (fits, bad) at e)
    | inl good ↦
        let same : v ≡ g = ground arith in
        rw (← same) (record { plain = group_octets-IsPlain (utf8 v) good; short = ground arith })
  ]
]

pub parse_wildmat-IsEncodable : (v w : Bytes) → parse_wildmat v ≡ ok w → IsEncodable 400 w
unfolding parse_wildmat
parse_wildmat-IsEncodable v w e =
    elim (Bool-cases
      (is_empty v || ltb 400 (length (utf8 v)) || not (all is_ascii_graphic (utf8 v)))) [
        | inl bad ↦ cc (rw bad at e)
        | inr fits ↦
            let same : v ≡ w = ground arith in
            rw (← same)
              (record { plain = graphic-IsPlain (utf8 v) (ground arith); short = ground arith })
      ]

header_octets-graphic :
    (s : Bytes)
    → all (λ b. is_ascii_graphic b && not (b == b':')) s ≡ true
    → all is_ascii_graphic s ≡ true
header_octets-graphic [] e = refl
header_octets-graphic (c ∷ s) e = ground (arith, header_octets-graphic s (ground (arith, e)))

-- A header name that has been accepted has no control octet; its length has no bound of its own.
pub parse_header_name-IsEncodable :
    (v f : Bytes) (k : ℕ) → parse_header_name v ≡ ok f → length (utf8 f) ≤ k → IsEncodable k f
unfolding parse_header_name
parse_header_name-IsEncodable v f k e short =
    elim (Bool-cases
      (is_empty v || not (all (λ b. is_ascii_graphic b && not (b == b':')) (utf8 v)))) [
        | inl bad ↦ cc (rw bad at e)
        | inr good ↦
            let same : v ≡ f = ground arith in
            record {
              plain = rw (← same) (
                  graphic-IsPlain (utf8 v) (header_octets-graphic (utf8 v) (ground (arith, good))));
              short = short;
            }
      ]

-- The octets between 32 and 126 are neither outside ASCII nor control octets.
pub printable-IsEncodable :
    (k : ℕ) (s : Bytes) → All (λ c. (32 ≤ c) × (c ≤ 126)) s → length s ≤ k → IsEncodable k s
unfolding is_ascii_control
printable-IsEncodable k s h short =
    let same = utf8_ascii s (All-weaken _ (λ c. c < 0x80) (λ c p. omega arith) s h) in
    record {
      plain = rw same (All-weaken _ (λ c. is_ascii_control c ≡ false) (λ c p. ground arith) s h);
      short = rw same short;
    }

-- A number is printed with at most 20 octets.
pub to_string-IsEncodable : (n : ℕ) → IsEncodable 20 (to_string n)
to_string-IsEncodable n =
    printable-IsEncodable 20 (to_string n)
      (All-weaken IsDigit _ (λ c p. (omega arith, omega arith)) (to_string n) (to_string-IsDigit n))
      (to_string-length n)

strip_first-some : (b : ℕ) (s t : Bytes) → strip_first b s ≡ some t → s ≡ b ∷ t
unfolding strip_first
strip_first-some b [] t e = cc
strip_first-some b (c ∷ s) t e = ground arith

strip_last-some : (b : ℕ) (s t : Bytes) → strip_last b s ≡ some t → s ≡ t ++ b ∷ []
unfolding strip_last
strip_last-some b [] t e = cc
strip_last-some b (c ∷ []) t e = ground arith
strip_last-some b (c ∷ d ∷ s) t e = below (strip_last b (d ∷ s)) (strip_last-some b (d ∷ s)) e
  where
    below :
        (o : Option Bytes)
        → ((u : Bytes) → o ≡ some u → d ∷ s ≡ u ++ b ∷ [])
        → elim o as (λ x. Option Bytes) [ none ↦ none | some u ↦ some (c ∷ u) ] ≡ some t
        → c ∷ d ∷ s ≡ t ++ b ∷ []
    below none h e = cc
    below (some u) h e = cc (h u refl)

id_octet-IsPlain : (c : ℕ) → is_id_illegal c ≡ false → c < 0x80 → is_ascii_control c ≡ false
unfolding is_id_illegal is_control is_ascii_control
id_octet-IsPlain c e h = ground arith

inner-IsPlain :
    (s : Bytes) → any is_id_illegal s ≡ false → All (λ c. c < 0x80 → is_ascii_control c ≡ false) s
inner-IsPlain [] e = tt
inner-IsPlain (c ∷ s) e = (id_octet-IsPlain c (ground arith), inner-IsPlain s (ground arith))

inside-some : (s t : Bytes) → inside s ≡ some t → s ≡ b'<' ∷ (t ++ b'>' ∷ [])
unfolding inside
inside-some s t e = after (strip_first b'<' s) (strip_first-some b'<' s) e
  where
    after :
        (o : Option Bytes)
        → ((u : Bytes) → o ≡ some u → s ≡ b'<' ∷ u)
        → elim o as (λ x. Option Bytes) [ none ↦ none | some rest ↦ strip_last b'>' rest ] ≡ some t
        → s ≡ b'<' ∷ (t ++ b'>' ∷ [])
    after none h e = cc
    after (some u) h e = cc (h u refl, strip_last-some b'>' u t e)

-- An accepted text stands between angle brackets, with no character in it that is not allowed.
pub check_inner-ok :
    (s id : Bytes)
    → check_inner s (inside s) ≡ ok id
    → (inner : Bytes) × (id ≡ s)
      × (s ≡ b'<' ∷ (inner ++ b'>' ∷ []))
      × (any is_id_illegal inner ≡ false)
unfolding check_inner
check_inner-ok s id e = after (inside s) (inside-some s) e
  where
    after :
        (o : Option Bytes)
        → ((u : Bytes) → o ≡ some u → s ≡ b'<' ∷ (u ++ b'>' ∷ []))
        → check_inner s o ≡ ok id
        → (inner : Bytes) × (id ≡ s)
          × (s ≡ b'<' ∷ (inner ++ b'>' ∷ []))
          × (any is_id_illegal inner ≡ false)
    after none h e = cc
    after (some u) h e = elim (Bool-cases (is_empty u)) [
      | inl bad ↦ cc (rw bad at e)
      | inr _ ↦ elim (Bool-cases (any is_id_illegal u)) [
        | inl bad ↦ ground (arith, e, bad)
        | inr good ↦ (u, ground (arith, e, good), h u refl, good)
      ]
    ]

-- A message id that has been accepted is at most 250 octets, none of them a control octet.
pub parse_message_id-IsEncodable : (v id : Bytes) → parse_message_id v ≡ ok id → IsEncodable 250 id
unfolding parse_message_id is_ascii_control
parse_message_id-IsEncodable v id e = elim (Bool-cases (ltb 250 (length (utf8 (trim v))))) [
  | inl bad ↦ cc (rw bad at e)
  | inr fits ↦
      let accepted : check_inner (trim v) (inside (trim v)) ≡ ok id = rw fits at e in
      let (inner, same, framed, good) = check_inner-ok (trim v) id accepted in
      rw same (record {
        plain =
            utf8-All (λ b. is_ascii_control b ≡ false) (trim v)
              (rw framed (framed-IsPlain inner good)) high;
        short = ground arith;
      })
]
  where
    framed-IsPlain :
        (inner : Bytes)
        → any is_id_illegal inner ≡ false
        → All (λ c. c < 0x80 → is_ascii_control c ≡ false) (b'<' ∷ (inner ++ b'>' ∷ []))
    framed-IsPlain inner good = (
      λ _. refl,
      All-append (λ c. c < 0x80 → is_ascii_control c ≡ false) inner (b'>' ∷ [])
          (inner-IsPlain inner good) (λ _. refl, tt),
    )

    high : (b : ℕ) → 0x80 ≤ b → is_ascii_control b ≡ false
    high b h = ground arith
