-- ===== src/Proto/Response/Parse.antt =====
-- `StatusLine::parse` of crates/nntp-proto/src/response.rs, on the lines that a server writes and
-- on any other.
use rust_nntp.Prelude.Text.{Bytes, codes, is_ascii_digit}
use rust_nntp.Prelude.Text.Laws.{Lacks}
use rust_nntp.Prelude.{
  ℕ, ◌+◌, ◌/◌, ◌%◌, ◌≤◌, ◌<◌, true, ◌&&◌, ◌||◌, [], ◌∷◌, ◌++◌, ◌≡◌, refl, ap, sym, ◌∙◌, arith, ◌==◌,
  if◌then◌else◌, Bool-cases, inl, inr, All, append_assoc, All-weaken, ◌≢◌,
}
use rust_nntp.Proto.Error.{Result, ok, err}
use rust_nntp.Proto.Response.{
  StatusLine, strip_one, strip_eol, read_text, value_of, parse_stripped, parse_status, ResponseKind,
  informative, success, continue, transient_error, permanent_error, unknown, kind,
}
use rust_nntp.Proto.Utf8.Lossy.{lossy, lossy-utf8, IsChar}
use rust_nntp.Proto.Utf8.{utf8, utf8-All}

-- A status line as RFC 3977 has it: three digits, a space, the text, CRLF.
unfoldable pub status_wire : ℕ → Bytes → Bytes
status_wire code text =
    (b'0' + code / 100)
    ∷ (b'0' + code / 10 % 10)
    ∷ (b'0' + code % 10)
    ∷ b' '
    ∷ (utf8 text ++ codes "\r\n")

strip_one-end : (b : ℕ) (s : Bytes) → strip_one b (s ++ b ∷ []) ≡ s
unfolding strip_one
strip_one-end b [] = ground arith
strip_one-end b (c ∷ []) = ground arith
strip_one-end b (c ∷ d ∷ s) = ap (◌∷◌ c) (strip_one-end b (d ∷ s))

strip_eol-crlf : (s : Bytes) → strip_eol (s ++ codes "\r\n") ≡ s
unfolding strip_eol
strip_eol-crlf s =
    ap (λ t. strip_one b'\r' (strip_one b'\n' t)) (sym (append_assoc s (b'\r' ∷ []) (b'\n' ∷ [])))
    ∙ ap (strip_one b'\r') (strip_one-end b'\n' (s ++ b'\r' ∷ []))
    ∙ strip_one-end b'\r' s

value_of-digits :
    (code : ℕ)
    → code < 1000
    → value_of (b'0' + code / 100) (b'0' + code / 10 % 10) (b'0' + code % 10) ≡ code
unfolding value_of
value_of-digits code h = omega arith

digits_ok :
    (code : ℕ)
    → code < 1000
    → (is_ascii_digit (b'0' + code / 100)
        && is_ascii_digit (b'0' + code / 10 % 10)
        && is_ascii_digit (b'0' + code % 10))
      ≡ true
unfolding is_ascii_digit
digits_ok code h = ground arith

-- The line without its end.
abbrev pub status_text : ℕ → Bytes → Bytes
status_text code text =
    (b'0' + code / 100) ∷ (b'0' + code / 10 % 10) ∷ (b'0' + code % 10) ∷ b' ' ∷ utf8 text

parse_stripped-status_text :
    (code : ℕ) (text : Bytes)
    → code < 1000
    → All IsChar text
    → parse_stripped (status_text code text) ≡ ok (record { code = code; text = text })
unfolding parse_stripped read_text
parse_stripped-status_text code text h hs =
    rw (digits_ok code h) (rw (value_of-digits code h, lossy-utf8 text hs) refl)

-- A code below 1000 and a text of Unicode scalar values are read back from the status line that
-- RFC 3977 prescribes for them.
pub parse_status-wire :
    (code : ℕ) (text : Bytes)
    → code < 1000
    → All IsChar text
    → parse_status (status_wire code text) ≡ ok (record { code = code; text = text })
unfolding parse_status status_wire
parse_status-wire code text h hs =
    ap parse_stripped (strip_eol-crlf (status_text code text))
    ∙ parse_stripped-status_text code text h hs

strip_one-Lacks : (b : ℕ) (s : Bytes) → Lacks b s → strip_one b s ≡ s
unfolding strip_one
strip_one-Lacks b [] h = refl
strip_one-Lacks b (c ∷ []) h = ground (arith, h.0)
strip_one-Lacks b (c ∷ d ∷ s) (hc, h) = ap (◌∷◌ c) (strip_one-Lacks b (d ∷ s) h)

-- The octets of the line hold no end of a line if the text holds none.
pub status_text-Lacks :
    (b code : ℕ) (text : Bytes) → b < 32 → Lacks b text → Lacks b (status_text code text)
status_text-Lacks b code text small h = (
  omega arith,
  (
    omega arith,
    (
      omega arith,
      (
        omega arith,
        utf8-All (λ c. c ≢ b) text (All-weaken (λ c. c ≢ b) _ (λ c p _. p) text h)
            (λ c high. omega arith),
      ),
    ),
  ),
)

-- The same for the line that `read_line` returns, which has lost its end, if the text holds no
-- end of a line.
pub parse_status-status_text :
    (code : ℕ) (text : Bytes)
    → code < 1000
    → All IsChar text
    → Lacks b'\n' text
    → Lacks b'\r' text
    → parse_status (status_text code text) ≡ ok (record { code = code; text = text })
unfolding parse_status strip_eol
parse_status-status_text code text h hs lf cr =
    ap (λ t. parse_stripped (strip_one b'\r' t))
      (strip_one-Lacks b'\n' (status_text code text)
        (status_text-Lacks b'\n' code text (omega arith) lf))
    ∙ ap parse_stripped (
        strip_one-Lacks b'\r' (status_text code text)
          (status_text-Lacks b'\r' code text (omega arith) cr))
    ∙ parse_stripped-status_text code text h hs

-- The class of a response by the first octet of its line.
unfoldable pub class_of : ℕ → ResponseKind
class_of a =
    if a == b'1'
    then informative
    else if a == b'2'
    then success
    else if a == b'3'
    then continue
    else if a == b'4'
    then transient_error
    else if a == b'5'
    then permanent_error
    else unknown

strip_one-first : (b c : ℕ) (l s : Bytes) → strip_one b l ≡ c ∷ s → (t : Bytes) × (l ≡ c ∷ t)
unfolding strip_one
strip_one-first b c [] s e = cc
strip_one-first b c (d ∷ []) s e = elim (Bool-cases (d == b)) [
  | inl same ↦ cc (rw same at e)
  | inr other ↦ ([], first_of (rw other at e))
]
  where
    first_of : ◌≡◌ {A = Bytes} (d ∷ []) (c ∷ s) → ◌≡◌ {A = Bytes} (d ∷ []) (c ∷ [])
    first_of h = ground arith
strip_one-first b c (d ∷ f ∷ l) s e = (f ∷ l, ground arith)

kind-class_of :
    (a b c : ℕ)
    → is_ascii_digit a ≡ true
    → is_ascii_digit b ≡ true
    → is_ascii_digit c ≡ true
    → (kind (value_of a b c) ≡ class_of a) × (value_of a b c ≤ 999)
unfolding kind value_of class_of is_ascii_digit
kind-class_of a b c ha hb hc = (ground arith, ground arith)

read_text-code :
    (line : Bytes) (code : ℕ) (rest : Bytes) (s : StatusLine)
    → read_text line code rest ≡ ok s
    → s.code ≡ code
unfolding read_text
read_text-code line code [] s e = ground (arith, e)
read_text-code line code (c ∷ tail) s e = elim (Bool-cases (c == b' ' || c == b'\t')) [
  | inl blank ↦ from_ok (rw blank at e)
  | inr bad ↦ cc (rw bad at e)
]
  where
    code_of : Result StatusLine → ℕ
    code_of (ok t) = t.code
    code_of (err x) = code

    from_ok :
        ◌≡◌ {A = Result StatusLine} (ok (record { code = code; text = lossy tail })) (ok s)
        → s.code ≡ code
    from_ok h = ap code_of (sym h)

parse_stripped-kind :
    (line : Bytes) (s : StatusLine)
    → parse_stripped line ≡ ok s
    → (a : ℕ) × ((rest : Bytes) × (line ≡ a ∷ rest)) × (kind s.code ≡ class_of a) × (s.code ≤ 999)
unfolding parse_stripped
parse_stripped-kind [] s e = cc
parse_stripped-kind (a ∷ []) s e = cc
parse_stripped-kind (a ∷ b ∷ []) s e = cc
parse_stripped-kind (a ∷ b ∷ c ∷ rest) s e =
    elim (Bool-cases (is_ascii_digit a && is_ascii_digit b && is_ascii_digit c)) [
      | inr bad ↦ cc (rw bad at e)
      | inl good ↦
          let (same, small) = kind-class_of a b c (ground arith) (ground arith) (ground arith) in
          let code = read_text-code (a ∷ b ∷ c ∷ rest) (value_of a b c) rest s (rw good at e) in
          (a, (b ∷ c ∷ rest, refl), ap kind code ∙ same, rw code small)
    ]

-- What has been parsed starts with a digit, which is the class of its code, and the code is below 1000.
pub parse_status-kind :
    (line : Bytes) (s : StatusLine)
    → parse_status line ≡ ok s
    → (a : ℕ) × ((rest : Bytes) × (line ≡ a ∷ rest)) × (kind s.code ≡ class_of a) × (s.code ≤ 999)
unfolding parse_status strip_eol
parse_status-kind line s e =
    let (a, (rest, start), same, small) = parse_stripped-kind (strip_eol line) s e in
    let (t, inner) = strip_one-first b'\r' a (strip_one b'\n' line) rest start in
    (a, strip_one-first b'\n' a line t inner, same, small)
