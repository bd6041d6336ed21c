-- ===== src/Prelude/Decimal.antt =====
-- `u64::to_string` and `str::parse::<u64>`.
use Prim.Native.Nat.{ℕ, zero, suc, ◌+◌, ◌-◌, ◌*◌, ◌/◌, ◌%◌, ◌^◌, ◌≤◌, ◌<◌}
use mathlib.Core.Bool.{true, ◌||◌}
use mathlib.Core.List.{[], ◌∷◌}
use mathlib.Core.Logic.{◌≢◌, inl, inr}
use mathlib.Core.Option.{Option, none, some}
use mathlib.Core.Path.{◌≡◌, refl, ◌∙◌}
use native.Mathlib.Nat.{pow-suc}
use native.Mathlib.Omega.{arith}
use rust_nntp.Prelude.Tests.{ltb, ◌==◌, if◌then◌else◌, Bool-cases}
use rust_nntp.Prelude.Text.{Bytes}
use rust_nntp.Prelude.Words.{u64_max}
use rust_nntp.Prelude.Lists.{All, length}

-- The digits of `n` in front of `out`, with fuel for the digits.
unfoldable pub emit : ℕ → ℕ → Bytes → Bytes
emit zero n out = out
emit (suc f) n out =
    let more = emit f (n / 10) ((b'0' + n % 10) ∷ out) in
    if n / 10 == 0 then (b'0' + n % 10) ∷ out else more

-- A 64-bit number has at most twenty digits.
unfoldable pub to_string : ℕ → Bytes
to_string n = emit 20 n []

scan : Bytes → ℕ → Option ℕ
scan [] n = some n
scan (c ∷ s) n =
    let rest = scan s (n * 10 + (c - b'0')) in
    if ltb c b'0' || ltb b'9' c
    then none
    else if ltb u64_max (n * 10 + (c - b'0'))
    then none
    else rest

scan_digits : Bytes → Option ℕ
scan_digits [] = none
scan_digits (c ∷ s) = scan (c ∷ s) 0

-- A `+` is allowed in front of the digits.
unfoldable pub parse_u64 : Bytes → Option ℕ
unfolding scan scan_digits
parse_u64 [] = none
parse_u64 (c ∷ s) = if c == b'+' then scan_digits s else scan_digits (c ∷ s)

abbrev pub IsDigit : ℕ → Type 0
IsDigit c = (b'0' ≤ c) × (c ≤ b'9')

scan_step : (n : ℕ) (out : Bytes) → n ≤ u64_max → scan ((b'0' + n % 10) ∷ out) (n / 10) ≡ scan out n
unfolding scan
scan_step n out h = ground arith

scan_first :
    (n : ℕ) (out : Bytes)
    → n ≤ u64_max
    → (n / 10 == 0) ≡ true
    → scan ((b'0' + n % 10) ∷ out) 0 ≡ scan out n
unfolding scan
scan_first n out h e = ground arith

scan-emit :
    (f n : ℕ) (out : Bytes) → n < 10 ^ f → 0 < f → n ≤ u64_max → scan (emit f n out) 0 ≡ scan out n
unfolding emit
scan-emit zero n out h p k = absurd (omega arith)
scan-emit (suc zero) n out h p k = ground (arith, scan_first n out k)
scan-emit (suc (suc f)) n out h p k =
    let smaller : n / 10 < 10 ^ suc f = omega (arith, pow-suc 10 (suc f)) in
    elim (Bool-cases (n / 10 == 0)) [
      | inl e ↦ rw e (scan_first n out k e)
      | inr e ↦ rw e (
          scan-emit (suc f) (n / 10) ((b'0' + n % 10) ∷ out) smaller (omega arith) (omega arith)
          ∙ scan_step n out k)
    ]

emit-All : (f n : ℕ) (out : Bytes) → All IsDigit out → All IsDigit (emit f n out)
unfolding emit
emit-All zero n out h = h
emit-All (suc f) n out h = ground (arith, emit-All f (n / 10) ((b'0' + n % 10) ∷ out))

emit-ne-nil : (f n : ℕ) (out : Bytes) → out ≢ [] → emit f n out ≢ []
unfolding emit
emit-ne-nil zero n out h = h
emit-ne-nil (suc f) n out h = ground (arith, emit-ne-nil f (n / 10) ((b'0' + n % 10) ∷ out))

emit-suc-ne-nil : (f n : ℕ) → emit (suc f) n [] ≢ []
unfolding emit
emit-suc-ne-nil f n = ground (arith, emit-ne-nil f (n / 10) ((b'0' + n % 10) ∷ []))

-- A number is printed with digits only.
pub to_string-IsDigit : (n : ℕ) → All IsDigit (to_string n)
unfolding to_string
to_string-IsDigit n = emit-All 20 n [] tt

pub to_string-ne-nil : (n : ℕ) → to_string n ≢ []
unfolding to_string
to_string-ne-nil n = emit-suc-ne-nil 19 n

parse_u64-scan : (s : Bytes) → s ≢ [] → All IsDigit s → parse_u64 s ≡ scan s 0
unfolding parse_u64
parse_u64-scan [] h d = absurd (h refl)
parse_u64-scan (c ∷ s) h d = ground arith

-- Every 64-bit number is read back from its print.
pub parse_u64-to_string : (n : ℕ) → n ≤ u64_max → parse_u64 (to_string n) ≡ some n
unfolding scan
parse_u64-to_string n h =
    rw (parse_u64-scan _ (to_string-ne-nil n) (to_string-IsDigit n))
      (unfold to_string in scan-emit 20 n [] (omega arith) (omega arith) h)

scan-le : (s : Bytes) (n r : ℕ) → n ≤ u64_max → scan s n ≡ some r → r ≤ u64_max
unfolding scan
scan-le [] n r h e = ground arith
scan-le (c ∷ s) n r h e = ground (arith, scan-le s (n * 10 + (c - b'0')) r)

scan_digits-le : (s : Bytes) (r : ℕ) → scan_digits s ≡ some r → r ≤ u64_max
unfolding scan_digits
scan_digits-le [] r e = cc
scan_digits-le (c ∷ s) r e = scan-le (c ∷ s) 0 r (omega arith) e

-- What has been parsed is a 64-bit number.
pub parse_u64-le : (s : Bytes) (r : ℕ) → parse_u64 s ≡ some r → r ≤ u64_max
unfolding parse_u64
parse_u64-le [] r e = cc
parse_u64-le (c ∷ s) r e = ground (arith, scan_digits-le s r, scan_digits-le (c ∷ s) r)

emit-length : (f n : ℕ) (out : Bytes) → length (emit f n out) ≤ f + length out
unfolding emit
emit-length zero n out = omega arith
emit-length (suc f) n out = ground (arith, emit-length f (n / 10) ((b'0' + n % 10) ∷ out))

pub to_string-length : (n : ℕ) → length (to_string n) ≤ 20
unfolding to_string
to_string-length n = omega (arith, emit-length 20 n [])
