-- ===== src/Proto/Response.antt =====
-- crates/nntp-proto/src/response.rs: status lines and the classes of response codes.
pub mod Codes
pub mod Parse
use rust_nntp.Prelude.Decimal.{parse_u64}
use rust_nntp.Prelude.Text.{Bytes, codes, is_ascii_digit, within}
use rust_nntp.Prelude.{
  ℕ, ◌+◌, ◌*◌, ◌-◌, Bool, true, false, ◌&&◌, ◌||◌, not, Option, none, some, List, [], ◌∷◌, ◌++◌,
  ltb, leb, ◌==◌, if◌then◌else◌, all, zero, suc,
}
use rust_nntp.Proto.Error.{
  Result, ok, err, ◌>>=◌, malformed_status_line, missing_field, invalid_number,
}
use rust_nntp.Proto.Utf8.Lossy.{lossy}

-- `code` is the number of the `ResponseCode`.
pub record StatusLine : Type 0 where
  pub code : ℕ
  pub text : Bytes

-- `strip_suffix` of one octet, or the line as it is
unfoldable pub strip_one : ℕ → Bytes → Bytes
strip_one b [] = []
strip_one b (c ∷ []) = if c == b then [] else c ∷ []
strip_one b (c ∷ d ∷ s) = c ∷ strip_one b (d ∷ s)

unfoldable pub strip_eol : Bytes → Bytes
strip_eol line = strip_one b'\r' (strip_one b'\n' line)

-- `rest.split_first()`, behind the digits
unfoldable pub read_text : Bytes → ℕ → Bytes → Result StatusLine
read_text line code [] = ok (record { code = code; text = [] })
read_text line code (c ∷ tail) =
    if c == b' ' || c == b'\t'
    then ok (record { code = code; text = lossy tail })
    else err (malformed_status_line (lossy line))

-- `fold` over three digits; the value stays below 1000.
unfoldable pub value_of : ℕ → ℕ → ℕ → ℕ
value_of a b c = ((0 * 10 + (a - b'0')) * 10 + (b - b'0')) * 10 + (c - b'0')

unfoldable pub parse_stripped : Bytes → Result StatusLine
parse_stripped (a ∷ b ∷ c ∷ rest) =
    if is_ascii_digit a && is_ascii_digit b && is_ascii_digit c
    then read_text (a ∷ b ∷ c ∷ rest) (value_of a b c) rest
    else err (malformed_status_line (lossy (a ∷ b ∷ c ∷ rest)))
parse_stripped line = err (malformed_status_line (lossy line))

-- `StatusLine::parse`
unfoldable pub parse_status : Bytes → Result StatusLine
parse_status line = parse_stripped (strip_eol line)

-- `u8::is_ascii_whitespace`, for characters
unfoldable pub is_ascii_whitespace : ℕ → Bool
is_ascii_whitespace c = c == 32 || c == 9 || c == 10 || c == 12 || c == 13

-- `split_ascii_whitespace`: the words of the text, none of them empty.
unfoldable pub words_onto : Bytes → Bytes → List Bytes
words_onto [] [] = []
words_onto (w ∷ ws) [] = (w ∷ ws) ∷ []
words_onto [] (c ∷ s) = elim (is_ascii_whitespace c) [
  | true ↦ words_onto [] s
  | false ↦ words_onto (c ∷ []) s
]
words_onto (w ∷ ws) (c ∷ s) = elim (is_ascii_whitespace c) [
  | true ↦ (w ∷ ws) ∷ words_onto [] s
  | false ↦ words_onto ((w ∷ ws) ++ c ∷ []) s
]

unfoldable pub args : StatusLine → List Bytes
args line = words_onto [] line.text

-- `Iterator::nth`
unfoldable pub nth : ℕ → List Bytes → Option Bytes
nth n [] = none
nth zero (w ∷ ws) = some w
nth (suc n) (w ∷ ws) = nth n ws

unfoldable pub or_missing : Bytes → Bytes → Option Bytes → Result Bytes
or_missing context field none = err (missing_field context field)
or_missing context field (some raw) = ok raw

unfoldable pub arg : StatusLine → ℕ → Bytes → Bytes → Result Bytes
arg line n context field = or_missing context field (nth n (args line))

unfoldable pub number_of : Bytes → Bytes → Option ℕ → Result ℕ
number_of context raw none = err (invalid_number context raw)
number_of context raw (some n) = ok n

unfoldable pub arg_u64 : StatusLine → ℕ → Bytes → Bytes → Result ℕ
arg_u64 line n context field = do
  raw ← arg line n context field
  number_of context raw (parse_u64 raw)

pub data ResponseKind : Type 0 where
  informative success continue transient_error permanent_error unknown : ResponseKind

-- `ResponseCode::kind`
unfoldable pub kind : ℕ → ResponseKind
kind code =
    if within 100 199 code
    then informative
    else if within 200 299 code
    then success
    else if within 300 399 code
    then continue
    else if within 400 499 code
    then transient_error
    else if within 500 599 code
    then permanent_error
    else unknown

unfoldable pub kind_is_ok : ResponseKind → Bool
kind_is_ok informative = true
kind_is_ok success = true
kind_is_ok _ = false

unfoldable pub is_ok : ℕ → Bool
is_ok code = kind_is_ok (kind code)

unfoldable pub kind_is_error : ResponseKind → Bool
kind_is_error transient_error = true
kind_is_error permanent_error = true
kind_is_error _ = false

unfoldable pub is_error : ℕ → Bool
is_error code = kind_is_error (kind code)

unfoldable pub always_has_data_block : ℕ → Bool
always_has_data_block c =
    c == 100
    || c == 101
    || c == 215
    || c == 220
    || c == 221
    || c == 222
    || c == 224
    || c == 225
    || c == 230
    || c == 231
