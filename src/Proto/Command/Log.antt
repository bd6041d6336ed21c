-- ===== src/Proto/Command/Log.antt =====
-- What `to_log_string` of crates/nntp-proto/src/command.rs writes of a command that is sent.
use rust_nntp.Prelude.Text.{Bytes, codes}
use rust_nntp.Prelude.Text.Laws.{Lacks}
use rust_nntp.Prelude.{
  ℕ, ◌<◌, true, false, [], ◌∷◌, ◌++◌, ◌≡◌, ◌≢◌, refl, ap, sym, ◌∙◌, arith, ltb, All, All-append,
}
use rust_nntp.Proto.Command.Safety.{IsPlain, finish_lem}
use rust_nntp.Proto.Command.{
  Command, is_ascii_control, is_sensitive, assemble, to_wire, trim_line_end, log_of, to_log_string,
}
use rust_nntp.Proto.Error.{ok}
use rust_nntp.Proto.Utf8.Lossy.{lossy, lossy-utf8, IsChar}
use rust_nntp.Proto.Utf8.{utf8, utf8-append, encode_char}

trim_line_end-crlf :
    (s : Bytes) → Lacks b'\r' s → Lacks b'\n' s → trim_line_end (s ++ codes "\r\n") ≡ s
unfolding trim_line_end
trim_line_end-crlf [] cr lf = refl
trim_line_end-crlf (c ∷ []) (hc, cr) (hl, lf) = ground (arith, hc, hl)
trim_line_end-crlf (c ∷ d ∷ s) (hc, cr) (hl, lf) = rw (trim_line_end-crlf (d ∷ s) cr lf) refl

All-right : (xs ys : Bytes) → All IsPlain (xs ++ ys) → All IsPlain ys
All-right [] ys h = h
All-right (x ∷ xs) ys (p, h) = All-right xs ys h

-- A control octet is not the encoding of a character of a plain text.
first_plain :
    (b c : ℕ) (ys : Bytes)
    → b < 0x80
    → is_ascii_control b ≡ true
    → All IsPlain (encode_char c ++ ys)
    → c ≢ b
unfolding encode_char
first_plain b c ys small bad h e = absurd (clash (rw (e, below small) at h).0)
  where
    below : b < 0x80 → ltb b 0x80 ≡ true
    below k = ground (arith, k)

    clash : is_ascii_control b ≡ false → ⊥
    clash good = ground (arith, good, bad)

plain_text-Lacks :
    (b : ℕ) (s : Bytes) → b < 0x80 → is_ascii_control b ≡ true → All IsPlain (utf8 s) → Lacks b s
unfolding utf8
plain_text-Lacks b [] small bad h = tt
plain_text-Lacks b (c ∷ s) small bad h = (
  first_plain b c (utf8 s) small bad h,
  plain_text-Lacks b s small bad (All-right (encode_char c) (utf8 s) h),
)

-- What is logged of a command that is not a password, that is encoded, and whose line is of Unicode
-- scalar values, is the line that is sent.
pub to_log_string-assemble :
    {DateTime : Type 0} (format : DateTime → Bytes → Bytes) (c : Command DateTime) (bytes : Bytes)
    → is_sensitive c ≡ false
    → to_wire format c ≡ ok bytes
    → All IsChar (assemble format c)
    → to_log_string format c ≡ assemble format c
unfolding to_log_string log_of to_wire is_ascii_control utf8 encode_char
to_log_string-assemble format c bytes open_text w chars =
    let line = assemble format c in
    let (whole, plain, _, _) = finish_lem c line bytes w in
    rw (open_text, w)
      (ap (λ t. trim_line_end (lossy t)) (whole ∙ sym (utf8-append line (codes "\r\n")))
        ∙ ap trim_line_end (
            lossy-utf8 (line ++ codes "\r\n") (
              All-append IsChar line (codes "\r\n") chars
                ((refl, omega arith), ((refl, omega arith), tt))))
        ∙ trim_line_end-crlf line (plain_text-Lacks b'\r' line (omega arith) refl plain)
            (plain_text-Lacks b'\n' line (omega arith) refl plain))
