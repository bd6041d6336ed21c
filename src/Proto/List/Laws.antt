-- ===== src/Proto/List/Laws.antt =====
-- What crates/nntp-proto/src/list.rs promises of a listing.
use rust_nntp.Prelude.Decimal.{IsDigit, to_string, to_string-IsDigit, parse_u64-to_string}
use rust_nntp.Prelude.SortedMap.Order.{same_refl}
use rust_nntp.Prelude.Text.{Bytes, codes}
use rust_nntp.Prelude.{
  ℕ, ◌≤◌, u64_max, List, [], ◌∷◌, ◌++◌, ◌≡◌, refl, ap, sym, ◌∙◌, arith, All, All-append, All-weaken,
}
use rust_nntp.Proto.Error.{ProtoError, Result, ok, err}
use rust_nntp.Proto.Group.{parse_posting}
use rust_nntp.Proto.Group.Reply.{IsWord, first_word, only_word, to_string-IsWord, accepted-IsWord}
use rust_nntp.Proto.Names.{parse_group_name}
use rust_nntp.Proto.Response.{words_onto, nth}
use rust_nntp.Proto.Utf8.Lossy.{lossy-utf8, IsChar}
use rust_nntp.Proto.Utf8.{utf8}
use rust_nntp.Proto.List.{
  ListResult, decode_8bit_lossy, next_field, number_field, active_fields, parse_active, sort_line,
  parse_lines, parse_block,
}

module _ {ℓ} {A : Type ℓ} (windows_1252 : Bytes → Bytes) (parse_line : Bytes → Result A) where
  -- One after the other
  abbrev both : ListResult A → ListResult A → ListResult A
  both r t = record { entries = r.entries ++ t.entries; skipped = r.skipped ++ t.skipped }

  sort_line-both :
      (line : Bytes) (o : Result A) (r t : ListResult A)
      → sort_line windows_1252 parse_line line o (both r t)
        ≡ both (sort_line windows_1252 parse_line line o r) t
  unfolding sort_line
  sort_line-both line (ok x) r t = refl
  sort_line-both line (err x) r t = refl

  parse_lines-append :
      (xs ys : List Bytes)
      → parse_lines windows_1252 parse_line (xs ++ ys)
        ≡ both (parse_lines windows_1252 parse_line xs) (parse_lines windows_1252 parse_line ys)
  unfolding parse_lines
  parse_lines-append [] ys = refl
  parse_lines-append ([] ∷ xs) ys = parse_lines-append xs ys
  parse_lines-append ((c ∷ s) ∷ xs) ys =
      ap (sort_line windows_1252 parse_line (c ∷ s) (parse_line (c ∷ s))) (parse_lines-append xs ys)
      ∙ sort_line-both (c ∷ s) (parse_line (c ∷ s)) _ _

  bad_first :
      (c : ℕ) (s : Bytes) (e : ProtoError) (ys : List Bytes)
      → parse_line (c ∷ s) ≡ err e
      → parse_lines windows_1252 parse_line ((c ∷ s) ∷ ys) ≡ record {
        entries = (parse_lines windows_1252 parse_line ys).entries;
        skipped =
            decode_8bit_lossy windows_1252 (c ∷ s)
            ∷ (parse_lines windows_1252 parse_line ys).skipped;
      }
  unfolding parse_lines sort_line
  bad_first c s e ys h = rw h refl

  -- A line that cannot be parsed costs no entry of the lines around it, and is kept as text at its
  -- place among those that were skipped.
  pub parse_block-bad :
      (xs ys : List Bytes) (c : ℕ) (s : Bytes) (e : ProtoError)
      → parse_line (c ∷ s) ≡ err e
      → ((parse_block windows_1252 parse_line (record { lines = xs ++ (c ∷ s) ∷ ys })).entries
          ≡ (parse_block windows_1252 parse_line (record { lines = xs ++ ys })).entries)
        × ((parse_block windows_1252 parse_line (record { lines = xs ++ (c ∷ s) ∷ ys })).skipped
            ≡ (parse_block windows_1252 parse_line (record { lines = xs })).skipped
              ++ decode_8bit_lossy windows_1252 (c ∷ s)
                ∷ (parse_block windows_1252 parse_line (record { lines = ys })).skipped)
  unfolding parse_block
  parse_block-bad xs ys c s e h =
      let around =
        parse_lines-append xs ((c ∷ s) ∷ ys)
        ∙ ap (both (parse_lines windows_1252 parse_line xs)) (bad_first c s e ys h) in
      (
        ap (λ r. r.entries) around ∙ sym (ap (λ r. r.entries) (parse_lines-append xs ys)),
        ap (λ r. r.skipped) around,
      )

-- A line of LIST ACTIVE, as RFC 3977 has it.
unfoldable pub active_text : Bytes → ℕ → ℕ → Bytes → Bytes
active_text name high low status =
    name ++ b' ' ∷ (to_string high ++ b' ' ∷ (to_string low ++ b' ' ∷ status))

pub decode_8bit_lossy-utf8 :
    (windows_1252 : Bytes → Bytes) (text : Bytes)
    → All IsChar text
    → decode_8bit_lossy windows_1252 (utf8 text) ≡ text
unfolding decode_8bit_lossy
decode_8bit_lossy-utf8 windows_1252 text h =
    rw (lossy-utf8 text h) (rw (same_refl (utf8 text)) refl)

digit-IsChar : (c : ℕ) → IsDigit c → IsChar c
digit-IsChar c d = (ground (arith, d), omega (arith, d))

active_text-All :
    (name : Bytes) (high low : ℕ) (status : Bytes)
    → All IsChar name
    → All IsChar status
    → All IsChar (active_text name high low status)
unfolding active_text
active_text-All name high low status hn hs = All-append IsChar name _ hn (
  blank,
  All-append IsChar (to_string high) _ (digits high)
      (blank, All-append IsChar (to_string low) _ (digits low) (blank, hs)),
)
  where
    blank : IsChar b' '
    blank = (refl, omega arith)

    digits : (n : ℕ) → All IsChar (to_string n)
    digits n = All-weaken IsDigit IsChar digit-IsChar (to_string n) (to_string-IsDigit n)

words_onto-active_text :
    (name : Bytes) (high low : ℕ) (status : Bytes)
    → IsWord name
    → IsWord status
    → words_onto [] (active_text name high low status)
      ≡ name ∷ to_string high ∷ to_string low ∷ status ∷ []
unfolding active_text
words_onto-active_text name high low status hn hs =
    first_word name _ hn
    ∙ ap (λ ws. name ∷ ws)
        (first_word (to_string high) _ (to_string-IsWord high)
          ∙ ap (λ ws. to_string high ∷ ws)
              (first_word (to_string low) status (to_string-IsWord low)
                ∙ ap (λ ws. to_string low ∷ ws) (only_word status hs)))

number_field-to_string :
    (n : ℕ) (context field : Bytes) → n ≤ u64_max → number_field (to_string n) context field ≡ ok n
unfolding number_field
number_field-to_string n context field h = rw (number_field, parse_u64-to_string n h) refl

-- A line of LIST ACTIVE with a name that `GroupName::parse` accepts, two 64-bit numbers and a word
-- for the status is read with that name, those numbers, and what the word says; and the decoder of
-- Windows-1252 has no part in it.
pub parse_active-active_text :
    (windows_1252 : Bytes → Bytes) (v name : Bytes) (high low : ℕ) (status : Bytes)
    → parse_group_name v ≡ ok name
    → All IsChar name
    → high ≤ u64_max
    → low ≤ u64_max
    → IsWord status
    → All IsChar status
    → parse_active windows_1252 (utf8 (active_text name high low status))
      ≡ ok (record { name = name; high = high; low = low; status = parse_posting status })
unfolding parse_active active_fields next_field nth
parse_active-active_text windows_1252 v name high low status e hn hh hl hs hc =
    let (w, again) = accepted-IsWord v name e in
    rw
      (decode_8bit_lossy-utf8 windows_1252 (active_text name high low status)
        (active_text-All name high low status hn hc))
      (rw (words_onto-active_text name high low status w hs) (
        rw again (
          rw (number_field-to_string high (codes "LIST ACTIVE line") (codes "high") hh)
            (rw (number_field-to_string low (codes "LIST ACTIVE line") (codes "low") hl) refl))))
