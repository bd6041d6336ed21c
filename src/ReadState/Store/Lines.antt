-- ===== src/ReadState/Store/Lines.antt =====
-- One line of the `.newsrc` file of crates/nntp-tui/src/readstate/store.rs: printed, and read back.
use rust_nntp.Prelude.Text.{Bytes, is_whitespace, lines, trim, trim_start, trim_end, split}
use rust_nntp.Prelude.Text.Laws.{IsSolid, Lacks, trim-IsSolid, trim_end-IsSolid, split-cons}
use rust_nntp.Prelude.{
  ℕ, Bool, true, false, some, [], ◌∷◌, ◌++◌, ◌≡◌, ◌≢◌, refl, ap, sym, ◌∙◌, arith, ◌==◌, All,
  All-append, All-weaken, append_assoc,
}
use rust_nntp.Proto.Utf8.Lossy.{IsChar}
use rust_nntp.ReadState.Set.Newsrc
use rust_nntp.ReadState.Set.Newsrc.RoundTrip.{parse-print, print-All, digit-IsSolid}
use rust_nntp.ReadState.Set.Sorted.{IsValid}
use rust_nntp.ReadState.Set.{ReadSet, empty}
use rust_nntp.ReadState.Store.{
  is_separator, find_separator, split_at, split_found, split_line, separator_of, load_line,
  load_split, load_group, Loading,
}

-- A group that the file can name: a text, not empty, no white space and no separator in it, and no `#`
-- in front, which would make a comment of its line.
pub record IsNameable (group : Bytes) : Type 0 where
  pub filled : group ≢ []
  pub chars : All IsChar group
  pub solid : All IsSolid group
  pub plain : All (λ c. is_separator c ≡ false) group
  pub no_comment : (s : Bytes) → group ≢ b'#' ∷ s

-- The line of a group, without its end.
abbrev pub line_of : Bytes → Bool → ReadSet → Bytes
line_of group subscribed read = group ++ (separator_of subscribed ∷ b' ' ∷ Newsrc.print read)

-- A line without an end of a line in it is the first of the lines.
pub lines-append :
    (l t : Bytes) → Lacks b'\n' l → Lacks b'\r' l → lines (l ++ b'\n' ∷ t) ≡ l ∷ lines t
unfolding lines
lines-append [] t lf cr = refl
lines-append (c ∷ l) t (hl, lf) (hr, cr) =
    let no_lf : (c == b'\n') ≡ false = ground (arith, hl) in
    let no_cr : (c == b'\r') ≡ false = ground (arith, hr) in
    rw (lines-append l t lf cr) (rw (no_lf, no_cr) refl)

trim_end-append :
    (a b : Bytes) (c : ℕ) (t : Bytes) → trim_end b ≡ c ∷ t → trim_end (a ++ b) ≡ a ++ (c ∷ t)
unfolding trim_end
trim_end-append [] b c t e = e
trim_end-append (x ∷ []) b c t e = rw e refl
trim_end-append (x ∷ y ∷ a) b c t e = rw (trim_end-append (y ∷ a) b c t e) refl

-- What trimming leaves of what stands behind the separator.
tail_of : ReadSet → Bytes
tail_of s = elim (Newsrc.print s) [ [] ↦ [] | c ∷ t ↦ b' ' ∷ c ∷ t ]

separator-IsSolid : (b : Bool) → is_whitespace (separator_of b) ≡ false
unfolding is_whitespace
separator-IsSolid true = refl
separator-IsSolid false = refl

trim_end-solid_tail :
    (c : ℕ) (s : Bytes)
    → IsSolid c
    → All IsSolid s
    → trim_end (c ∷ b' ' ∷ s) ≡ c ∷ elim s as (λ x. Bytes) [ [] ↦ [] | d ∷ t ↦ b' ' ∷ d ∷ t ]
unfolding trim_end is_whitespace
trim_end-solid_tail c [] h hs = rw h refl
trim_end-solid_tail c (d ∷ t) h hs = rw (trim_end-IsSolid (d ∷ t) hs) refl

print-IsSolid : (s : ReadSet) → All IsSolid (Newsrc.print s)
unfolding is_whitespace
print-IsSolid s = print-All IsSolid s digit-IsSolid refl refl

trim_start-front : (g t : Bytes) → g ≢ [] → All IsSolid g → trim_start (g ++ t) ≡ g ++ t
unfolding trim_start
trim_start-front [] t ne h = absurd (ne refl)
trim_start-front (c ∷ g) t ne (hc, h) = rw hc refl

trim-line_of :
    (group : Bytes) (b : Bool) (s : ReadSet)
    → group ≢ []
    → All IsSolid group
    → trim (line_of group b s) ≡ group ++ (separator_of b ∷ tail_of s)
unfolding trim tail_of
trim-line_of group b s filled solid =
    ap trim_end (trim_start-front group (separator_of b ∷ b' ' ∷ Newsrc.print s) filled solid)
    ∙ trim_end-append group (separator_of b ∷ b' ' ∷ Newsrc.print s) (separator_of b) (tail_of s) (
        trim_end-solid_tail (separator_of b) (Newsrc.print s) (separator-IsSolid b)
          (print-IsSolid s))

find_separator-append :
    (g t : Bytes) (c : ℕ)
    → All (λ d. is_separator d ≡ false) g
    → is_separator c ≡ true
    → find_separator (g ++ c ∷ t) ≡ some (g, c, t)
unfolding find_separator
find_separator-append [] t c h e = rw e refl
find_separator-append (d ∷ g) t c (hd, h) e = rw hd (rw (find_separator-append g t c h e) refl)

split_at-filled : (g t : Bytes) (b : Bool) → g ≢ [] → split_at g (separator_of b) t ≡ some (g, b, t)
unfolding split_at
split_at-filled [] t b ne = absurd (ne refl)
split_at-filled (c ∷ g) t true ne = refl
split_at-filled (c ∷ g) t false ne = refl

separator_test : (b : Bool) → is_separator (separator_of b) ≡ true
separator_test true = refl
separator_test false = refl

split_line-line :
    (group t : Bytes) (b : Bool)
    → IsNameable group
    → split_line (group ++ (separator_of b ∷ t)) ≡ some (group, b, t)
unfolding split_line split_found
split_line-line group t b h =
    ap split_found (find_separator-append group t (separator_of b) h.plain (separator_test b))
    ∙ ap (λ g. split_at g (separator_of b) t) (trim-IsSolid group h.solid)
    ∙ split_at-filled group t b h.filled

trim-blank : (s : Bytes) → trim (b' ' ∷ s) ≡ trim s
unfolding trim trim_start is_whitespace
trim-blank s = refl

-- A blank in front of the ranges does not matter.
parse-blank : (t : Bytes) → Newsrc.parse (b' ' ∷ t) ≡ Newsrc.parse t
unfolding Newsrc.parse Newsrc.parse_pieces split
parse-blank t =
    let (p, ps, e) = split-cons b',' t in
    rw e (ap (λ q. Newsrc.parse_pieces (Newsrc.add_piece (empty, []) q) ps) (trim-blank p))

parse-tail_of : (s : ReadSet) → IsValid s → Newsrc.parse (tail_of s) ≡ (s, [])
unfolding tail_of
parse-tail_of s v = read_back (Newsrc.print s) (parse-print s v)
  where
    read_back :
        (t : Bytes)
        → Newsrc.parse t ≡ (s, [])
        → Newsrc.parse (elim t as (λ x. Bytes) [ [] ↦ [] | c ∷ r ↦ b' ' ∷ c ∷ r ]) ≡ (s, [])
    read_back [] e = e
    read_back (c ∷ r) e = parse-blank (c ∷ r) ∙ e

load_line-filled :
    (l : Loading) (i : ℕ) (g t : Bytes)
    → g ≢ []
    → ((s : Bytes) → g ≢ b'#' ∷ s)
    → load_line l i (g ++ t) ≡ load_split l i (split_line (g ++ t))
unfolding load_line
load_line-filled l i [] t ne free = absurd (ne refl)
load_line-filled l i (c ∷ g) t ne free =
    let test : (c == b'#') ≡ false = ground (arith, free g) in rw test refl

-- The trimmed line of a group adds that group with its flag and its set.
pub load_line-line_of :
    (l : Loading) (i : ℕ) (group : Bytes) (b : Bool) (s : ReadSet)
    → IsNameable group
    → IsValid s
    → load_line l i (trim (line_of group b s)) ≡ load_group l group b (s, [])
unfolding load_split
load_line-line_of l i group b s h v =
    ap (load_line l i) (trim-line_of group b s h.filled h.solid)
    ∙ load_line-filled l i group (separator_of b ∷ tail_of s) h.filled h.no_comment
    ∙ ap (load_split l i) (split_line-line group (tail_of s) b h)
    ∙ ap (load_group l group b) (parse-tail_of s v)

-- A line has no end of a line in it.
line_of-Lacks :
    (c : ℕ) (group : Bytes) (b : Bool) (s : ReadSet)
    → is_whitespace c ≡ true
    → (c == b' ') ≡ false
    → IsNameable group
    → Lacks c (line_of group b s)
line_of-Lacks c group b s w n h =
    All-append (λ d. d ≢ c) group _ (All-weaken IsSolid (λ d. d ≢ c) solid_other group h.solid)
      (
        solid_other (separator_of b) (separator-IsSolid b),
        (
          ground (arith, n),
          All-weaken IsSolid (λ d. d ≢ c) solid_other (Newsrc.print s) (print-IsSolid s),
        ),
      )
  where
    solid_other : (d : ℕ) → IsSolid d → d ≢ c
    solid_other d h e = absurd (clash (sym w ∙ ap is_whitespace (sym e) ∙ h))
      where
        clash : true ≡ false → ⊥
        clash q = ground (arith, q)

pub lines-line_of :
    (group t : Bytes) (b : Bool) (s : ReadSet)
    → IsNameable group
    → lines (line_of group b s ++ b'\n' ∷ t) ≡ line_of group b s ∷ lines t
unfolding is_whitespace
lines-line_of group t b s h =
    lines-append (line_of group b s) t (line_of-Lacks b'\n' group b s refl refl h)
      (line_of-Lacks b'\r' group b s refl refl h)

-- A group with a colon in its name, which `GroupName::parse` accepts: if the part in front of the colon
-- is a name that a line can carry, and no white space is behind it, then its line is read as one of the
-- group whose name is the part in front of the colon.
pub split_line-colon :
    (a rest : Bytes) (b : Bool) (s : ReadSet)
    → IsNameable a
    → All IsSolid rest
    → (t : Bytes) × (split_line (trim (line_of (a ++ b':' ∷ rest) b s)) ≡ some (a, true, t))
unfolding is_whitespace
split_line-colon a rest b s h solid = (
  rest ++ (separator_of b ∷ tail_of s),
  ap split_line (
        trim-line_of (a ++ b':' ∷ rest) b s (longer a)
          (All-append IsSolid a (b':' ∷ rest) h.solid (refl, solid))
        ∙ append_assoc a (b':' ∷ rest) (separator_of b ∷ tail_of s))
      ∙ split_line-line a (rest ++ (separator_of b ∷ tail_of s)) true h,
)
  where
    longer : (t : Bytes) → t ++ b':' ∷ rest ≢ []
    longer [] e = absurd (ground (arith, e))
    longer (c ∷ t) e = absurd (ground (arith, e))
