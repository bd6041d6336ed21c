-- ===== src/ReadState/Set/Newsrc/RoundTrip.antt =====
-- `Display` and `ReadSet::parse` of crates/nntp-tui/src/readstate/set.rs are inverse to each other.
use rust_nntp.Prelude.Decimal.{
  IsDigit, to_string, to_string-IsDigit, to_string-ne-nil, parse_u64, parse_u64-to_string,
}
use rust_nntp.Prelude.Text.{Bytes, is_whitespace, trim, trim_start, trim_end, split, split_once}
use rust_nntp.Prelude.Text.Laws.{
  IsSolid, Lacks, trim-IsSolid, split-Lacks, split-append, split_once-Lacks, split_once-append,
}
use rust_nntp.Prelude.{
  ℕ, ◌+◌, ◌≤◌, ◌<◌, true, ◌||◌, some, List, [], ◌∷◌, ◌++◌, ◌≡◌, ◌≢◌, refl, ◌∙◌, ap, inl, inr, arith,
  ltb, ◌==◌, if◌then◌else◌, Bool-cases, u64_max, All, All-append, All-weaken, map, append-nil,
}
use rust_nntp.ReadState.Set.{Range, ReadSet, empty, insert_range}
use rust_nntp.ReadState.Set.Canonical.{members-ext}
use rust_nntp.ReadState.Set.Newsrc.{
  parse_high, parse_sides, parse_piece, Parsed, keep_piece, add_piece, parse_pieces, parse,
  print_range, print_from, print,
}
use rust_nntp.ReadState.Set.Insert.{insert_range-IsValid, members-insert_range}
use rust_nntp.ReadState.Set.Sorted.{Sorted, IsValid, covers, members}

pub digit-IsSolid : (c : ℕ) → IsDigit c → IsSolid c
unfolding is_whitespace
digit-IsSolid c h = ground arith

to_string-IsSolid : (n : ℕ) → All IsSolid (to_string n)
to_string-IsSolid n = All-weaken IsDigit IsSolid digit-IsSolid (to_string n) (to_string-IsDigit n)

to_string-Lacks : (b n : ℕ) → b ≤ 47 → Lacks b (to_string n)
to_string-Lacks b n h =
    All-weaken IsDigit (λ c. c ≢ b) (λ c d. omega arith) (to_string n) (to_string-IsDigit n)

trim-to_string : (n : ℕ) → trim (to_string n) ≡ to_string n
trim-to_string n = trim-IsSolid (to_string n) (to_string-IsSolid n)

parse_high-to_string :
    (a b : ℕ)
    → a ≤ u64_max
    → b ≤ u64_max
    → (t : Bytes) → t ≡ to_string b
    → parse_high (to_string a) t ≡ some (a, b)
unfolding parse_high
parse_high-to_string a b ha hb [] e = absurd (to_string-ne-nil b (cc))
parse_high-to_string a b ha hb (c ∷ s) e =
    rw (e, parse_u64-to_string a ha, parse_u64-to_string b hb)

-- The print of a range is read back.
parse_piece-print_range :
    (l h : ℕ) → l ≤ u64_max → h ≤ u64_max → parse_piece (print_range (l, h)) ≡ some (l, h)
unfolding parse_piece print_range
parse_piece-print_range l h hl hh = elim (Bool-cases (l == h)) [
  | inl e ↦
      rw (e, split_once-Lacks b'-' (to_string l) (to_string-Lacks b'-' l (omega arith)))
        (unfold parse_sides in rw (trim-to_string l, parse_u64-to_string l hl) (ground arith))
  | inr e ↦
      rw
        (
          e,
          split_once-append b'-' (to_string l) (to_string h) (to_string-Lacks b'-' l (omega arith)),
        )
        (unfold parse_sides in
          rw (trim-to_string l) (parse_high-to_string l h hl hh _ (trim-to_string h)))
]

-- A range is printed with digits and a dash.
print_range-All :
    (P : ℕ → Type 0) (l h : ℕ) → ((c : ℕ) → IsDigit c → P c) → P b'-' → All P (print_range (l, h))
unfolding print_range
print_range-All P l h digit dash =
    let low = All-weaken IsDigit P digit (to_string l) (to_string-IsDigit l) in
    let high = All-weaken IsDigit P digit (to_string h) (to_string-IsDigit h) in
    elim (Bool-cases (l == h)) [
      | inl e ↦ rw e low
      | inr e ↦ rw e (All-append P (to_string l) (b'-' ∷ to_string h) low (dash, high))
    ]

print_range-Lacks : (l h : ℕ) → Lacks b',' (print_range (l, h))
print_range-Lacks l h = print_range-All (λ c. c ≢ b',') l h (λ c d. omega arith) (omega arith)

-- A set is printed with digits, dashes and commas.
print_from-All :
    (P : ℕ → Type 0) (i : ℕ) (rs : List Range)
    → ((c : ℕ) → IsDigit c → P c)
    → P b'-'
    → P b','
    → All P (print_from i rs)
unfolding print_from
print_from-All P i [] digit dash comma = tt
print_from-All P i ((l, h) ∷ rs) digit dash comma =
    All-append P (if ltb 0 i then b',' ∷ [] else []) _ front (
      All-append P (print_range (l, h)) _ (print_range-All P l h digit dash)
        (print_from-All P (i + 1) rs digit dash comma))
  where
    front : All P (if ltb 0 i then b',' ∷ [] else [])
    front = elim (Bool-cases (ltb 0 i)) [ inl e ↦ rw e (comma, tt) | inr e ↦ rw e tt ]

pub print-All :
    (P : ℕ → Type 0) (s : ReadSet) → ((c : ℕ) → IsDigit c → P c) → P b'-' → P b',' → All P (print s)
unfolding print
print-All P s digit dash comma = print_from-All P 0 s.ranges digit dash comma

cons_of : (s : Bytes) → s ≢ [] → (c : ℕ) × (t : Bytes) × (s ≡ c ∷ t)
cons_of [] h = absurd (h refl)
cons_of (c ∷ t) h = (c, t, refl)

print_range-cons : (l h : ℕ) → (c : ℕ) × (t : Bytes) × (print_range (l, h) ≡ c ∷ t)
unfolding print_range
print_range-cons l h =
    let (c, t, e) = cons_of (to_string l) (to_string-ne-nil l) in
    elim (Bool-cases (l == h)) [
      | inl t' ↦ (c, t, rw (t', e) refl)
      | inr t' ↦ (c, t ++ b'-' ∷ to_string h, rw (t', e) refl)
    ]

-- A set that is not empty is printed.
pub print-cons :
    (r : Range) (rs : List Range)
    → (c : ℕ) × (t : Bytes) × (print (record { ranges = r ∷ rs }) ≡ c ∷ t)
unfolding print print_from
print-cons (l, h) rs = let (c, t, e) = print_range-cons l h in (c, t ++ print_from 1 rs, rw e refl)

trim-print_range : (l h : ℕ) → trim (print_range (l, h)) ≡ print_range (l, h)
unfolding is_whitespace
trim-print_range l h =
    trim-IsSolid (print_range (l, h)) (print_range-All IsSolid l h digit-IsSolid refl)

-- Every range behind a comma.
commas : List Range → Bytes
commas [] = []
commas (r ∷ rs) = b',' ∷ (print_range r ++ commas rs)

print_from-commas : (i : ℕ) (rs : List Range) → 0 < i → print_from i rs ≡ commas rs
unfolding print_from commas
print_from-commas i [] p = refl
print_from-commas i (r ∷ rs) p =
    let test : ltb 0 i ≡ true = ground arith in
    rw (test, print_from-commas (i + 1) rs (omega arith))

split-commas :
    (l h : ℕ) (rs : List Range)
    → split b',' (print_range (l, h) ++ commas rs) ≡ map print_range ((l, h) ∷ rs)
unfolding commas
split-commas l h [] = rw append-nil (split-Lacks b',' _ (print_range-Lacks l h))
split-commas l h ((l', h') ∷ rs) =
    split-append b',' (print_range (l, h)) _ (print_range-Lacks l h)
    ∙ ap (◌∷◌ (print_range (l, h))) (split-commas l' h' rs)

-- The ranges inserted one after the other.
unfoldable pub insert_all : ReadSet → List Range → ReadSet
insert_all s [] = s
insert_all s ((l, h) ∷ rs) = insert_all (insert_range s l h) rs

add_piece-some :
    (p : Parsed) (t : Bytes) (l h : ℕ)
    → t ≢ []
    → parse_piece t ≡ some (l, h)
    → add_piece p t ≡ (insert_range p.0 l h, p.1)
unfolding add_piece keep_piece
add_piece-some p [] l h ne e = absurd (ne refl)
add_piece-some (s, bad) (c ∷ t) l h ne e = rw e

-- A text that parses to something is not empty.
parsed-ne-nil : (t : Bytes) (r : Range) → parse_piece t ≡ some r → t ≢ []
unfolding parse_piece parse_sides split_once trim trim_start trim_end parse_u64
parsed-ne-nil [] r e = λ _. cc
parsed-ne-nil (c ∷ t) r e = cc

add_piece-print_range :
    (p : Parsed) (l h : ℕ)
    → l ≤ u64_max
    → h ≤ u64_max
    → add_piece p (trim (print_range (l, h))) ≡ (insert_range p.0 l h, p.1)
add_piece-print_range p l h hl hh =
    let read = parse_piece-print_range l h hl hh in
    ap (add_piece p) (trim-print_range l h)
    ∙ add_piece-some p (print_range (l, h)) l h (parsed-ne-nil _ _ read) read

parse_pieces-map :
    (s : ReadSet) (b : ℕ) (rs : List Range)
    → Sorted b rs
    → parse_pieces (s, []) (map print_range rs) ≡ (insert_all s rs, [])
unfolding parse_pieces insert_all
parse_pieces-map s b [] v = refl
parse_pieces-map s b ((l, h) ∷ rs) (p, q, r, v) =
    ap (λ (p : Parsed). parse_pieces p (map print_range rs))
      (add_piece-print_range (s, []) l h (omega arith) r)
    ∙ parse_pieces-map (insert_range s l h) (h + 2) rs v

insert_all-IsValid :
    (s : ReadSet) (b : ℕ) (rs : List Range) → IsValid s → Sorted b rs → IsValid (insert_all s rs)
unfolding insert_all
insert_all-IsValid s b [] v w = v
insert_all-IsValid s b ((l, h) ∷ rs) v (p, q, r, w) =
    insert_all-IsValid (insert_range s l h) (h + 2) rs
      (insert_range-IsValid s l h v (omega arith) r) w

insert_all-members :
    (s : ReadSet) (b n : ℕ) (rs : List Range)
    → 1 ≤ b
    → IsValid s
    → Sorted b rs
    → members (insert_all s rs) n ≡ (covers rs n || members s n)
unfolding insert_all covers
insert_all-members s b n [] b1 v w = refl
insert_all-members s b n ((l, h) ∷ rs) b1 v (p, q, r, w) =
    let l1 : 1 ≤ l = omega arith in
    ground (
      arith,
      insert_all-members (insert_range s l h) (h + 2) n rs (omega arith)
          (insert_range-IsValid s l h v (omega arith) r) w,
      members-insert_range s l h n v (omega arith) r,
    )

pub insert_all-ranges : (s : ReadSet) → IsValid s → insert_all empty s.ranges ≡ s
insert_all-ranges s v =
    members-ext (insert_all empty s.ranges) s (insert_all-IsValid empty 1 s.ranges tt v) v
      (λ n. insert_all-members empty 1 n s.ranges (omega arith) tt v ∙ or_empty n)
  where
    or_empty : (n : ℕ) → (covers s.ranges n || members empty n) ≡ members s n
    or_empty n = unfold covers in ground arith

parse-print_ranges :
    (rs : List Range)
    → Sorted 1 rs
    → parse_pieces (empty, []) (split b',' (print_from 0 rs)) ≡ (insert_all empty rs, [])
parse-print_ranges [] v = unfold parse_pieces add_piece insert_all split print_from trim in refl
parse-print_ranges ((l, h) ∷ rs) v =
    unfold print_from in
    rw (print_from-commas 1 rs (omega arith))
      (rw (split-commas l h rs) (parse_pieces-map empty 1 ((l, h) ∷ rs) v))

-- A valid set is read back from its print, and nothing is reported as malformed.
pub parse-print : (s : ReadSet) → IsValid s → parse (print s) ≡ (s, [])
unfolding parse print
parse-print s v =
    parse-print_ranges s.ranges v
    ∙ ap (λ (t : ReadSet). let p : Parsed = (t, []) in p) (insert_all-ranges s v)
