-- ===== src/ReadState/Store/RoundTrip.antt =====
-- The `.newsrc` file that crates/nntp-tui/src/readstate/store.rs writes is read back.
use rust_nntp.Prelude.SortedMap.Laws.{
  IsSorted, IsBehind, Values, upsert-past, lookup-cons, lookup-IsBehind,
}
use rust_nntp.Prelude.SortedMap.Order.{
  before_irrefl, before_trans, before-differ, same-sym, same-eq,
}
use rust_nntp.Prelude.SortedMap.{Map, same, before, lookup, upsert}
use rust_nntp.Prelude.Text.{Bytes, lines, trim}
use rust_nntp.Prelude.{
  ℕ, ◌+◌, ◌≤◌, Bool, true, false, ◌&&◌, Option, some, List, [], ◌∷◌, ◌++◌, ◌≡◌, refl, ap, sym, ◌∙◌,
  arith, if◌then◌else◌, Bool-cases, inl, inr, append_assoc, append-nil, subst, ◌⊎◌,
}
use rust_nntp.Prelude.Decimal.{IsDigit}
use rust_nntp.Proto.Utf8.Lossy.{lossy-utf8, IsChar}
use rust_nntp.Proto.Utf8.{utf8}
use rust_nntp.Prelude.{length, ltb, All, All-append}
use rust_nntp.ReadState.Set.Newsrc
use rust_nntp.ReadState.Set.Newsrc.RoundTrip.{insert_all, insert_all-ranges, print-All}
use rust_nntp.ReadState.Set.Sorted.{IsValid}
use rust_nntp.ReadState.Set.{Range, ReadSet, empty, is_empty, insert_range}
use rust_nntp.ReadState.Store.Lines.{IsNameable, line_of, lines-line_of, load_line-line_of}
use rust_nntp.ReadState.Store.Reads.{IsWellFormed}
use rust_nntp.ReadState.Store.{
  default_entry, merge_entry, insert_ranges, load_group, load_line, load, load_contents, size,
  octets, empty_store, max_store_bytes, read_of, read_set, separator_of,
}
use rust_nntp.ReadState.Store.{
  Entry, ReadStore, Loading, load_lines, to_newsrc, print_groups, print_entry, is_silent,
}

-- The groups that are written.
unfoldable pub kept : Map Entry → Map Entry
kept [] = []
kept ((g, e) ∷ m) = if is_silent e then kept m else (g, e) ∷ kept m

abbrev pub Named : Map Entry → Type 0
Named [] = Unit
Named ((g, e) ∷ m) = IsNameable g × Named m

IsBehind-mid :
    (j k : Bytes) (v : Entry) (acc m : Map Entry)
    → IsBehind j (acc ++ (k, v) ∷ m)
    → before j k ≡ true
IsBehind-mid j k v [] m (p, h) = p
IsBehind-mid j k v ((i, w) ∷ acc) m (p, h) = IsBehind-mid j k v acc m h

IsBehind-drop :
    (j k : Bytes) (v : Entry) (acc m : Map Entry)
    → IsBehind j (acc ++ (k, v) ∷ m)
    → IsBehind j (acc ++ m)
IsBehind-drop j k v [] m (p, h) = h
IsBehind-drop j k v ((i, w) ∷ acc) m (p, h) = (p, IsBehind-drop j k v acc m h)

IsSorted-drop :
    (k : Bytes) (v : Entry) (acc m : Map Entry) → IsSorted (acc ++ (k, v) ∷ m) → IsSorted (acc ++ m)
IsSorted-drop k v [] m (p, h) = h
IsSorted-drop k v ((i, w) ∷ acc) m (p, h) = (IsBehind-drop i k v acc m p, IsSorted-drop k v acc m h)

before-asym : (j k : Bytes) → before j k ≡ true → before k j ≡ false
before-asym j k h = elim (Bool-cases (before k j)) [
  | inr e ↦ e
  | inl e ↦ absurd (clash (sym (before_trans j k j h e) ∙ before_irrefl j))
]
  where
    clash : true ≡ false → ⊥
    clash q = ground (arith, q)

-- A key behind all the others is added at the end.
upsert-end :
    (k : Bytes) (v d : Entry) (f : Entry → Entry) (acc m : Map Entry)
    → IsSorted (acc ++ (k, v) ∷ m)
    → upsert k d f acc ≡ acc ++ (k, f d) ∷ []
upsert-end k v d f [] m h = unfold upsert in refl
upsert-end k v d f ((j, w) ∷ acc) m (p, h) =
    let first = IsBehind-mid j k v acc m p in
    upsert-past k j d w f acc (same-sym k j ∙ before-differ j k first) (before-asym j k first)
    ∙ ap (λ r. (j, w) ∷ r) (upsert-end k v d f acc m h)

insert_ranges-all : (s : ReadSet) (rs : List Range) → insert_ranges s rs ≡ insert_all s rs
unfolding insert_all
insert_ranges-all s [] = refl
insert_ranges-all s ((l, h) ∷ rs) = insert_ranges-all (insert_range s l h) rs

-- Merging into a new entry gives the entry that was printed.
merge-default : (e : Entry) → IsValid e.read → merge_entry e.read e.subscribed default_entry ≡ e
merge-default e v =
    ap (λ r. let x : Entry = record { read = r; subscribed = e.subscribed } in x)
      (insert_ranges-all empty e.read.ranges ∙ insert_all-ranges e.read v)

print_entry-silent : (g : Bytes) (e : Entry) → is_silent e ≡ true → print_entry g e ≡ []
unfolding print_entry
print_entry-silent g e h = rw h refl

print_entry-loud :
    (g : Bytes) (e : Entry)
    → is_silent e ≡ false
    → print_entry g e
      ≡ g ++ (separator_of e.subscribed ∷ b' ' ∷ (Newsrc.print e.read ++ b'\n' ∷ []))
unfolding print_entry
print_entry-loud g e h = rw h refl

print_entry-append :
    (g t : Bytes) (e : Entry)
    → is_silent e ≡ false
    → print_entry g e ++ t ≡ line_of g e.subscribed e.read ++ b'\n' ∷ t
unfolding print_entry
print_entry-append g t e loud = rw loud (
    append_assoc g _ t
    ∙ ap (λ r. g ++ (separator_of e.subscribed ∷ b' ' ∷ r))
        (append_assoc (Newsrc.print e.read) (b'\n' ∷ []) t)
    ∙ sym (append_assoc g (separator_of e.subscribed ∷ b' ' ∷ Newsrc.print e.read) (b'\n' ∷ t)))

-- A store that is being loaded, with no problem so far
abbrev so_far : Bytes → Map Entry → Loading
so_far path acc = (record { path = path; groups = acc; dirty = false }, [])

load_line-entry :
    (path : Bytes) (acc m : Map Entry) (i : ℕ) (g : Bytes) (e : Entry)
    → IsSorted (acc ++ (g, e) ∷ m)
    → IsNameable g
    → IsValid e.read
    → load_line (so_far path acc) i (trim (line_of g e.subscribed e.read))
      ≡ so_far path (acc ++ (g, e) ∷ [])
unfolding load_group
load_line-entry path acc m i g e h named v =
    load_line-line_of (so_far path acc) i g e.subscribed e.read named v
    ∙ ap (so_far path) (
        upsert-end g e default_entry (merge_entry e.read e.subscribed) acc m h
        ∙ ap (λ x. acc ++ (g, x) ∷ []) (merge-default e v))

load_lines-print :
    (path : Bytes) (acc m : Map Entry) (i : ℕ)
    → IsSorted (acc ++ m)
    → Named m
    → Values (λ e. IsValid e.read) m
    → load_lines (so_far path acc) i (lines (print_groups m)) ≡ so_far path (acc ++ kept m)
unfolding load_lines print_groups kept
load_lines-print path acc [] i h named v = unfold lines in ap (so_far path) (sym (append-nil acc))
load_lines-print path acc ((g, e) ∷ m) i h (named, names) (v, vs) =
    elim (Bool-cases (is_silent e)) [
      | inl silent ↦
          ap (λ t. load_lines (so_far path acc) i (lines (t ++ print_groups m)))
            (print_entry-silent g e silent)
          ∙ load_lines-print path acc m i (IsSorted-drop g e acc m h) names vs
          ∙ ap (λ b. so_far path (acc ++ (if b then kept m else (g, e) ∷ kept m))) (sym silent)
      | inr loud ↦
          ap (λ t. load_lines (so_far path acc) i (lines t))
            (print_entry-append g (print_groups m) e loud)
          ∙ ap (load_lines (so_far path acc) i)
              (lines-line_of g (print_groups m) e.subscribed e.read named)
          ∙ ap (λ l. load_lines l (i + 1) (lines (print_groups m)))
              (load_line-entry path acc m i g e h named v)
          ∙ load_lines-print path (acc ++ (g, e) ∷ []) m (i + 1)
              (subst IsSorted (sym (append_assoc acc ((g, e) ∷ []) m)) h) names vs
          ∙ ap (so_far path) (append_assoc acc ((g, e) ∷ []) (kept m))
          ∙ ap (λ b. so_far path (acc ++ (if b then kept m else (g, e) ∷ kept m))) (sym loud)
    ]

-- What is left out says nothing about any group.
silent-empty : (e : Entry) → is_silent e ≡ true → e.read ≡ empty
unfolding is_empty
silent-empty e h = no_ranges e.read.ranges h
  where
    no_ranges :
        (rs : List Range)
        → (elim rs as (λ x. Bool) [ [] ↦ true | r ∷ t ↦ false ]) && e.subscribed ≡ true
        → ◌≡◌ {A = ReadSet} (record { ranges = rs }) empty
    no_ranges [] q = refl
    no_ranges (r ∷ t) q = cc

read_of_if :
    (b : Bool) (x y : Option Entry)
    → read_of (if b then x else y) ≡ (if b then read_of x else read_of y)
read_of_if true x y = refl
read_of_if false x y = refl

read_of-lookup :
    (k g : Bytes) (e : Entry) (m : Map Entry)
    → read_of (lookup k ((g, e) ∷ m)) ≡ (if same k g then e.read else read_of (lookup k m))
read_of-lookup k g e m =
    ap read_of (lookup-cons k g e m) ∙ read_of_if (same k g) (some e) (lookup k m)

lookup-kept :
    (k : Bytes) (m : Map Entry) → IsSorted m → read_of (lookup k (kept m)) ≡ read_of (lookup k m)
unfolding kept
lookup-kept k [] h = refl
lookup-kept k ((g, e) ∷ m) (p, h) = elim (Bool-cases (is_silent e)) [
  | inl silent ↦
      rw silent
        (lookup-kept k m h ∙ dropped (Bool-cases (same k g)) silent ∙ sym (read_of-lookup k g e m))
  | inr loud ↦ rw loud (
      read_of-lookup k g e (kept m)
      ∙ ap (λ r. if same k g then e.read else r) (lookup-kept k m h)
      ∙ sym (read_of-lookup k g e m))
]
  where
    dropped :
        (same k g ≡ true) ⊎ (same k g ≡ false)
        → is_silent e ≡ true
        → read_of (lookup k m) ≡ (if same k g then e.read else read_of (lookup k m))
    dropped (inr t) silent = rw t refl
    dropped (inl t) silent =
        rw (t, silent-empty e silent)
          (ap read_of (ap (λ j. lookup j m) (same-eq k g t) ∙ lookup-IsBehind g m p))

print_groups-All : (m : Map Entry) → Named m → All IsChar (print_groups m)
unfolding print_groups
print_groups-All [] named = tt
print_groups-All ((g, e) ∷ m) (named, names) =
    All-append IsChar (print_entry g e) (print_groups m) (entry_chars (Bool-cases (is_silent e)))
      (print_groups-All m names)
  where
    digit_char : (c : ℕ) → IsDigit c → IsChar c
    digit_char c d = (ground (arith, d.1), omega (arith, d.1))

    separator_char : (b : Bool) → IsChar (separator_of b)
    separator_char true = (refl, omega arith)
    separator_char false = (refl, omega arith)

    entry_chars : (is_silent e ≡ true) ⊎ (is_silent e ≡ false) → All IsChar (print_entry g e)
    entry_chars (inl silent) = rw (print_entry-silent g e silent) tt
    entry_chars (inr loud) = rw (print_entry-loud g e loud) (
        All-append IsChar g _ named.chars (
          separator_char e.subscribed,
          (
            (refl, omega arith),
            All-append IsChar (Newsrc.print e.read) (b'\n' ∷ [])
                (print-All IsChar e.read digit_char (refl, omega arith) (refl, omega arith))
                ((refl, omega arith), tt),
          ),
        ))

-- If a store is well-formed, has groups whose names a line can carry (not empty, characters only, no
-- white space, no `:` or `!`, no `#` in front) and makes a file of at most 8 MiB, then the file that
-- it writes is read back without a problem: the store that is loaded holds exactly the groups that
-- were written, with their sets and flags, it is clean, and every group has the set that it had,
-- also those that were left out.
pub load-to_newsrc :
    (s : ReadStore) (path : Bytes)
    → IsWellFormed s
    → Named s.groups
    → length (utf8 (to_newsrc s)) ≤ max_store_bytes
    → (load path (size (length (utf8 (to_newsrc s)))) (octets (utf8 (to_newsrc s)))
        ≡ (record { path = path; groups = kept s.groups; dirty = false }, []))
      × ((g : Bytes) → read_of (lookup g (kept s.groups)) ≡ read_set s g)
unfolding load load_contents to_newsrc empty_store read_set
load-to_newsrc s path w named fits =
    let within : ltb max_store_bytes (length (utf8 (print_groups s.groups))) ≡ false =
      ground (arith, fits) in
    (
      rw within (
          ap (λ t. load_lines (so_far path []) 0 (lines t))
            (lossy-utf8 (print_groups s.groups) (print_groups-All s.groups named))
          ∙ load_lines-print path [] s.groups 0 w.sorted named w.valid),
      λ g. lookup-kept g s.groups w.sorted,
    )
