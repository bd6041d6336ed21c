-- ===== src/ReadState/Store/File/Laws.antt =====
-- What crates/nntp-tui/src/readstate/store.rs promises of its file: the name is safe, and a save
-- that fails or is cut short leaves the old state or the new one.
use rust_nntp.Prelude.Text.{Bytes, codes, to_lower, trim}
use rust_nntp.Prelude.{
  ℕ, ◌≤◌, true, false, Option, none, some, [], ◌∷◌, ◌++◌, ◌≡◌, ◌≢◌, ◌⊎◌, inl, inr, refl, ap, sym,
  ◌∙◌, arith, ◌==◌, Bool-cases, All, all, map, length,
}
use mathlib.Core.Option.{none-ne-some}
use rust_nntp.Proto.Utf8.{utf8}
use rust_nntp.ReadState.Store.File.{
  is_safe, safe_char, drop_dots, or_unknown, file_name_for, Directory, Fault, no_parent,
  no_directory, no_rename, no_write, save_calls, Saved, save, load_file,
}
use rust_nntp.ReadState.Store.Reads.{IsWellFormed}
use rust_nntp.ReadState.Store.RoundTrip.{Named, kept, load-to_newsrc}
use rust_nntp.ReadState.Store.{ReadStore, to_newsrc, max_store_bytes}

abbrev pub IsSafe : ℕ → Type 0
IsSafe c = is_safe c ≡ true

safe_char-IsSafe : (c : ℕ) → IsSafe (safe_char c)
unfolding safe_char is_safe
safe_char-IsSafe c = ground arith

map-IsSafe : (s : Bytes) → All IsSafe (map safe_char s)
map-IsSafe [] = tt
map-IsSafe (c ∷ s) = (safe_char-IsSafe c, map-IsSafe s)

drop_dots-IsSafe : (s : Bytes) → All IsSafe s → All IsSafe (drop_dots s)
unfolding drop_dots
drop_dots-IsSafe [] h = tt
drop_dots-IsSafe (c ∷ s) (hc, h) = elim (Bool-cases (c == b'.')) [
  | inl e ↦ rw e (drop_dots-IsSafe s h)
  | inr e ↦ rw e (hc, h)
]

drop_dots-first : (s t : Bytes) → drop_dots s ≢ b'.' ∷ t
unfolding drop_dots
drop_dots-first [] t e = absurd (ground (arith, e))
drop_dots-first (c ∷ s) t e = elim (Bool-cases (c == b'.')) [
  | inl dot ↦ drop_dots-first s t (rw dot at e)
  | inr other ↦ absurd (ground (arith, rw other at e, other))
]

all-IsSafe : (s : Bytes) → all is_safe s ≡ true → All IsSafe s
all-IsSafe [] e = tt
all-IsSafe (c ∷ s) e = (ground arith, all-IsSafe s (ground arith))

-- Whatever the name of the server is, the name of its file is `.newsrc` behind a part that is not
-- empty, does not start with a dot, and has only lower-case letters, digits, dots, dashes and
-- underscores; so it has no separator of a path, and is neither `.` nor `..`.
pub file_name_for_lem :
    (server : Bytes)
    → (c : ℕ) × (s : Bytes) × (file_name_for server ≡ c ∷ (s ++ codes ".newsrc"))
      × (c ≢ b'.')
      × IsSafe c
      × All IsSafe s
unfolding file_name_for is_safe
file_name_for_lem server =
    named (drop_dots (map safe_char (map to_lower (trim server))))
      (drop_dots-IsSafe _ (map-IsSafe (map to_lower (trim server))))
      (drop_dots-first (map safe_char (map to_lower (trim server))))
  where
    named :
        (t : Bytes)
        → All IsSafe t
        → ((s : Bytes) → t ≢ b'.' ∷ s)
        → (c : ℕ) × (s : Bytes) × (or_unknown t ++ codes ".newsrc" ≡ c ∷ (s ++ codes ".newsrc"))
          × (c ≢ b'.')
          × IsSafe c
          × All IsSafe s
    named [] h first = (
      b'u',
      codes "nknown-server",
      refl,
      omega arith,
      refl,
      all-IsSafe (codes "nknown-server") refl,
    )
    named (c ∷ s) (hc, h) first = (c, s, refl, (λ e. first s (ap (λ x. x ∷ s) e)), hc, h)

-- The file is read back as the groups of the store.
abbrev pub ReadsAs : Bytes → ReadStore → Option Bytes → Type 0
ReadsAs path s file =
    load_file path file ≡ (record { path = path; groups = kept s.groups; dirty = false }, [])

abbrev pub Succeeds : Bytes → ReadStore → Saved → Type 0
Succeeds path new r =
    (r.failure ≡ none)
    × (r.store ≡ record new { dirty = false })
    × ReadsAs path new r.directory.file

abbrev pub Fails : Bytes → ReadStore → ReadStore → Saved → Type 0
Fails path old new r = (r.failure ≢ none) × (r.store ≡ new) × ReadsAs path old r.directory.file

-- A store whose file is read back, by `load-to_newsrc`.
pub record IsStorable (s : ReadStore) : Type 0 where
  pub well_formed : IsWellFormed s
  pub named : Named s.groups
  pub fits : length (utf8 (to_newsrc s)) ≤ max_store_bytes

some_fault : (f : Fault) → ◌≢◌ {A = Option Fault} (some f) none
some_fault f e = absurd (none-ne-some f (sym e))

reads_back :
    (path : Bytes) (s : ReadStore) → IsStorable s → ReadsAs path s (some (utf8 (to_newsrc s)))
unfolding load_file
reads_back path s h = (load-to_newsrc s path h.well_formed h.named h.fits).0

-- If the file holds an old store, and both stores are well-formed, have groups whose names a line can
-- carry (not empty, characters only, no white space, no `:` or `!`, no `#` in front) and make files
-- of at most 8 MiB, then whichever call of `save` fails, and after whichever call the program stops,
-- the file is read back as the old store or as the new one. A save that succeeds leaves the new one
-- and a store that is clean; one that fails leaves the old one and does not change the store.
pub save-load :
    (path : Bytes) (fault : Option Fault) (old new : ReadStore) (d : Directory)
    → IsStorable old
    → IsStorable new
    → d.file ≡ some (utf8 (to_newsrc old))
    → All
        (λ e. ReadsAs path old e.file ⊎ ReadsAs path new e.file)
        (save_calls fault (utf8 (to_newsrc new)) d)
      × (Succeeds path new (save fault new d) ⊎ Fails path old new (save fault new d))
unfolding save save_calls
save-load path none old new d ho hn at_file = (
  (inl (ap (load_file path) at_file ∙ reads_back path old ho), (inr (reads_back path new hn), tt)),
  inl (refl, refl, reads_back path new hn),
)
save-load path (some no_parent) old new d ho hn at_file =
    (tt, inr (some_fault no_parent, refl, ap (load_file path) at_file ∙ reads_back path old ho))
save-load path (some no_directory) old new d ho hn at_file =
    (tt, inr (some_fault no_directory, refl, ap (load_file path) at_file ∙ reads_back path old ho))
save-load path (some no_rename) old new d ho hn at_file =
    let before = ap (load_file path) at_file ∙ reads_back path old ho in
    ((inl before, tt), inr (some_fault no_rename, refl, before))
save-load path (some (no_write left)) old new d ho hn at_file =
    let before = ap (load_file path) at_file ∙ reads_back path old ho in
    ((inl before, tt), inr (some_fault (no_write left), refl, before))
