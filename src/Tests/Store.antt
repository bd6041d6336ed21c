-- ===== src/Tests/Store.antt =====
-- Runs and instances for crates/nntp-tui/src/readstate/store.rs.
use rust_nntp.Prelude.Decimal.{to_string, emit}
use rust_nntp.ReadState.Set.Newsrc.{print, print_from, print_range}
use rust_nntp.ReadState.Set.{is_empty}
use rust_nntp.ReadState.Store.{print_groups, print_entry}
use rust_nntp.Prelude.SortedMap.{before}
use rust_nntp.Prelude.SortedMap.{lookup}
use rust_nntp.Prelude.Text.{Bytes, codes}
use rust_nntp.Prelude.{
  ℕ, ◌≤◌, Bool, true, false, not, some, [], ◌∷◌, ◌++◌, ◌≡◌, ◌≢◌, ◌⊎◌, ◌==◌, refl, arith, length,
  if◌then◌else◌, All,
}
use rust_nntp.ReadState.Set.Sorted.{members}
use rust_nntp.ReadState.Store.Expiry.{forget_expired-dirty}
use rust_nntp.ReadState.Store.File.Laws.{
  file_name_for_lem, IsSafe, save-load, IsStorable, ReadsAs, Succeeds, Fails,
}
use rust_nntp.ReadState.Store.File.{Directory, no_rename, save, save_calls, file_name_for}
use rust_nntp.ReadState.Store.Lines.{IsNameable, line_of, split_line-colon}
use rust_nntp.ReadState.Store.Reached.{
  read_one, expire, perform, is_read_after, here, next, members-perform, loaded-IsWellFormed,
}
use rust_nntp.ReadState.Store.Reads.{IsWellFormed}
use rust_nntp.ReadState.Store.RoundTrip.{Named, kept, load-to_newsrc}
use rust_nntp.Prelude.Text.{is_whitespace, trim}
use rust_nntp.Proto.Utf8.{utf8, encode_char}
use rust_nntp.Prelude.SortedMap.{same}
use rust_nntp.ReadState.Store.{
  ReadStore, load, size, octets, read_set, read_of, to_newsrc, forget_expired, max_store_bytes,
  split_line,
}

abbrev store : ReadStore
store = record {
  path = codes "x";
  groups =
      (codes "a.b", record { read = record { ranges = (2, 4) ∷ (9, 9) ∷ [] }; subscribed = true })
      ∷ (codes "c", record { read = record { ranges = [] }; subscribed = false })
      ∷ [];
  dirty = false;
}

store-IsWellFormed : IsWellFormed store
unfolding before
store-IsWellFormed = record { sorted = ((refl, tt), (tt, tt)); valid = (omega arith, (tt, tt)) }

not_hash :
    (g s : Bytes)
    → (elim g as (λ x. Bool) [ [] ↦ true | c ∷ t ↦ not (c == b'#') ]) ≡ true
    → g ≢ b'#' ∷ s
not_hash [] s h e = absurd (ground (arith, e))
not_hash (c ∷ g) s h e = absurd (ground (arith, h, e))

filled : (c : ℕ) (g : Bytes) → c ∷ g ≢ []
filled c g e = absurd (ground (arith, e))

ab-IsNameable : IsNameable (codes "a.b")
unfolding is_whitespace
ab-IsNameable = record {
  filled = filled b'a' (codes ".b");
  chars = ((refl, omega arith), ((refl, omega arith), ((refl, omega arith), tt)));
  solid = (refl, (refl, (refl, tt)));
  plain = (refl, (refl, (refl, tt)));
  no_comment = λ s. not_hash (codes "a.b") s refl;
}

c-IsNameable : IsNameable (codes "c")
unfolding is_whitespace
c-IsNameable = record {
  filled = filled b'c' [];
  chars = ((refl, omega arith), tt);
  solid = (refl, tt);
  plain = (refl, tt);
  no_comment = λ s. not_hash (codes "c") s refl;
}

store_named : Named store.groups
store_named = (ab-IsNameable, (c-IsNameable, tt))

newsrc_run : to_newsrc store ≡ codes "a.b: 2-4,9\nc! \n"
unfolding to_newsrc print_groups print_entry is_empty print print_from print_range to_string emit
newsrc_run = refl

store_fits : length (utf8 (to_newsrc store)) ≤ max_store_bytes
store_fits = rw newsrc_run (unfold utf8 encode_char in omega arith)

load-to_newsrc_example :
    (load (codes "y") (size (length (utf8 (to_newsrc store)))) (octets (utf8 (to_newsrc store)))
      ≡ (record { path = codes "y"; groups = kept store.groups; dirty = false }, []))
    × ((g : Bytes) → read_of (lookup g (kept store.groups)) ≡ read_set store g)
load-to_newsrc_example = load-to_newsrc store (codes "y") store-IsWellFormed store_named store_fits

store-IsStorable : IsStorable store
store-IsStorable = record {
  well_formed = store-IsWellFormed;
  named = store_named;
  fits = store_fits;
}

old-IsStorable : IsStorable (record { path = codes "x"; groups = []; dirty = false })
old-IsStorable = record {
  well_formed = record { sorted = tt; valid = tt };
  named = tt;
  fits = unfold to_newsrc print_groups utf8 in omega arith;
}

abbrev old_directory : Directory
old_directory = record { file = some []; temporary = some (codes "left") }

old_file :
    old_directory.file
    ≡ some (utf8 (to_newsrc (record { path = codes "x"; groups = []; dirty = false })))
unfolding utf8 to_newsrc print_groups
old_file = refl

save-load_example :
    All
      (λ e.
        ReadsAs (codes "x") (record { path = codes "x"; groups = []; dirty = false }) e.file
        ⊎ ReadsAs (codes "x") store e.file)
      (save_calls (some no_rename) (utf8 (to_newsrc store)) old_directory)
    × (Succeeds (codes "x") store (save (some no_rename) store old_directory)
        ⊎ Fails
            (codes "x")
            (record { path = codes "x"; groups = []; dirty = false })
            store
            (save (some no_rename) store old_directory))
save-load_example =
    save-load (codes "x") (some no_rename) (record { path = codes "x"; groups = []; dirty = false })
      store old_directory old-IsStorable store-IsStorable old_file

file_name_for_example :
    (c : ℕ) × (s : Bytes) × (file_name_for (codes "../Up") ≡ c ∷ (s ++ codes ".newsrc"))
    × (c ≢ b'.')
    × IsSafe c
    × All IsSafe s
file_name_for_example = file_name_for_lem (codes "../Up")

forget_expired-dirty_example :
    ((forget_expired (codes "a.b") 3 store).dirty ≡ false
      → forget_expired (codes "a.b") 3 store ≡ store)
    × (read_set (forget_expired (codes "a.b") 3 store) (codes "a.b") ≡ read_set store (codes "a.b")
        → (forget_expired (codes "a.b") 3 store).dirty ≡ store.dirty)
forget_expired-dirty_example =
    forget_expired-dirty (codes "a.b") 3 store store-IsWellFormed (omega arith)

members-perform_example :
    members (read_set (perform (read_one (codes "a.b") 7) store) (codes "c")) 7 ≡ (
      if same (codes "c") (codes "a.b")
      then is_read_after (read_one (codes "a.b") 7) 7 (members (read_set store (codes "a.b")) 7)
      else members (read_set store (codes "c")) 7)
members-perform_example =
    members-perform (read_one (codes "a.b") 7) store (codes "c") 7 (omega arith) store-IsWellFormed

loaded-IsWellFormed_example : IsWellFormed (
    perform
      (expire (codes "a.b") 3)
      (load (codes "x") (size 40) (octets (codes "# mine\n\na.b: 2-4,9\nnonsense\nc! \n"))).0)
loaded-IsWellFormed_example =
    loaded-IsWellFormed (codes "x") (size 40)
      (octets (codes "# mine\n\na.b: 2-4,9\nnonsense\nc! \n")) _
      (next here (expire (codes "a.b") 3) (omega arith))

split_line-colon_example :
    (t : Bytes) × (split_line
        (trim (line_of (codes "a.b" ++ b':' ∷ codes "d") true (record { ranges = (2, 4) ∷ [] })))
      ≡ some (codes "a.b", true, t))
unfolding is_whitespace
split_line-colon_example =
    split_line-colon (codes "a.b") (codes "d") true (record { ranges = (2, 4) ∷ [] }) ab-IsNameable
      (refl, tt)
