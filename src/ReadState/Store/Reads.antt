-- ===== src/ReadState/Store/Reads.antt =====
-- What the operations of crates/nntp-tui/src/readstate/store.rs do to the sets of the groups.
use rust_nntp.Prelude.SortedMap.Laws.{
  IsSorted, Values, upsert-IsSorted, upsert-Values, lookup-upsert, lookup-Values,
}
use rust_nntp.Prelude.SortedMap.{same, lookup, get_or}
use rust_nntp.Prelude.Text.{Bytes}
use rust_nntp.Prelude.{
  ℕ, zero, suc, ◌+◌, ◌≤◌, ◌<◌, Bool, true, false, Option, none, some, ◌≡◌, refl, ap, sym, ◌∙◌,
  arith, ltb, ◌==◌, if◌then◌else◌, Bool-cases, inl, inr, u64_max,
}
use rust_nntp.ReadState.Set.Canonical.{members-ext}
use rust_nntp.ReadState.Set.Counts.{tally, count-tally}
use rust_nntp.ReadState.Set.Sorted.{IsValid, members, covers_below, covers_above}
use rust_nntp.ReadState.Set.{ReadSet, count}
use rust_nntp.ReadState.Store.{Entry, ReadStore, new_entry, read_of, read_set, edit}

-- The groups are in order, and every set is valid.
pub record IsWellFormed (s : ReadStore) : Type 0 where
  pub sorted : IsSorted s.groups
  pub valid : Values (λ e. IsValid e.read) s.groups

read_of_if :
    (b : Bool) (x y : Option Entry)
    → read_of (if b then x else y) ≡ (if b then read_of x else read_of y)
read_of_if true x y = refl
read_of_if false x y = refl

read_of_new : (o : Option Entry) → (get_or new_entry o).read ≡ read_of o
read_of_new none = refl
read_of_new (some e) = refl

pub read_set-edit :
    (group g : Bytes) (f : ReadSet → ReadSet) (s : ReadStore)
    → IsWellFormed s
    → read_set (edit group f s) g ≡ (if same g group then f (read_set s group) else read_set s g)
unfolding read_set edit
read_set-edit group g f s w =
    ap read_of
      (lookup-upsert g group new_entry (λ e. record e { read = f e.read }) s.groups w.sorted)
    ∙ read_of_if (same g group) _ (lookup g s.groups)
    ∙ ap (λ r. if same g group then f r else read_of (lookup g s.groups))
        (read_of_new (lookup group s.groups))

pub edit-IsWellFormed :
    (group : Bytes) (f : ReadSet → ReadSet) (s : ReadStore)
    → ((r : ReadSet) → IsValid r → IsValid (f r))
    → IsWellFormed s
    → IsWellFormed (edit group f s)
unfolding edit
edit-IsWellFormed group f s keep w = record {
  sorted = upsert-IsSorted group new_entry (λ e. record e { read = f e.read }) s.groups w.sorted;
  valid =
      upsert-Values (λ e. IsValid e.read) group new_entry (λ e. record e { read = f e.read })
        s.groups tt (λ e v. keep e.read v) w.valid;
}

read_of-IsValid : (o : Option Entry) → IsValid (get_or new_entry o).read → IsValid (read_of o)
read_of-IsValid none h = tt
read_of-IsValid (some e) h = h

pub read_set-IsValid : (s : ReadStore) (g : Bytes) → IsWellFormed s → IsValid (read_set s g)
unfolding read_set
read_set-IsValid s g w =
    read_of-IsValid (lookup g s.groups)
      (lookup-Values (λ e. IsValid e.read) g new_entry s.groups tt w.valid)

-- Sets of which one holds the other and that are counted alike are the same.
tally-sub :
    (p q : ℕ → Bool) (low n : ℕ)
    → ((k : ℕ) → p k ≡ true → q k ≡ true)
    → tally p low n ≤ tally q low n
unfolding tally
tally-sub p q low zero h = omega arith
tally-sub p q low (suc n) h = ground (arith, h (low + n), tally-sub p q low n h)

tally-tight :
    (p q : ℕ → Bool) (low n i : ℕ)
    → ((k : ℕ) → p k ≡ true → q k ≡ true)
    → tally p low n ≡ tally q low n
    → i < n
    → p (low + i) ≡ q (low + i)
unfolding tally
tally-tight p q low zero i h e less = absurd (omega (arith, less))
tally-tight p q low (suc n) i h e less =
    let rest = tally-sub p q low n h in
    elim (Bool-cases (i == n)) [
      | inl last ↦
          let at_end : i ≡ n = ground arith in rw at_end (ground (arith, h (low + n), rest, e))
      | inr inside ↦ tally-tight p q low n i h (ground (arith, h (low + n), rest, e)) (ground arith)
    ]

pub same_count-same :
    (s t : ReadSet)
    → IsValid s
    → IsValid t
    → ((n : ℕ) → members s n ≡ true → members t n ≡ true)
    → count s ≡ count t
    → s ≡ t
same_count-same s t v w sub e = members-ext s t v w pointwise
  where
    tallies : tally (members s) 1 u64_max ≡ tally (members t) 1 u64_max
    tallies = sym (count-tally s v) ∙ e ∙ count-tally t w

    pointwise : (n : ℕ) → members s n ≡ members t n
    pointwise zero =
        covers_below 1 0 s.ranges v (omega arith) ∙ sym (covers_below 1 0 t.ranges w (omega arith))
    pointwise (suc n) = elim (Bool-cases (ltb u64_max (suc n))) [
      | inl high ↦
          covers_above 1 (suc n) s.ranges v (ground arith)
          ∙ sym (covers_above 1 (suc n) t.ranges w (ground arith))
      | inr inside ↦
          let step : 1 + n ≡ suc n = omega arith in
          rw (← step) (tally-tight (members s) (members t) 1 u64_max n sub tallies (ground arith))
    ]
