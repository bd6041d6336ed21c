-- ===== src/Proto/Thread/Grouped.antt =====
-- `group_by_subject` of crates/nntp-proto/src/thread.rs loses no root.
use mathlib.Core.Option.{none-ne-some, some-injective}
use rust_nntp.Prelude.SortedMap.Laws.{lookup-cons}
use rust_nntp.Prelude.SortedMap.Order.{same_refl}
use rust_nntp.Prelude.SortedMap.{lookup, same}
use rust_nntp.Prelude.Text.{Bytes}
use rust_nntp.Prelude.{
  ℕ, ◌+◌, ◌≤◌, ◌<◌, Bool, true, false, not, ◌&&◌, Option, none, some, List, [], ◌∷◌, ◌≡◌, ◌≢◌, refl,
  sym, ap, ◌∙◌, arith, ◌==◌, if◌then◌else◌, length, any, Bool-cases, inl, inr,
}
use rust_nntp.Proto.Subject.{normalise_subject}
use rust_nntp.Proto.Thread.Forest.{IsForest, times_in}
use rust_nntp.Proto.Thread.Grouping.{IsGrouping, skip-IsGrouping, hold-IsGrouping, merge-IsGrouping}
use rust_nntp.Proto.Thread.Roots.{
  Grouping, filter, merge, take_over, join, group_held, group_subject, group_record, group_loop,
  group_by_subject, record_at, reply_in, first_article, key_leb,
}
use rust_nntp.Proto.Thread.{OverviewRecord, Arena, is_some, parent_of}

module _ (a0 : Arena) (n : ℕ) (all_ids : List ℕ) (records : List OverviewRecord) where
  merge_next-IsGrouping :
      (subject : Bytes) (id holder : ℕ) (ids : List ℕ) (g : Grouping)
      → lookup subject g.holders ≡ some holder
      → IsGrouping a0 n all_ids (id ∷ ids) g
      → IsGrouping a0 n all_ids ids (merge id holder g)
  merge_next-IsGrouping subject id holder ids g e w =
      let (inside, top) = w.waiting id (ground arith) in
      let (within, free, gone, holder_among) = w.held subject holder e in
      merge-IsGrouping a0 n all_ids id holder ids g inside within (λ q. ground (arith, q, gone)) top
        free (ground (arith, w.once id)) (w.among id (ground arith)) holder_among unheld
        (skip-IsGrouping a0 n all_ids id ids g w)
    where
      unheld : (s : Bytes) → lookup s g.holders ≢ some id
      unheld s d = let (a, b, c, _) = w.held s id d in absurd (ground (arith, c))

  take_over-IsGrouping :
      (subject : Bytes) (id holder : ℕ) (ids : List ℕ) (g : Grouping)
      → lookup subject g.holders ≡ some holder
      → IsGrouping a0 n all_ids (id ∷ ids) g
      → IsGrouping a0 n all_ids ids (take_over subject id holder g)
  unfolding take_over
  take_over-IsGrouping subject id holder ids g e w =
      let (inside, top) = w.waiting id (ground arith) in
      let (within, free, gone, holder_among) = w.held subject holder e in
      merge-IsGrouping a0 n all_ids holder id ids (record g { holders = (subject, id) ∷ g.holders })
        within inside (λ q. ground (arith, q, gone)) free top (omega (arith, gone)) holder_among
        (w.among id (ground arith)) unheld (hold-IsGrouping a0 n all_ids subject id ids g w)
    where
      apart : id ≡ holder → ⊥
      apart q = let (a, b, c, d) = w.held subject holder e in ground (arith, q, c)

      by_test :
          (s : Bytes) (b : Bool)
          → same s subject ≡ b
          → (if b then some id else lookup s g.holders) ≡ some holder
          → ⊥
      by_test s true t d = apart (some-injective id holder d)
      by_test s false t d = ground (
        arith,
        sym t ∙ ap (λ x. same x subject) (w.one_subject s subject holder d e) ∙ same_refl subject,
      )

      unheld : (s : Bytes) → lookup s ((subject, id) ∷ g.holders) ≢ some holder
      unheld s d =
          absurd (by_test s (same s subject) refl (sym (lookup-cons s subject id g.holders) ∙ d))

  join-IsGrouping :
      (subject : Bytes) (is_reply : Bool) (id holder : ℕ) (ids : List ℕ) (g : Grouping)
      → lookup subject g.holders ≡ some holder
      → IsGrouping a0 n all_ids (id ∷ ids) g
      → IsGrouping a0 n all_ids ids (join records subject is_reply id holder g)
  unfolding join
  join-IsGrouping subject is_reply id holder ids g e w =
      pick (is_reply && not (reply_in (record_at records (first_article g.arena holder))))
        (reply_in (record_at records (first_article g.arena holder)) && not is_reply)
        (key_leb (first_article g.arena holder) (first_article g.arena id))
    where
      pick :
          (b c d : Bool)
          → IsGrouping a0 n all_ids ids (
              if b
              then merge id holder g
              else if c
              then take_over subject id holder g
              else if d
              then merge id holder g
              else take_over subject id holder g)
      pick true c d = merge_next-IsGrouping subject id holder ids g e w
      pick false true d = take_over-IsGrouping subject id holder ids g e w
      pick false false true = merge_next-IsGrouping subject id holder ids g e w
      pick false false false = take_over-IsGrouping subject id holder ids g e w

  group_subject-IsGrouping :
      (subject : Bytes) (is_reply : Bool) (id : ℕ) (ids : List ℕ) (g : Grouping)
      → IsGrouping a0 n all_ids (id ∷ ids) g
      → IsGrouping a0 n all_ids ids (group_subject records subject is_reply id g)
  unfolding group_subject group_held
  group_subject-IsGrouping [] is_reply id ids g w = skip-IsGrouping a0 n all_ids id ids g w
  group_subject-IsGrouping (c ∷ s) is_reply id ids g w = by_holder (lookup (c ∷ s) g.holders) refl
    where
      by_holder :
          (o : Option ℕ)
          → lookup (c ∷ s) g.holders ≡ o
          → IsGrouping a0 n all_ids ids (group_held records (c ∷ s) is_reply id o g)
      by_holder none e = hold-IsGrouping a0 n all_ids (c ∷ s) id ids g w
      by_holder (some holder) e = elim (Bool-cases (holder == id)) [
        | inl t ↦ rw t (skip-IsGrouping a0 n all_ids id ids g w)
        | inr t ↦ rw t (join-IsGrouping (c ∷ s) is_reply id holder ids g e w)
      ]

  group_loop-IsGrouping :
      (ids : List ℕ) (g : Grouping)
      → IsGrouping a0 n all_ids ids g
      → IsGrouping a0 n all_ids [] (group_loop records ids g)
  unfolding group_loop group_record
  group_loop-IsGrouping [] g w = w
  group_loop-IsGrouping (id ∷ ids) g w =
      group_loop-IsGrouping ids
        (group_record records id (record_at records (first_article g.arena id)) g)
        (by_record (record_at records (first_article g.arena id)))
    where
      by_record :
          (o : Option OverviewRecord) → IsGrouping a0 n all_ids ids (group_record records id o g)
      by_record none = skip-IsGrouping a0 n all_ids id ids g w
      by_record (some overview) =
          group_subject-IsGrouping (normalise_subject overview.subject).0
            (normalise_subject overview.subject).1 id ids g w

pub times_in-filter :
    (keep : ℕ → Bool) (i : ℕ) (xs : List ℕ)
    → times_in i (filter keep xs) ≡ (if keep i then times_in i xs else 0)
times_in-filter keep i [] = ground arith
times_in-filter keep i (x ∷ xs) = elim (Bool-cases (keep x)) [
  | inl k ↦ rw k (elim (Bool-cases (x == i)) [
    | inl t ↦
        let alike : keep i ≡ true = ap keep (sym (same_number t)) ∙ k in
        rw alike (ground (arith, t, rw alike at (times_in-filter keep i xs)))
    | inr t ↦ rw t (shift (keep i) (times_in-filter keep i xs))
  ])
  | inr k ↦ rw k (
      times_in-filter keep i xs ∙ (elim (Bool-cases (x == i)) [
        | inl t ↦ let alike : keep i ≡ false = ap keep (sym (same_number t)) ∙ k in rw alike refl
        | inr t ↦ rw t (grow (keep i))
      ]))
]
  where
    same_number : x == i ≡ true → x ≡ i
    same_number t = ground (arith, t)

    grow : (b : Bool) → (if b then times_in i xs else 0) ≡ (if b then 0 + times_in i xs else 0)
    grow true = omega arith
    grow false = refl

    shift :
        (b : Bool) {m : ℕ}
        → m ≡ (if b then times_in i xs else 0)
        → 0 + m ≡ (if b then 0 + times_in i xs else 0)
    shift true e = omega (arith, e)
    shift false e = omega (arith, e)

-- The roots of an arena: in it, without a parent, and none twice.
abbrev pub AreRoots : Arena → List ℕ → Type 0
AreRoots a ids =
    (i : ℕ)
    → (times_in i ids ≤ 1)
      × (0 < times_in i ids → (i < length a.containers) × (parent_of a i ≡ none))

abbrev pub ungrouped : Arena → Grouping
ungrouped a = record { arena = a; holders = []; merged = [] }

-- The loop of `group_by_subject`, from its start to its end.
pub ungrouped-IsGrouping :
    (records : List OverviewRecord) (a : Arena) (ids : List ℕ)
    → IsForest a
    → AreRoots a ids
    → IsGrouping a (length a.containers) ids [] (group_loop records ids (ungrouped a))
ungrouped-IsGrouping records a ids f r =
    group_loop-IsGrouping a (length a.containers) ids records ids (ungrouped a) (record {
      forest = f;
      size = refl;
      held = λ s h e. absurd (unfold lookup in ground (arith, e));
      one_subject = λ s t h e d. absurd (unfold lookup in ground (arith, e));
      waiting = λ i p. (r i).1 p;
      once = λ i. (r i).0;
      among = λ i p. p;
      parents = λ i p q e. absurd (none-ne-some p (sym ((r i).1 q).1 ∙ e));
      others = λ i q. refl;
      articles = λ i. refl;
      merged_ones = λ i p. let (inside, top) = (r i).1 p in rw top refl;
    })

-- Grouping the roots of a forest by their subjects gives a forest, and of each root that was given
-- exactly one holds: it is still in the list, or it has become the child of a container.
pub group_by_subject-AreRoots :
    (records : List OverviewRecord) (a : Arena) (ids : List ℕ)
    → IsForest a
    → AreRoots a ids
    → IsForest (group_by_subject records a ids).0
      × ((i : ℕ)
          → 0 < times_in i ids
          → times_in i (group_by_subject records a ids).1
            ≡ (if is_some (parent_of (group_by_subject records a ids).0 i) then 0 else 1))
unfolding group_by_subject
group_by_subject-AreRoots records a ids f r =
    let done = ungrouped-IsGrouping records a ids f r in
    (
      done.forest,
      λ i p.
          times_in-filter _ i ids
          ∙ left i p (any (λ m. m == i) (group_loop records ids (ungrouped a)).merged)
              (done.merged_ones i p),
    )
  where
    left :
        (i : ℕ)
        → 0 < times_in i ids
        → (b : Bool) {c : Bool} → b ≡ c
        → (if not b then times_in i ids else 0) ≡ (if c then 0 else 1)
    left i p true e = rw (← e) refl
    left i p false e = rw (← e) (omega (arith, p, (r i).0))
