-- ===== src/Proto/Thread/Roots.antt =====
-- The roots of the arena of crates/nntp-proto/src/thread.rs, and `group_by_subject`.
use rust_nntp.Prelude.SortedMap.{Map, lookup}
use rust_nntp.Prelude.Text.{Bytes}
use rust_nntp.Prelude.{
  ℕ, zero, suc, ◌+◌, Bool, true, false, not, ◌&&◌, Option, none, some, List, [], ◌∷◌, ◌++◌, ◌==◌,
  leb, min, if◌then◌else◌, length, get_elem?, any,
}
use rust_nntp.Proto.Subject.{normalise_subject}
use rust_nntp.Proto.Thread.{
  OverviewRecord, Arena, is_some, article_of, parent_of, children_of, set_parent, linked,
}

-- `map_or(article, |found| found.min(article))`
unfoldable pub least : Option ℕ → Option ℕ → Option ℕ
least best none = best
least none (some article) = some article
least (some found) (some article) = some (min found article)

-- `extend`, for a stack whose top comes first
unfoldable pub push_all : List ℕ → List ℕ → List ℕ
push_all [] stack = stack
push_all (child ∷ children) stack = push_all children (child ∷ stack)

-- The walk of the subtree, with the steps that are left to it
unfoldable pub first_loop : ℕ → Arena → List ℕ → Option ℕ → Option ℕ
first_loop zero a stack best = best
first_loop (suc steps) a [] best = best
first_loop (suc steps) a (current ∷ stack) best =
    first_loop steps a (push_all (children_of a current) stack) (least best (article_of a current))

unfoldable pub first_article : Arena → ℕ → Option ℕ
first_article a id = first_loop (length a.containers + 1) a (id ∷ []) (article_of a id)

-- The order of `Option<usize>`
unfoldable pub key_leb : Option ℕ → Option ℕ → Bool
key_leb none k = true
key_leb (some i) none = false
key_leb (some i) (some j) = leb i j

-- `sort_by_key`, which is stable
unfoldable pub insert_by_key : (ℕ → Option ℕ) → ℕ → List ℕ → List ℕ
insert_by_key key x [] = x ∷ []
insert_by_key key x (y ∷ ys) =
    if key_leb (key x) (key y) then x ∷ y ∷ ys else y ∷ insert_by_key key x ys

unfoldable pub sort_by_key : (ℕ → Option ℕ) → List ℕ → List ℕ
sort_by_key key [] = []
sort_by_key key (x ∷ xs) = insert_by_key key x (sort_by_key key xs)

abbrev pub filter : (ℕ → Bool) → List ℕ → List ℕ
filter keep [] = []
filter keep (x ∷ xs) = if keep x then x ∷ filter keep xs else filter keep xs

-- The numbers from `low` on
abbrev pub count_up : ℕ → ℕ → List ℕ
count_up low zero = []
count_up low (suc n) = low ∷ count_up (low + 1) n

unfoldable pub is_root : Arena → ℕ → Bool
is_root a id = not (is_some (parent_of a id)) && is_some (first_article a id)

unfoldable pub roots : Arena → List ℕ
roots a = sort_by_key (first_article a) (filter (is_root a) (count_up 0 (length a.containers)))

-- What the loop of `group_by_subject` changes.
pub record Grouping : Type 0 where
  pub arena : Arena
  pub holders : Map ℕ
  pub merged : List ℕ

-- `set_parent(child, parent)` and `merged.push(child)`
unfoldable pub merge : ℕ → ℕ → Grouping → Grouping
merge child parent g = record g {
  arena = set_parent child parent g.arena;
  merged = g.merged ++ child ∷ [];
}

-- The new root becomes the holder.
unfoldable pub take_over : Bytes → ℕ → ℕ → Grouping → Grouping
take_over subject id holder g = merge holder id (record g { holders = (subject, id) ∷ g.holders })

unfoldable pub reply_in : Option OverviewRecord → Bool
reply_in none = false
reply_in (some overview) = (normalise_subject overview.subject).1

unfoldable pub record_at : List OverviewRecord → Option ℕ → Option OverviewRecord
record_at records none = none
record_at records (some index) = get_elem? records index

unfoldable pub join : List OverviewRecord → Bytes → Bool → ℕ → ℕ → Grouping → Grouping
join records subject is_reply id holder g =
    let holder_is_reply = reply_in (record_at records (first_article g.arena holder)) in
    if is_reply && not holder_is_reply
    then merge id holder g
    else if holder_is_reply && not is_reply
    then take_over subject id holder g
    else if key_leb (first_article g.arena holder) (first_article g.arena id)
    then merge id holder g
    else take_over subject id holder g

unfoldable pub group_held : List OverviewRecord → Bytes → Bool → ℕ → Option ℕ → Grouping → Grouping
group_held records subject is_reply id none g = record g { holders = (subject, id) ∷ g.holders }
group_held records subject is_reply id (some holder) g =
    if holder == id then g else join records subject is_reply id holder g

unfoldable pub group_subject : List OverviewRecord → Bytes → Bool → ℕ → Grouping → Grouping
group_subject records [] is_reply id g = g
group_subject records (c ∷ s) is_reply id g =
    group_held records (c ∷ s) is_reply id (lookup (c ∷ s) g.holders) g

unfoldable pub group_record : List OverviewRecord → ℕ → Option OverviewRecord → Grouping → Grouping
group_record records id none g = g
group_record records id (some overview) g =
    let (subject, is_reply) = normalise_subject overview.subject in
    group_subject records subject is_reply id g

unfoldable pub group_loop : List OverviewRecord → List ℕ → Grouping → Grouping
group_loop records [] g = g
group_loop records (id ∷ ids) g =
    group_loop records ids
      (group_record records id (record_at records (first_article g.arena id)) g)

unfoldable pub group_by_subject : List OverviewRecord → Arena → List ℕ → Arena × List ℕ
group_by_subject records a ids =
    let done = group_loop records ids (record { arena = a; holders = []; merged = [] }) in
    (done.arena, filter (λ id. not (any (λ m. m == id) done.merged)) ids)

-- `thread`, up to its call of `clamp_depth`
unfoldable pub grouped : List OverviewRecord → Arena × List ℕ
grouped records = group_by_subject records (linked records) (roots (linked records))
