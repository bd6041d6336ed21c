-- ===== src/Tests/Thread.antt =====
-- Runs and instances for crates/nntp-proto/src/thread.rs.
use rust_nntp.Prelude.SortedMap.{lookup, same}
use rust_nntp.Prelude.Text.{
  Bytes, codes, split_once, trim, trim_start, trim_end, is_whitespace, to_lower,
}
use rust_nntp.Prelude.{
  ℕ, ◌<◌, ◌++◌, true, false, Option, none, some, List, [], ◌∷◌, ◌≡◌, ◌⊎◌, refl, arith, length,
}
use rust_nntp.Proto.Subject.Loop.{IsStripped}
use rust_nntp.Proto.Subject.Replies.{normalise_subject_idem, normalise_subject-re}
use rust_nntp.Proto.Subject.{
  normalise_subject, strip_loop, strip_round, strip_tag, tag_tail, strip_marker, marker_tail,
  is_marker, before_bracket,
}
use rust_nntp.Proto.Thread.Ancestor.{IsAbove, set_parent_lem, Refuses, Links}
use rust_nntp.Proto.Thread.Forest.{IsForest, times_in}
use rust_nntp.Proto.Thread.Linked.{linked-IsSound}
use rust_nntp.Proto.Thread.Roots.{
  grouped, group_by_subject, group_loop, group_record, group_subject, group_held, join, merge,
  take_over, reply_in, record_at, roots, sort_by_key, insert_by_key, is_root, first_article,
  first_loop, push_all, least, key_leb,
}
use rust_nntp.Proto.Thread.Reached.{grouped-IsAbove}
use rust_nntp.Proto.Thread.Sound.{IsSound}
use rust_nntp.Proto.Thread.{
  OverviewRecord, children_of, linked, link_all_from, link_references, link_child, link_chain,
  link_to, set_parent, is_ancestor, ancestor_loop, attach, modify, parent_of, article_of,
  insert_all_from, insert, insert_with, insert_alone, insert_known, new_container, container_for_id,
  container_at,
}

abbrev article : Bytes → Option Bytes → List Bytes → OverviewRecord
article subject id references = record {
  number = 1;
  subject = subject;
  from = [];
  date_raw = [];
  message_id = id;
  references = references;
  bytes = none;
  lines = none;
  extra = [];
}

-- A reply, and two articles with the subject that it replies to.
abbrev same_subject : List OverviewRecord
same_subject =
    article (codes "Re: X") (some (codes "<a@x>")) []
    ∷ article (codes "X") (some (codes "<b@x>")) []
    ∷ article (codes "X") (some (codes "<c@x>")) []
    ∷ []

-- The last of them becomes the root of the one before it.
latest_root_run : (grouped same_subject).1 ≡ 2 ∷ []
unfolding grouped group_by_subject group_loop group_record group_subject group_held join merge
    take_over reply_in record_at roots sort_by_key insert_by_key is_root first_article first_loop
    push_all least key_leb linked link_all_from link_references link_child link_chain link_to
    set_parent is_ancestor ancestor_loop attach modify parent_of article_of insert_all_from insert
    insert_with insert_alone insert_known new_container container_for_id container_at lookup same
    children_of normalise_subject strip_loop strip_round strip_tag tag_tail strip_marker marker_tail
    is_marker before_bracket split_once trim trim_start trim_end is_whitespace to_lower
latest_root_run = refl

-- Two articles that refer to each other, and a reply.
abbrev circle : List OverviewRecord
circle =
    article (codes "X") (some (codes "<a@x>")) (codes "<b@x>" ∷ [])
    ∷ article (codes "X") (some (codes "<b@x>")) (codes "<a@x>" ∷ [])
    ∷ article (codes "Re: X") none (codes "<a@x>" ∷ codes "<b@x>" ∷ [])
    ∷ []

linked_run : parent_of (linked circle) 0 ≡ some 1
unfolding linked link_all_from link_references link_child link_chain link_to set_parent is_ancestor
    ancestor_loop attach modify parent_of article_of insert_all_from insert insert_with insert_alone
    insert_known new_container container_for_id container_at lookup same
linked_run = refl

normalise_subject_idem_example :
    IsStripped (normalise_subject (codes "[x] Re[2]: b: c ")).0
    × (normalise_subject (normalise_subject (codes "[x] Re[2]: b: c ")).0
        ≡ ((normalise_subject (codes "[x] Re[2]: b: c ")).0, false))
normalise_subject_idem_example = normalise_subject_idem (codes "[x] Re[2]: b: c ")

normalise_subject-re_example :
    normalise_subject (codes "Re: " ++ codes "[x] b")
    ≡ ((normalise_subject (codes "[x] b")).0, true)
normalise_subject-re_example = normalise_subject-re (codes "[x] b")

linked-IsSound_example :
    IsSound (linked circle) × (length (linked circle).by_article ≡ length circle)
linked-IsSound_example = linked-IsSound circle

containers_run : length (linked circle).containers ≡ 3
unfolding linked link_all_from link_references link_child link_chain link_to set_parent is_ancestor
    ancestor_loop attach modify parent_of article_of insert_all_from insert insert_with insert_alone
    insert_known new_container container_for_id container_at lookup same
containers_run = refl

set_parent_lem_example : Refuses 0 1 (linked circle) ⊎ Links 0 1 (linked circle)
set_parent_lem_example =
    set_parent_lem 0 1 (linked circle) (linked-IsSound circle).0.forest
      (omega (arith, containers_run)) (omega (arith, containers_run))

grouped-IsAbove_example :
    IsForest (grouped same_subject).0
    × ((k : ℕ)
        → k < length same_subject
        → (i : ℕ) × (u : ℕ) × (article_of (grouped same_subject).0 i ≡ some k)
          × IsAbove (parent_of (grouped same_subject).0) u i
          × (times_in u (grouped same_subject).1 ≡ 1))
grouped-IsAbove_example = grouped-IsAbove same_subject
