-- ===== src/Proto/Thread.antt =====
-- crates/nntp-proto/src/thread.rs: the containers of an arena, their links, and the tree that they
-- become. `HashMap` is a list of entries, the newest first; an index is a number.
pub mod Containers
pub mod Forest
pub mod Sound
pub mod Linked
pub mod Ancestor
pub mod Roots
pub mod First
pub mod Grouping
pub mod Grouped
pub mod Shown
pub mod Reached
use rust_nntp.Prelude.SortedMap.{Map, lookup}
use rust_nntp.Prelude.Text.{Bytes}
use rust_nntp.Prelude.{
  ℕ, zero, suc, ◌+◌, ◌-◌, Bool, true, false, not, ◌&&◌, ◌||◌, Option, none, some, List, [], ◌∷◌,
  ◌++◌, ◌==◌, ltb, leb, if◌then◌else◌, length, get_elem?, drop, any, map, min,
}
use rust_nntp.Proto.Subject.{normalise_subject}

abbrev pub max_references : ℕ
max_references = 64

abbrev pub max_depth : ℕ
max_depth = 32

-- The record of crates/nntp-proto/src/overview.rs, without the parsed date, which is chrono's.
pub record OverviewRecord : Type 0 where
  pub number : ℕ
  pub subject : Bytes
  pub from : Bytes
  pub date_raw : Bytes
  pub message_id : Option Bytes
  pub references : List Bytes
  pub bytes : Option ℕ
  pub lines : Option ℕ
  pub extra : List (Bytes × Bytes)

pub record Container : Type 0 where
  pub article : Option ℕ
  pub parent : Option ℕ
  pub children : List ℕ

pub record Arena : Type 0 where
  pub containers : List Container
  pub by_id : Map ℕ
  pub by_article : List ℕ

-- `Arena::default()`
abbrev pub no_containers : Arena
no_containers = record { containers = []; by_id = []; by_article = [] }

-- `get_mut`, if the index is in range
unfoldable pub modify : ℕ → (Container → Container) → List Container → List Container
modify i f [] = []
modify zero f (c ∷ cs) = f c ∷ cs
modify (suc i) f (c ∷ cs) = c ∷ modify i f cs

abbrev pub update : ℕ → (Container → Container) → Arena → Arena
update i f a = record a { containers = modify i f a.containers }

unfoldable pub new_container : Option ℕ → Arena → Arena × ℕ
new_container article a = (
  record a {
    containers = a.containers ++ record { article = article; parent = none; children = [] } ∷ [];
  },
  length a.containers,
)

abbrev pub article_in : Option Container → Option ℕ
article_in none = none
article_in (some c) = c.article

unfoldable pub article_of : Arena → ℕ → Option ℕ
article_of a id = article_in (get_elem? a.containers id)

abbrev pub parent_in : Option Container → Option ℕ
parent_in none = none
parent_in (some c) = c.parent

unfoldable pub parent_of : Arena → ℕ → Option ℕ
parent_of a id = parent_in (get_elem? a.containers id)

abbrev pub children_in : Option Container → List ℕ
children_in none = []
children_in (some c) = c.children

unfoldable pub children_of : Arena → ℕ → List ℕ
children_of a id = children_in (get_elem? a.containers id)

abbrev pub is_some {ℓ} : {A : Type ℓ} → Option A → Bool
is_some none = false
is_some (some x) = true

abbrev pub with_article : ℕ → Container → Container
with_article index c = record c { article = some index }

-- A container of its own for a record
unfoldable pub insert_alone : ℕ → Arena → Arena
insert_alone index a =
    let made = new_container (some index) a in
    record (made.0) { by_article = made.0.by_article ++ made.1 ∷ [] }

-- The container that has the id of the record, if there is one
unfoldable pub insert_known : ℕ → Bytes → Option ℕ → Arena → Arena
insert_known index id none a =
    let made = insert_alone index a in
    record made { by_id = (id, length a.containers) ∷ made.by_id }
insert_known index id (some existing) a =
    let filled = update existing (with_article index) a in
    if is_some (article_of a existing)
    then insert_alone index a
    else record filled { by_article = filled.by_article ++ existing ∷ [] }

unfoldable pub insert_with : ℕ → Option Bytes → Arena → Arena
insert_with index none a = insert_alone index a
insert_with index (some id) a = insert_known index id (lookup id a.by_id) a

unfoldable pub insert : ℕ → OverviewRecord → Arena → Arena
insert index overview a = insert_with index overview.message_id a

unfoldable pub container_at : Bytes → Option ℕ → Arena → Arena × ℕ
container_at id (some existing) a = (a, existing)
container_at id none a =
    let made = new_container none a in
    (record (made.0) { by_id = (id, made.1) ∷ made.0.by_id }, made.1)

unfoldable pub container_for_id : Bytes → Arena → Arena × ℕ
container_for_id id a = container_at id (lookup id a.by_id) a

-- The walk to the ancestors, with fuel for its steps; `true` is the backstop.
unfoldable pub ancestor_loop : ℕ → Arena → ℕ → Option ℕ → Bool
ancestor_loop zero a candidate current = true
ancestor_loop (suc steps) a candidate none = false
ancestor_loop (suc steps) a candidate (some node) =
    let above = ancestor_loop steps a candidate (parent_of a node) in
    if node == candidate then true else above

unfoldable pub is_ancestor : Arena → ℕ → ℕ → Bool
is_ancestor a candidate id = ancestor_loop (length a.containers + 1) a candidate (some id)

abbrev pub with_parent : ℕ → Container → Container
with_parent parent c = record c { parent = some parent }

abbrev pub with_child : ℕ → Container → Container
with_child child c = record c { children = c.children ++ child ∷ [] }

unfoldable pub attach : ℕ → ℕ → Arena → Arena
attach child parent a = update parent (with_child child) (update child (with_parent parent) a)

unfoldable pub set_parent : ℕ → ℕ → Arena → Arena
set_parent child parent a =
    if child == parent || is_some (parent_of a child)
    then a
    else if is_ancestor a child parent
    then a
    else attach child parent a

unfoldable pub link_to : Option ℕ → ℕ → Arena → Arena
link_to none child a = a
link_to (some parent) child a = set_parent child parent a

-- The loop over the references, and the link behind it
unfoldable pub link_chain : List Bytes → Option ℕ → ℕ → Arena → Arena
link_chain [] previous child a = link_to previous child a
link_chain (reference ∷ rest) previous child a =
    let (b, current) = container_for_id reference a in
    link_chain rest (some current) child (link_to previous current b)

unfoldable pub link_child : Option ℕ → OverviewRecord → Arena → Arena
link_child none overview a = a
link_child (some child) overview a =
    link_chain (drop (length overview.references - max_references) overview.references) none child a

unfoldable pub link_references : ℕ → OverviewRecord → Arena → Arena
link_references index overview a = link_child (get_elem? a.by_article index) overview a

-- The first two loops of `thread`
unfoldable pub insert_all_from : ℕ → List OverviewRecord → Arena → Arena
insert_all_from index [] a = a
insert_all_from index (overview ∷ rest) a =
    insert_all_from (index + 1) rest (insert index overview a)

unfoldable pub link_all_from : ℕ → List OverviewRecord → Arena → Arena
link_all_from index [] a = a
link_all_from index (overview ∷ rest) a =
    link_all_from (index + 1) rest (link_references index overview a)

unfoldable pub linked : List OverviewRecord → Arena
linked records = link_all_from 0 records (insert_all_from 0 records no_containers)
