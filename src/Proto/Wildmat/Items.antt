-- ===== src/Proto/Wildmat/Items.antt =====
-- The list of patterns of a wildmat: the last one that matches decides.
use rust_nntp.Prelude.Text.{Bytes, split}
use rust_nntp.Prelude.{
  Bool, true, false, not, Option, none, some, List, [], ◌∷◌, ◌≡◌, refl, ap, ◌∙◌, if◌then◌else◌,
}
use rust_nntp.Proto.Names.{strip_first}
use rust_nntp.Proto.Wildmat.Glob.{glob}
use rust_nntp.Proto.Wildmat.Loop.{matches_one-glob}
use rust_nntp.Proto.Wildmat.{item_of, decide, match_items, matches}

-- What the last item that matches says, if there is one.
unfoldable pub last_verdict : Bytes → List Bytes → Option Bool
last_verdict name [] = none
last_verdict name (item ∷ items) =
    let (negated, pattern) = item_of item (strip_first b'!' item) in
    elim (last_verdict name items) [
      | some verdict ↦ some verdict
      | none ↦ if glob pattern name then some (not negated) else none
    ]

abbrev pub verdict_or : Bool → Option Bool → Bool
verdict_or otherwise none = otherwise
verdict_or otherwise (some verdict) = verdict

decide-verdict :
    (m negated g : Bool) (later : Option Bool)
    → (m' : Bool) × (decide m negated (some g) ≡ some m')
      × (verdict_or m' later
          ≡ verdict_or m (elim later as (λ x. Option Bool) [
            | some verdict ↦ some verdict
            | none ↦ if g then some (not negated) else none
          ]))
decide-verdict m negated true none = (not negated, refl, refl)
decide-verdict m negated true (some v) = (not negated, refl, refl)
decide-verdict m negated false none = (m, refl, refl)
decide-verdict m negated false (some v) = (m, refl, refl)

match_items-last_verdict :
    (name : Bytes) (m : Bool) (items : List Bytes)
    → match_items name (some m) items ≡ some (verdict_or m (last_verdict name items))
unfolding match_items last_verdict
match_items-last_verdict name m [] = refl
match_items-last_verdict name m (item ∷ items) =
    let (negated, pattern) = item_of item (strip_first b'!' item) in
    let (m', step, same) = decide-verdict m negated (glob pattern name) (last_verdict name items) in
    ap (λ r. match_items name (decide m negated r) items) (matches_one-glob pattern name)
    ∙ ap (λ r. match_items name r items) step
    ∙ match_items-last_verdict name m' items
    ∙ ap some same

-- A wildmat matches a name if the last of its items of which the pattern matches the name, with
-- every way to fill the stars tried, is not negated; it does not if there is none.
pub matches-last_verdict :
    (pattern name : Bytes)
    → matches pattern name ≡ some (verdict_or false (last_verdict name (split b',' pattern)))
unfolding matches
matches-last_verdict pattern name = match_items-last_verdict name false (split b',' pattern)
