-- ===== src/Proto/Wildmat.antt =====
-- `Wildmat::matches` and `matches_one` of crates/nntp-proto/src/command.rs. A position in the
-- pattern or in the name is what stands from there on.
pub mod Glob
pub mod Loop
pub mod State
pub mod Items
use rust_nntp.Prelude.Text.{Bytes, split}
use rust_nntp.Prelude.{
  ℕ, zero, suc, ◌+◌, Bool, true, false, not, ◌||◌, Option, none, some, List, [], ◌∷◌, ◌++◌, ◌==◌,
  if◌then◌else◌, length,
}
use rust_nntp.Proto.Names.{strip_first}

-- How the pattern at a position goes with the next character of the name.
pub data Head : Type 0 where
  star_head one : Bytes → Head
  mismatch : Head

unfoldable pub head_of : Bytes → ℕ → Head
head_of [] c = mismatch
head_of (d ∷ p) c =
    if d == b'*'
    then star_head p
    else if d == b'?'
    then one p
    else if d == c
    then one p
    else mismatch

-- What is left of the pattern at the end of the name matches nothing if it is stars.
unfoldable pub only_stars : Bytes → Bool
only_stars [] = true
only_stars (d ∷ p) = if d == b'*' then only_stars p else false

-- A round of the loop of `matches_one`: what it makes of a star, of a character that matches, and of
-- a mismatch behind a star.
unfoldable pub match_round :
    (Bytes → Option Bool)
    → (Bytes → Option Bool)
    → (Bytes → Option Bool)
    → Head
    → Option Bytes
    → Option Bool
match_round on_star on_one retry (star_head p) star = on_star p
match_round on_star on_one retry (one p) star = on_one p
match_round on_star on_one retry mismatch none = some false
match_round on_star on_one retry mismatch (some q) = retry q

-- The loop of `matches_one`, with fuel for the stars that it meets: the positions in the pattern
-- and in the name, the one behind the last star, and where to resume.
unfoldable pub match_loop : ℕ → Bytes → Bytes → Option Bytes → Bytes → Option Bool
match_loop a p [] star resume = some (only_stars p)
match_loop zero p (c ∷ n) star [] =
    match_round (λ p'. none) (λ p'. match_loop zero p' n star []) (λ q. some (only_stars q))
      (head_of p c) star
match_loop zero p (c ∷ n) star (d ∷ r) =
    match_round (λ p'. none) (λ p'. match_loop zero p' n star (d ∷ r))
      (λ q. match_loop zero q r (some q) r) (head_of p c) star
match_loop (suc a) p (c ∷ n) star [] =
    match_round (λ p'. match_loop a p' (c ∷ n) (some p') (c ∷ n))
      (λ p'. match_loop (suc a) p' n star []) (λ q. some (only_stars q)) (head_of p c) star
match_loop (suc a) p (c ∷ n) star (d ∷ r) =
    match_round (λ p'. match_loop a p' (c ∷ n) (some p') (c ∷ n))
      (λ p'. match_loop (suc a) p' n star (d ∷ r)) (λ q. match_loop (suc a) q r (some q) r)
      (head_of p c) star

-- Every star that the loop meets is further on in the pattern.
unfoldable pub matches_one : Bytes → Bytes → Option Bool
matches_one pattern name = match_loop (length pattern) pattern name none name

-- Whether the item is negated, and its pattern.
abbrev pub item_of : Bytes → Option Bytes → Bool × Bytes
item_of item none = (false, item)
item_of item (some rest) = (true, rest)

-- `matched`, once an item has been compared
abbrev pub decide : Bool → Bool → Option Bool → Option Bool
decide matched negated none = none
decide matched negated (some false) = some matched
decide matched negated (some true) = some (not negated)

-- The loop of `matches`
unfoldable pub match_items : Bytes → Option Bool → List Bytes → Option Bool
match_items name none items = none
match_items name matched [] = matched
match_items name (some matched) (item ∷ items) =
    let (negated, pattern) = item_of item (strip_first b'!' item) in
    match_items name (decide matched negated (matches_one pattern name)) items

-- `Wildmat::matches`
unfoldable pub matches : Bytes → Bytes → Option Bool
matches pattern name = match_items name (some false) (split b',' pattern)
