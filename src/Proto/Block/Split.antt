-- ===== src/Proto/Block/Split.antt =====
-- `split_head_body` and `push_raw_line` of crates/nntp-proto/src/block.rs.
use rust_nntp.Prelude.Text.{Bytes}
use rust_nntp.Prelude.{
  List, [], ◌∷◌, ◌++◌, ◌≡◌, ◌≢◌, ◌⊎◌, inl, inr, refl, ap, sym, ◌∙◌, if◌then◌else◌, Bool-cases, All,
  append_assoc, append-nil,
}
use rust_nntp.Proto.Block.{
  DataBlock, is_terminator, unstuff, until_terminator, parse, push_raw_line, split_lines,
  split_at_empty, split_head_body,
}

split_at_empty-append :
    (lines : List Bytes)
    → All (λ l. l ≢ []) (split_at_empty lines).0
      × ((lines ≡ (split_at_empty lines).0 ++ [] ∷ (split_at_empty lines).1)
          ⊎ ((lines ≡ (split_at_empty lines).0) × ((split_at_empty lines).1 ≡ [])))
unfolding split_at_empty
split_at_empty-append [] = (tt, inr (refl, refl))
split_at_empty-append ([] ∷ lines) = (tt, inl refl)
split_at_empty-append ((c ∷ line) ∷ lines) =
    let (full, whole) = split_at_empty-append lines in
    (
      (cc, full),
      elim whole [
        | inl e ↦ inl (ap (◌∷◌ (c ∷ line)) e)
        | inr (e, none_left) ↦ inr (ap (◌∷◌ (c ∷ line)) e, none_left)
      ],
    )

-- The head has no empty line, and the lines of the block are the head, one empty line and the
-- body, or the head alone where no line is empty.
pub split_head_body_lem :
    (b : DataBlock)
    → All (λ l. l ≢ []) (split_head_body b).0
      × ((b.lines ≡ (split_head_body b).0 ++ [] ∷ (split_head_body b).1)
          ⊎ ((b.lines ≡ (split_head_body b).0) × ((split_head_body b).1 ≡ [])))
unfolding split_head_body
split_head_body_lem b = split_at_empty-append b.lines

-- Lines pushed one after the other until the terminator.
unfoldable pub push_all : DataBlock → List Bytes → DataBlock
push_all b [] = b
push_all b (line ∷ lines) =
    let (b', more) = push_raw_line b line in
    let rest = push_all b' lines in if more then rest else b'

push_all-until :
    (b : DataBlock) (lines : List Bytes)
    → push_all b lines ≡ record { lines = b.lines ++ until_terminator lines }
unfolding push_all push_raw_line until_terminator
push_all-until b [] = λ i. record { lines = sym (append-nil b.lines) i }
push_all-until b (line ∷ lines) = elim (Bool-cases (is_terminator line)) [
  | inl e ↦ rw e (λ i. record { lines = sym (append-nil b.lines) i })
  | inr e ↦ rw e (
      push_all-until (record { lines = b.lines ++ unstuff line ∷ [] }) lines ∙ λ i. record {
        lines = append_assoc b.lines (unstuff line ∷ []) (until_terminator lines) i;
      })
]

-- Feeding the lines one at a time builds what `parse` builds from the whole buffer.
pub push_all-parse :
    (block : Bytes) → push_all (record { lines = [] }) (split_lines block) ≡ parse block
unfolding parse
push_all-parse block = push_all-until (record { lines = [] }) (split_lines block)
