-- ===== src/Proto/Block/Stuffing.antt =====
-- Dot-stuffing, crates/nntp-proto/src/block.rs: what is sent is read back, and no line of it is
-- taken for the terminator.
use rust_nntp.Prelude.Text.{Bytes}
use rust_nntp.Prelude.Text.Laws.{Lacks}
use rust_nntp.Prelude.{
  false, List, [], ◌∷◌, ◌++◌, ◌≡◌, ◌≢◌, refl, ap, sym, ◌∙◌, arith, ◌==◌, All, All-append,
  append_assoc, append-nil,
}
use rust_nntp.Proto.Block.{
  is_terminator, unstuff, stuff, strip_cr, split_onto, split_lines, until_terminator, parse,
}

-- Stuffing is undone, and a stuffed line is never the terminator.
pub unstuff-stuff :
    (line : Bytes) → (unstuff (stuff line) ≡ line) × (is_terminator (stuff line) ≡ false)
unfolding unstuff stuff is_terminator
unstuff-stuff [] = (refl, refl)
unstuff-stuff (c ∷ []) = ground arith
unstuff-stuff (c ∷ d ∷ s) = ground arith

-- What `send_block` writes for the lines of a block.
unfoldable pub wire : List Bytes → Bytes
wire [] = b'.' ∷ b'\r' ∷ b'\n' ∷ []
wire (line ∷ lines) = stuff line ++ (b'\r' ∷ b'\n' ∷ wire lines)

pub strip_cr-append : (line : Bytes) → strip_cr (line ++ b'\r' ∷ []) ≡ line
unfolding strip_cr
strip_cr-append [] = refl
strip_cr-append (c ∷ []) = refl
strip_cr-append (c ∷ d ∷ s) = ap (◌∷◌ c) (strip_cr-append (d ∷ s))

pub stuff-Lacks : (line : Bytes) → Lacks b'\n' line → Lacks b'\n' (stuff line)
unfolding stuff
stuff-Lacks [] h = tt
stuff-Lacks (c ∷ s) h = ground arith

split_onto-Lacks :
    (line p rest : Bytes)
    → Lacks b'\n' p
    → split_onto line (p ++ b'\n' ∷ rest) ≡ strip_cr (line ++ p) ∷ split_lines rest
unfolding split_lines split_onto
split_onto-Lacks line [] rest h = rw append-nil
split_onto-Lacks line (c ∷ p) rest (hc, h) =
    let more : (c == b'\n') ≡ false = ground arith in
    rw (more, split_onto) (rw (split_onto-Lacks (line ++ c ∷ []) p rest h) (rw append_assoc))

-- A line behind the others, as it is sent.
pub split_lines-line :
    (p rest : Bytes)
    → Lacks b'\n' p
    → split_lines (p ++ (b'\r' ∷ b'\n' ∷ rest)) ≡ p ∷ split_lines rest
split_lines-line p rest h =
    let cr : Lacks b'\n' (p ++ b'\r' ∷ []) =
      All-append (λ c. c ≢ b'\n') p (b'\r' ∷ []) h (omega arith) in
    ap split_lines (sym (append_assoc p (b'\r' ∷ []) (b'\n' ∷ rest)))
    ∙ unfold split_lines in split_onto-Lacks [] (p ++ b'\r' ∷ []) rest cr ∙ rw strip_cr-append

until_terminator-wire :
    (lines : List Bytes) (rest : Bytes)
    → All (Lacks b'\n') lines
    → until_terminator (split_lines (wire lines ++ rest)) ≡ lines
unfolding wire until_terminator
until_terminator-wire [] rest h =
    rw (split_lines-line (b'.' ∷ []) rest (omega arith)) (unfold is_terminator in refl)
until_terminator-wire (line ∷ lines) rest (h, hs) =
    let undo = unstuff-stuff line in
    rw (
      append_assoc,
      split_lines-line (stuff line) (wire lines ++ rest) (stuff-Lacks line h),
      undo.1,
      undo.0,
      until_terminator-wire lines rest hs,
    )

-- A block is read back from what is sent for it, whatever follows it on the wire, if no line of it
-- holds an LF.
pub parse-wire :
    (lines : List Bytes) (rest : Bytes)
    → All (Lacks b'\n') lines
    → parse (wire lines ++ rest) ≡ record { lines = lines }
unfolding parse
parse-wire lines rest h = λ i. record { lines = until_terminator-wire lines rest h i }
