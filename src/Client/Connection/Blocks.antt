-- ===== src/Client/Connection/Blocks.antt =====
-- `read_block` of crates/nntp-client/src/connection.rs: it comes to an end, and it reads back what
-- `send_block` wrote at the other end.
use rust_nntp.Client.Connection.Line.{flat, IsSteady, unread, read_line_sent}
use rust_nntp.Client.Connection.{
  Limits, ok, Event, chunk, fault, Connection, read_line, size_of_events, over_limit, take_line,
  pass_line, block_loop, read_block_streaming, read_block,
}
use native.Mathlib.Nat.{add-zero}
use rust_nntp.Prelude.Text.{Bytes}
use rust_nntp.Prelude.Text.Laws.{Lacks}
use rust_nntp.Prelude.{
  ℕ, zero, suc, ◌+◌, ◌≤◌, ◌<◌, Bool, false, none, some, List, [], ◌∷◌, ◌++◌, ◌≡◌, ap, ◌∙◌, arith,
  length, length-append, All, append_assoc, append-nil, map,
}
use rust_nntp.Proto.Block.Stuffing.{wire, unstuff-stuff, stuff-Lacks}
use rust_nntp.Proto.Block.{is_terminator, stuff, byte_len_of}

-- The limits that the block of these lines keeps to.
pub record Fits (l : Limits) (lines bytes : ℕ) (block : List Bytes) : Type 0 where
  pub terminator : 2 ≤ l.max_line_len
  pub line : All (λ s. length (stuff s) + 1 ≤ l.max_line_len) block
  pub count : lines + length block ≤ l.max_block_lines
  pub octets : bytes + byte_len_of (map stuff block) ≤ l.max_block_bytes

Fits-cons :
    (l l' : Limits) (lines bytes : ℕ) (s : Bytes) (block : List Bytes)
    → l' ≡ l
    → Fits l lines bytes (s ∷ block)
    → Fits l' (lines + 1) (bytes + length (stuff s)) block
unfolding byte_len_of
Fits-cons l l' lines bytes s block e f = rw e (record {
  terminator = f.terminator;
  line = f.line.1;
  count = omega (arith, f.count);
  octets = omega (arith, f.octets);
})

-- The round that reads the terminator.
block_loop_last :
    (fuel : ℕ) (flag : ℕ → Bool) (lines bytes : ℕ) (passed : List Bytes) (c c' : Connection)
    → flag lines ≡ false
    → read_line c ≡ (ok (b'.' ∷ []), c')
    → block_loop (suc fuel) flag lines bytes passed c
      ≡ some (record { passed = passed; result = ok lines; left = c' })
unfolding block_loop take_line is_terminator
block_loop_last fuel flag lines bytes passed c c' never read = rw (never, read)

over_limit-Fits :
    (l l' : Limits) (lines bytes : ℕ) (s : Bytes) (block : List Bytes)
    → l' ≡ l
    → Fits l lines bytes (s ∷ block)
    → over_limit l' (lines + 1) (bytes + length (stuff s)) ≡ none
unfolding over_limit byte_len_of
over_limit-Fits l l' lines bytes s block e f = rw e (ground (arith, f.count, f.octets))

-- A round that reads a line of the block.
block_loop_next :
    (fuel : ℕ) (flag : ℕ → Bool) (lines bytes : ℕ) (passed block : List Bytes) (s : Bytes)
    (c c' : Connection)
    → flag lines ≡ false
    → read_line c ≡ (ok (stuff s), c')
    → c'.limits ≡ c.limits
    → Fits c.limits lines bytes (s ∷ block)
    → block_loop (suc fuel) flag lines bytes passed c
      ≡ block_loop fuel flag (lines + 1) (bytes + length (stuff s)) (passed ++ s ∷ []) c'
unfolding block_loop take_line pass_line
block_loop_next fuel flag lines bytes passed block s c c' never read lim fits =
    let undo = unstuff-stuff s in
    rw
      (never, read, undo.1, over_limit-Fits c.limits c'.limits lines bytes s block lim fits, undo.0)

block_loop-wire :
    (fuel : ℕ) (flag : ℕ → Bool) (lines bytes : ℕ) (passed block : List Bytes) (c : Connection)
    (rest : Bytes)
    → length block < fuel
    → ((i : ℕ) → flag i ≡ false)
    → IsSteady c.events
    → c.desynchronised ≡ false
    → unread c ≡ wire block ++ rest
    → All (Lacks b'\n') block
    → Fits c.limits lines bytes block
    → (c' : Connection) × (block_loop fuel flag lines bytes passed c
        ≡ some (record { passed = passed ++ block; result = ok (lines + length block); left = c' }))
      × (unread c' ≡ rest)
      × (c'.desynchronised ≡ false)
      × IsSteady c'.events
unfolding wire
block_loop-wire zero flag lines bytes passed block c rest f never st d u h fits =
    absurd (omega arith)
block_loop-wire (suc fuel) flag lines bytes passed [] c rest f never st d u h fits =
    let (c', read, left, lim, sync, st') =
      read_line_sent c (b'.' ∷ []) rest st d u (omega arith) fits.terminator in
    (
      c',
      block_loop_last fuel flag lines bytes passed c c' (never lines) read
          ∙ rw (append-nil, add-zero),
      left,
      sync,
      st',
    )
block_loop-wire (suc fuel) flag lines bytes passed (s ∷ block) c rest f never st d u (h, hs) fits =
    let next = wire block ++ rest in
    let (c', read, left, lim, sync, st') =
      read_line_sent c (stuff s) next st d (u ∙ append_assoc (stuff s) _ rest) (stuff-Lacks s h)
        fits.line.0 in
    let (c'', ends, left', sync', st'') =
      block_loop-wire fuel flag (lines + 1) (bytes + length (stuff s)) (passed ++ s ∷ []) block c'
        rest (omega arith) never st' sync left hs
        (Fits-cons c.limits c'.limits lines bytes s block lim fits) in
    let total : lines + 1 + length block ≡ lines + suc (length block) = omega arith in
    (
      c'',
      block_loop_next fuel flag lines bytes passed block s c c' (never lines) read lim fits
          ∙ ends
          ∙ rw (append_assoc, total),
      left',
      sync',
      st'',
    )

size-flat : (es : List Event) → length (flat es) ≤ size_of_events es
unfolding size_of_events
size-flat [] = omega arith
size-flat (chunk b ∷ es) = omega (arith, length-append b (flat es), size-flat es)
size-flat (fault kind ∷ es) = size-flat es

length-wire : (block : List Bytes) → length block < length (wire block)
unfolding wire
length-wire [] = omega arith
length-wire (s ∷ block) =
    omega (arith, length-append (stuff s) (b'\r' ∷ b'\n' ∷ wire block), length-wire block)

-- If the stream holds what `send_block` writes for these lines, whatever buffers it arrives in and
-- whatever follows it, and if no line holds an LF, they keep to the limits with the CR counted, the
-- connection is in step, no read fails and none is empty, and nobody cancels, then `read_block` returns
-- the lines, and the connection is left at what follows.
pub read_block-wire :
    (flag : ℕ → Bool) (c : Connection) (block : List Bytes) (rest : Bytes)
    → ((i : ℕ) → flag i ≡ false)
    → IsSteady c.events
    → c.desynchronised ≡ false
    → unread c ≡ wire block ++ rest
    → All (Lacks b'\n') block
    → Fits c.limits 0 0 block
    → (c' : Connection) × (read_block flag c ≡ some (ok block, c'))
      × (unread c' ≡ rest)
      × (c'.desynchronised ≡ false)
      × IsSteady c'.events
unfolding read_block read_block_streaming
read_block-wire flag c block rest never st d u h fits =
    let enough : length block < length c.buffer + size_of_events c.events + 1 = omega (
      arith,
      ap length u,
      length-append c.buffer (flat c.events),
      size-flat c.events,
      length-append (wire block) rest,
      length-wire block,
    ) in
    let (c', ends, left, sync, st') =
      block_loop-wire _ flag 0 0 [] block c rest enough never st d u h fits in
    (c', rw ends, left, sync, st')
