-- ===== src/Proto/Block.antt =====
-- crates/nntp-proto/src/block.rs, and `split_lines` of crates/nntp-proto/src/headers.rs: multi-line
-- data blocks, their dot-stuffing and their terminator line.
pub mod Stuffing
pub mod Split
use rust_nntp.Prelude.Text.{Bytes}
use rust_nntp.Prelude.{
  ℕ, ◌+◌, Bool, true, false, Option, none, some, List, [], ◌∷◌, ◌++◌, ◌==◌, if◌then◌else◌, length,
  map,
}

-- `matches!(line, [b'.'])`
unfoldable pub is_terminator : Bytes → Bool
is_terminator (c ∷ []) = c == b'.'
is_terminator _ = false

unfoldable pub unstuff : Bytes → Bytes
unstuff [] = []
unstuff (c ∷ rest) = if c == b'.' then rest else c ∷ rest

unfoldable pub stuff : Bytes → Bytes
stuff [] = []
stuff (c ∷ rest) = if c == b'.' then b'.' ∷ c ∷ rest else c ∷ rest

-- `line.strip_suffix(b"\r").unwrap_or(line)`
unfoldable pub strip_cr : Bytes → Bytes
strip_cr [] = []
strip_cr (c ∷ []) = if c == b'\r' then [] else c ∷ []
strip_cr (c ∷ d ∷ s) = c ∷ strip_cr (d ∷ s)

-- Octets in front of the part up to a separator.
abbrev pub prepend : Bytes → Option (Bytes × Bytes) → Option (Bytes × Bytes)
prepend s none = none
prepend s (some (a, b)) = some (s ++ a, b)

-- The line up to the first LF and what is behind it, which is what `memchr` finds.
unfoldable pub find_newline : Bytes → Option (Bytes × Bytes)
find_newline [] = none
find_newline (c ∷ s) =
    let rest = prepend (c ∷ []) (find_newline s) in if c == b'\n' then some ([], s) else rest

-- The tail without an LF, if it is not empty.
unfoldable pub last_line : Bytes → List Bytes
last_line [] = []
last_line (c ∷ line) = strip_cr (c ∷ line) ∷ []

-- The loop of `split_lines`; `line` is what has been read of the line at hand.
unfoldable pub split_onto : Bytes → Bytes → List Bytes
split_onto line [] = last_line line
split_onto line (c ∷ s) = elim (c == b'\n') [
  | true ↦ strip_cr line ∷ split_onto [] s
  | false ↦ split_onto (line ++ c ∷ []) s
]

unfoldable pub split_lines : Bytes → List Bytes
split_lines = split_onto []

pub record DataBlock : Type 0 where
  pub lines : List Bytes

-- The loop of `parse` over the lines, which stops at the terminator.
unfoldable pub until_terminator : List Bytes → List Bytes
until_terminator [] = []
until_terminator (line ∷ lines) =
    if is_terminator line then [] else unstuff line ∷ until_terminator lines

unfoldable pub parse : Bytes → DataBlock
parse block = record { lines = until_terminator (split_lines block) }

-- The Boolean is `false` if the line was the terminator.
unfoldable pub push_raw_line : DataBlock → Bytes → DataBlock × Bool
push_raw_line b line =
    if is_terminator line
    then (b, false)
    else (record { lines = b.lines ++ unstuff line ∷ [] }, true)

unfoldable pub byte_len_of : List Bytes → ℕ
byte_len_of [] = 0
byte_len_of (line ∷ lines) = length line + byte_len_of lines

unfoldable pub byte_len : DataBlock → ℕ
byte_len b = byte_len_of b.lines

unfoldable pub join_crlf : List Bytes → Bytes
join_crlf [] = []
join_crlf (line ∷ lines) = line ++ (b'\r' ∷ b'\n' ∷ join_crlf lines)

unfoldable pub to_bytes : DataBlock → Bytes
to_bytes b = join_crlf b.lines

-- The lines in front of the first empty one, and those behind it.
unfoldable pub split_at_empty : List Bytes → List Bytes × List Bytes
split_at_empty [] = ([], [])
split_at_empty ([] ∷ lines) = ([], lines)
split_at_empty ((c ∷ line) ∷ lines) =
    let (head, body) = split_at_empty lines in ((c ∷ line) ∷ head, body)

unfoldable pub split_head_body : DataBlock → List Bytes × List Bytes
split_head_body b = split_at_empty b.lines
