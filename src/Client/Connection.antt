-- ===== src/Client/Connection.antt =====
-- crates/nntp-client/src/connection.rs and limits.rs: framing. The stream that the connection reads
-- is what the peer and the operating system deliver, one event for each read of the socket: a
-- buffer of octets, or an error; an empty buffer and the end of the list are the end of the stream.
-- `Cancel` (cancel.rs) is a flag that another thread raises: what each round of the loop reads of
-- it is an argument. What is written is kept in `sent`; a write error is an argument too.
pub mod Search
pub mod Line
pub mod Blocks
pub mod Bounds
pub mod Commands
use mathlib.Core.Option
use rust_nntp.Prelude.Text.{Bytes, codes}
use rust_nntp.Prelude.{
  ℕ, zero, suc, ◌+◌, ◌*◌, ◌^◌, Bool, true, false, Option, none, some, List, [], ◌∷◌, ◌++◌, ltb,
  ◌==◌, if◌then◌else◌, length, take,
}
use rust_nntp.Proto.Block.Stuffing.{wire}
use rust_nntp.Proto.Error.{ProtoError}
use rust_nntp.Proto.Block.{is_terminator, unstuff, strip_cr, find_newline}

pub record Limits : Type 0 where
  pub max_line_len : ℕ
  pub max_block_bytes : ℕ
  pub max_block_lines : ℕ

-- `Limits::DEFAULT`
abbrev pub default_limits : Limits
default_limits = record {
  max_line_len = 64 * 1024;
  max_block_bytes = 32 * 1024 * 1024;
  max_block_lines = 4_000_000;
}

-- What `from_io` tells apart of the kinds of an `io::Error`.
pub data ErrorKind : Type 0 where
  timed_out would_block unexpected_eof other : ErrorKind

-- The variants of `ClientError` that this layer returns. The context of `ConnectionClosed`, which is
-- for its message, and the error that `Io` wraps, but for its kind, are left out.
pub data ClientError : Type 0 where
  io : ErrorKind → ClientError
  connection_closed : ClientError
  timeout : ClientError
  line_too_long : ℕ → ClientError
  block_too_large : ℕ → ClientError
  cancelled : ClientError
  proto : ProtoError → ClientError

pub data Result {ℓ} (A : Type ℓ) : Type ℓ where
  ok : A → Result A
  err : ClientError → Result A

unfoldable pub from_io : ErrorKind → ClientError
from_io timed_out = timeout
from_io would_block = timeout
from_io unexpected_eof = connection_closed
from_io other = io other

-- One read of the socket.
pub data Event : Type 0 where
  chunk : Bytes → Event
  fault : ErrorKind → Event

pub record Connection : Type 0 where
  -- The part of the last buffer that has not been consumed.
  pub buffer : Bytes
  -- The reads to come.
  pub events : List Event
  pub sent : Bytes
  pub limits : Limits
  pub desynchronised : Bool

abbrev pub lost : Connection → Connection
lost c = record c { desynchronised = true }

unfoldable pub ensure_synchronised : Connection → Result (Unit {0})
ensure_synchronised c = if c.desynchronised then err connection_closed else ok tt

-- The end of `read_line`, at an LF: the length is tested again, and one CR is dropped.
unfoldable pub complete_line : Connection → Bytes → Result Bytes × Connection
complete_line c line =
    if ltb c.limits.max_line_len (length line)
    then (err (line_too_long c.limits.max_line_len), lost c)
    else (ok (strip_cr line), c)

-- A round of the loop of `read_line`: `line` is what was read before, `buffer` what `fill_buf`
-- returned, and `more` what the next rounds make of it where there is no LF in the buffer.
unfoldable pub round :
    Connection → Bytes → Bytes → List Event → Result Bytes × Connection → Result Bytes × Connection
round c line buffer events more = elim (find_newline buffer) [
  | some (head, tail) ↦ complete_line (record c { buffer = tail; events = events }) (line ++ head)
  | none ↦
      if ltb c.limits.max_line_len (length (line ++ buffer))
      then (
        err (line_too_long c.limits.max_line_len),
        record c { buffer = []; events = events; desynchronised = true },
      )
      else more
]

-- The loop of `read_line`. A round on an empty buffer adds nothing, so the first round needs no
-- case of its own.
unfoldable pub read_loop : Connection → Bytes → Bytes → List Event → Result Bytes × Connection
read_loop c line buffer [] =
    round c line buffer []
      (err connection_closed, record c { buffer = []; events = []; desynchronised = true })
read_loop c line buffer (fault kind ∷ es) =
    round c line buffer (fault kind ∷ es)
      (err (from_io kind), record c { buffer = []; events = es })
read_loop c line buffer (chunk [] ∷ es) =
    round c line buffer (chunk [] ∷ es)
      (err connection_closed, record c { buffer = []; events = es; desynchronised = true })
read_loop c line buffer (chunk (b ∷ bs) ∷ es) =
    round c line buffer (chunk (b ∷ bs) ∷ es) (read_loop c (line ++ buffer) (b ∷ bs) es)

unfoldable pub read_line : Connection → Result Bytes × Connection
read_line c =
    if c.desynchronised then (err connection_closed, c) else read_loop c [] c.buffer c.events

-- How many octets the reads to come deliver.
unfoldable pub size_of_events : List Event → ℕ
size_of_events [] = 0
size_of_events (chunk b ∷ es) = length b + size_of_events es
size_of_events (fault kind ∷ es) = size_of_events es

-- What a read of a block has passed to `on_line`, its result, and the connection.
pub record Streamed : Type 0 where
  pub passed : List Bytes
  pub result : Result ℕ
  pub left : Connection

-- The limits on a block, tested once a line that is not the terminator has been counted; the
-- counters stay below the limits, so they do not wrap around.
unfoldable pub over_limit : Limits → ℕ → ℕ → Option ℕ
over_limit l lines bytes =
    if ltb l.max_block_lines lines
    then some l.max_block_lines
    else if ltb l.max_block_bytes bytes
    then some l.max_block_bytes
    else none

-- The counters with this line in them have been tested: the line is passed on, or is too much.
unfoldable pub pass_line :
    (ℕ → ℕ → List Bytes → Connection → Option Streamed)
    → ℕ
    → ℕ
    → List Bytes
    → Bytes
    → Connection
    → Option ℕ
    → Option Streamed
pass_line more lines bytes passed line c (some l) =
    some (record { passed = passed; result = err (block_too_large l); left = lost c })
pass_line more lines bytes passed line c none = more lines bytes (passed ++ unstuff line ∷ []) c

-- A round of `read_block_streaming` once a line has been read; `more` continues with the counters.
unfoldable pub take_line :
    (ℕ → ℕ → List Bytes → Connection → Option Streamed)
    → ℕ
    → ℕ
    → List Bytes
    → Result Bytes × Connection
    → Option Streamed
take_line more lines bytes passed (err e, c) =
    some (record { passed = passed; result = err e; left = c })
take_line more lines bytes passed (ok line, c) =
    if is_terminator line
    then some (record { passed = passed; result = ok lines; left = c })
    else pass_line more (lines + 1) (bytes + length line) passed line c
        (over_limit c.limits (lines + 1) (bytes + length line))

-- The loop of `read_block_streaming`, with fuel for its rounds; `flag i` is what round `i` reads
-- of the cancellation flag, and is always `false` if no flag was given.
unfoldable pub block_loop : ℕ → (ℕ → Bool) → ℕ → ℕ → List Bytes → Connection → Option Streamed
block_loop zero flag lines bytes passed c = none
block_loop (suc fuel) flag lines bytes passed c =
    if flag lines
    then some (record { passed = passed; result = err cancelled; left = lost c })
    else take_line (block_loop fuel flag) lines bytes passed (read_line c)

-- Every round but the last reads one octet at least.
unfoldable pub read_block_streaming : (ℕ → Bool) → Connection → Option Streamed
read_block_streaming flag c =
    block_loop (length c.buffer + size_of_events c.events + 1) flag 0 0 [] c

abbrev pub block_of : List Bytes → Result ℕ → Result (List Bytes)
block_of passed (ok n) = ok passed
block_of passed (err e) = err e

-- `read_block`: the lines are pushed as they arrive.
unfoldable pub read_block : (ℕ → Bool) → Connection → Option (Result (List Bytes) × Connection)
read_block flag c =
    Option.map (λ s. (block_of s.passed s.result, s.left)) (read_block_streaming flag c)

-- `write_all` and `flush`: `some (k, kind)` is an error of that kind once `k` octets have been
-- written.
unfoldable pub write_all :
    Option (ℕ × ErrorKind) → Bytes → Connection → Result (Unit {0}) × Connection
write_all none out c = (ok tt, record c { sent = c.sent ++ out })
write_all (some (k, kind)) out c = (err (from_io kind), record c { sent = c.sent ++ take k out })

unfoldable pub send_block :
    Option (ℕ × ErrorKind) → List Bytes → Connection → Result (Unit {0}) × Connection
send_block failure lines c =
    if c.desynchronised then (err connection_closed, c) else write_all failure (wire lines) c
