-- ===== src/Proto/List.antt =====
-- crates/nntp-proto/src/list.rs: the lines of LIST ACTIVE, LIST NEWSGROUPS and LIST ACTIVE.TIMES. The
-- decoder of Windows-1252 is encoding_rs's, and dates are chrono's: both are parameters.
pub mod Laws
use rust_nntp.Prelude.Decimal.{parse_u64}
use rust_nntp.Prelude.SortedMap.{same}
use rust_nntp.Prelude.Text.{Bytes, codes, is_whitespace, trim, trim_start}
use rust_nntp.Prelude.{
  ℕ, ◌+◌, ◌-◌, ◌^◌, Bool, true, false, ◌&&◌, Option, none, some, List, [], ◌∷◌, ◌++◌, ◌==◌, ltb,
  leb, if◌then◌else◌, sub_u64, add_u64, drop,
}
use rust_nntp.Proto.Block.{DataBlock}
use rust_nntp.Proto.Error.{ProtoError, Result, ok, err, ◌>>=◌, missing_field, invalid_number}
use rust_nntp.Proto.Group.{PostingStatus, parse_posting}
use rust_nntp.Proto.Names.{parse_group_name}
use rust_nntp.Proto.Response.{words_onto, nth}
use rust_nntp.Proto.Utf8.Lossy.{lossy}
use rust_nntp.Proto.Utf8.{utf8}

-- `str::from_utf8` accepts the octets that its lossy form is encoded as.
abbrev pub is_utf8 : Bytes → Bool
is_utf8 bytes = same (utf8 (lossy bytes)) bytes

pub record ListResult {ℓ} (A : Type ℓ) : Type ℓ where
  pub entries : List A
  pub skipped : List Bytes

pub record ActiveEntry : Type 0 where
  pub name : Bytes
  pub high : ℕ
  pub low : ℕ
  pub status : PostingStatus

unfoldable pub estimated_count : ActiveEntry → ℕ
estimated_count e = if leb e.low e.high && ltb 0 e.high then add_u64 (sub_u64 e.high e.low) 1 else 0

unfoldable pub active_is_empty : ActiveEntry → Bool
active_is_empty e = estimated_count e == 0

pub record NewsgroupEntry : Type 0 where
  pub name : Bytes
  pub description : Bytes

pub record ActiveTimesEntry (Date : Type 0) : Type 0 where
  pub name : Bytes
  pub created : Option Date
  pub creator : Bytes

-- `next_field`, at its place among the words
unfoldable pub next_field : List Bytes → ℕ → Bytes → Bytes → Result Bytes
next_field fields n context field = elim (nth n fields) [
  | none ↦ err (missing_field context field)
  | some raw ↦ ok raw
]

unfoldable pub number_field : Bytes → Bytes → Bytes → Result ℕ
number_field raw context field = elim (parse_u64 raw) [
  | none ↦ err (invalid_number context (field ++ b'=' ∷ raw))
  | some n ↦ ok n
]

abbrev active_context : Bytes
active_context = codes "LIST ACTIVE line"

unfoldable pub active_fields : List Bytes → Result ActiveEntry
active_fields fields = do
  raw_name ← next_field fields 0 active_context (codes "group")
  name ← parse_group_name raw_name
  raw_high ← next_field fields 1 active_context (codes "high")
  high ← number_field raw_high active_context (codes "high")
  raw_low ← next_field fields 2 active_context (codes "low")
  low ← number_field raw_low active_context (codes "low")
  raw_status ← next_field fields 3 active_context (codes "status")
  ok (record { name = name; high = high; low = low; status = parse_posting raw_status })

-- What stands in front of the first white space, and the rest with it
unfoldable pub split_name : Bytes → Bytes × Bytes
split_name [] = ([], [])
split_name (c ∷ s) =
    let (name, rest) = split_name s in if is_whitespace c then ([], c ∷ s) else (c ∷ name, rest)

unfoldable pub newsgroup_parts : Bytes × Bytes → Result NewsgroupEntry
newsgroup_parts ([], rest) = err (missing_field (codes "LIST NEWSGROUPS line") (codes "group"))
newsgroup_parts (c ∷ s, rest) = do
  name ← parse_group_name (c ∷ s)
  ok (record { name = name; description = trim rest })

-- `collect::<Vec<_>>().join(" ")`
unfoldable pub join_words : List Bytes → Bytes
join_words [] = []
join_words (w ∷ []) = w
join_words (w ∷ v ∷ ws) = w ++ b' ' ∷ join_words (v ∷ ws)

abbrev pub behind : ℕ → List Bytes → List Bytes
behind n ws = drop n ws

abbrev times_context : Bytes
times_context = codes "LIST ACTIVE.TIMES line"

module _ (windows_1252 : Bytes → Bytes) where
  -- `decode_8bit_lossy` of crates/nntp-proto/src/mime.rs
  unfoldable pub decode_8bit_lossy : Bytes → Bytes
  decode_8bit_lossy bytes = if is_utf8 bytes then lossy bytes else windows_1252 bytes

  unfoldable pub parse_active : Bytes → Result ActiveEntry
  parse_active line = active_fields (words_onto [] (decode_8bit_lossy line))

  unfoldable pub parse_newsgroup : Bytes → Result NewsgroupEntry
  parse_newsgroup line = newsgroup_parts (split_name (trim_start (decode_8bit_lossy line)))

  module _ {Date : Type 0} (from_timestamp : ℕ → Option Date) where
    unfoldable pub times_fields : List Bytes → Result (ActiveTimesEntry Date)
    times_fields fields = do
      raw_name ← next_field fields 0 times_context (codes "group")
      name ← parse_group_name raw_name
      raw ← next_field fields 1 times_context (codes "created")
      seconds ← number_field raw times_context (codes "created")
      ok (record {
        name = name;
        created = if ltb seconds (2 ^ 63) then from_timestamp seconds else none;
        creator = join_words (behind 2 fields);
      })

    unfoldable pub parse_active_times : Bytes → Result (ActiveTimesEntry Date)
    parse_active_times line = times_fields (words_onto [] (decode_8bit_lossy line))

  module _ {ℓ} {A : Type ℓ} (parse_line : Bytes → Result A) where
    -- A line that is parsed is an entry, any other is kept as text.
    unfoldable pub sort_line : Bytes → Result A → ListResult A → ListResult A
    sort_line line (ok entry) r = record { entries = entry ∷ r.entries; skipped = r.skipped }
    sort_line line (err e) r = record {
      entries = r.entries;
      skipped = decode_8bit_lossy line ∷ r.skipped;
    }

    unfoldable pub parse_lines : List Bytes → ListResult A
    parse_lines [] = record { entries = []; skipped = [] }
    parse_lines ([] ∷ lines) = parse_lines lines
    parse_lines ((c ∷ s) ∷ lines) = sort_line (c ∷ s) (parse_line (c ∷ s)) (parse_lines lines)

    unfoldable pub parse_block : DataBlock → ListResult A
    parse_block block = parse_lines block.lines
