-- ===== src/Lib.antt =====
-- rust-nntp is a news reader in layers: crates/nntp-proto reads and writes the text of the
-- protocol and does no I/O, crates/nntp-client frames it on a socket and keeps the session, and
-- crates/nntp-tui is the reader, which keeps what has been read in `.newsrc` files.
--
-- The files of this library, and the code that each models:
--
--   Prelude: the shared names, tests, list functions, `u64` arithmetic, and (Prelude/Text,
--     Prelude/Decimal) the functions of `str`, byte slices and `u64` that the program calls;
--     Prelude/SortedMap is `BTreeMap<String, V>` as a list of entries in order.
--   Proto/Block: crates/nntp-proto/src/block.rs, and `split_lines` of headers.rs. A `DataBlock` is
--     the list of its lines; `parse`, `push_raw_line`, `to_bytes`, `split_head_body` are the methods.
--   Proto/Command: crates/nntp-proto/src/command.rs. `Command` is the enum, `to_wire` the encoder; the
--     UTC date of NEWGROUPS is chrono's: its type, and what `format` writes for a pattern, are parameters.
--   Proto/Wildmat: `Wildmat::matches` and `matches_one` of command.rs.
--   Proto/Spec: crates/nntp-proto/src/spec.rs: `ArticleSpec`, `Range`, `RangeOrId`.
--   Proto/Response: crates/nntp-proto/src/response.rs: `StatusLine` and the classes of codes.
--   Proto/Group: crates/nntp-proto/src/group.rs: `GroupSummary` and `PostingStatus`.
--   Proto/Names: the checks of `MessageId` (message_id.rs), `GroupName` (group.rs), `HeaderName`
--     (headers.rs) and `Wildmat` (command.rs); the value that each wraps is its text.
--   Proto/List, Proto/Capabilities: crates/nntp-proto/src/list.rs and capabilities.rs, with
--     `decode_8bit_lossy` of mime.rs, whose decoder of Windows-1252 is a parameter, as is the date that
--     chrono makes of a time stamp.
--   Proto/OverviewFmt: `OverviewField` and `OverviewFmt` of crates/nntp-proto/src/overview.rs.
--   Proto/Subject, Proto/Thread: crates/nntp-proto/src/thread.rs. Proto/Subject is `normalise_subject`;
--     Proto/Thread has the methods of `Arena` that make and link containers, and Proto/Thread/Roots
--     `roots`, `first_article` and `group_by_subject`. `linked` and `grouped` are the first steps of
--     `thread`. The record of overview.rs is in Proto/Thread.
--   Proto/Error, Proto/Utf8: error.rs, the encoding of characters that `len` and `bytes` go by, and
--     `String::from_utf8_lossy`.
--   Client/Connection: crates/nntp-client/src/connection.rs and limits.rs. `Connection` holds the
--     unconsumed part of the buffer and the reads to come; `read_line`, `read_block_streaming`,
--     `read_block` and `send_block` are the methods; Client/Connection/Commands has `send`,
--     `read_status` and `command`.
--   ReadState/Set: crates/nntp-tui/src/readstate/set.rs. `ReadSet` is the vector of ranges, with a
--     function for each method; ReadState/Set/Newsrc has its parser and its printer.
--   ReadState/Store: crates/nntp-tui/src/readstate/store.rs. `ReadStore` holds the sets of the groups,
--     `load` and `to_newsrc` are the methods, ReadState/Store/File has `save` and the name of the file.
--   Tests: runs of the definitions, and instances of the theorems.
--
-- Text is a list of code points or octets. A `&mut self` method returns the new value. `u64` and
-- `usize` operations wrap around (Prelude/Words). `binary_search_by`, `partition_point` and
-- `memchr` are modelled by their documented results. Printing a number takes fuel for twenty
-- digits, which every 64-bit number fits. The loop of `matches_one` takes fuel
-- for as many stars as the pattern has characters. Stripping a subject takes fuel for as
-- many rounds as it has characters, and each round takes one off. Cutting a range into pieces takes
-- fuel for as many rounds as it has numbers. Reading a block takes fuel for one round more than the
-- stream has octets, and each round but the last reads an octet at least.
--
-- The files of a store are the file itself and the temporary one; what `metadata` and `read` answer,
-- which call of `save` fails, and what a failed write leaves, are arguments. The socket is the list of the reads that it will answer, failing ones included; a write that
-- fails, and what each round sees of the cancellation flag, are arguments. `tracing` calls leave no
-- trace in the model. Not modelled: terminals and drawing, configuration files and the command
-- line, TLS, name resolution and time-outs, and the charset tables of MIME decoding.
mod Prelude
pub mod Proto
pub mod Client
pub mod ReadState
mod Tests
