-- ===== src/ReadState.antt =====
-- crates/nntp-tui/src/readstate: which articles have been read.
pub mod Set
pub mod Store
