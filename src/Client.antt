-- ===== src/Client.antt =====
-- crates/nntp-client: the connection over which the protocol is spoken.
pub mod Connection
