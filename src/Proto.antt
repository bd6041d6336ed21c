-- ===== src/Proto.antt =====
-- crates/nntp-proto: the protocol layer, which reads and writes text and touches no socket.
pub mod Error
pub mod Utf8
pub mod Wildmat
pub mod Block
pub mod Names
pub mod Spec
pub mod Command
pub mod Group
pub mod Response
pub mod Subject
pub mod Thread
pub mod List
pub mod Capabilities
pub mod OverviewFmt
