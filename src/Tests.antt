-- ===== src/Tests.antt =====
-- The theorems at concrete inputs, and runs of the definitions.
mod Command
mod ReadSet
mod Session
mod Store
mod Wildmat
mod Wire
mod Thread
mod Listing
