-- ===== src/Examples.antt =====
-- The programs of examples/ that have logic of their own.
pub mod Ordering
pub mod Echo
pub mod Slots
pub mod Variants
pub mod Sending
pub mod Replies
pub mod Connecting
pub mod Stages
pub mod Frames
pub mod Exchange
pub mod Ceiling
pub mod Proc
pub mod Stats
pub mod Watch
pub mod Raw
pub mod Rung
pub mod Between
