-- ===== src/Capability.antt =====
-- src/capability.rs: the sending capability.
pub mod Gate
pub mod Send
pub mod Registry
pub mod Wait
pub mod Watch
pub mod Lazy
mod Tests
