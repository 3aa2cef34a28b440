-- ===== src/Wire.antt =====
-- src/wire.rs: the only module that talks to the kernel.
pub mod Sizes
pub mod Limits
pub mod Send
pub mod Recv
pub mod Reactive
pub mod Hangup
pub mod Setup
pub mod Taking
mod Tests
