-- ===== src/Frame.antt =====
-- src/frame.rs: building frames, and receiving them byte by byte.
pub mod Escapes
pub mod Wire
pub mod Send
pub mod Receive
pub mod RoundTrip
pub mod Corrupted
pub mod Address
pub mod Checked
pub mod Chunks
pub mod Panics
mod Runs
