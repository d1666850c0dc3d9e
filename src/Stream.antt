-- ===== src/Stream.antt =====
-- Streams (src/transport/stream): flow control, final sizes, reassembly, states and identifiers.
pub mod Flow
pub mod FinalSize
pub mod Limits
pub mod Reassembly
pub mod States
pub mod Ids
mod Tests
