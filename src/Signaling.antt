-- ===== src/Signaling.antt =====
-- The signaling client of src/p2p/src/p2p_signaling.c, as far as it keeps state of its own, and its
-- messages.
pub mod Posts
pub mod Message
pub mod Build
pub mod Candidates
pub mod Dispatch
pub mod Client
pub mod Connect
pub mod Legacy
