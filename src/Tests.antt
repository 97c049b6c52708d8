-- ===== src/Tests.antt =====
-- The theorems of the library at concrete inputs, and runs of the model.
pub mod Queues
pub mod Texts
pub mod Pictures
pub mod Links
pub mod Slots
pub mod Engines
pub mod Signals
pub mod Callbacks
pub mod Sessions
pub mod Intakes
pub mod Streams
pub mod Transports
pub mod Clients
