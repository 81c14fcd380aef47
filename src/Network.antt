-- ===== src/Network.antt =====
-- src/network/: connections and listeners, and the events of their descriptors.
pub mod Structs
pub mod Invariant
pub mod Kept
pub mod Connection
pub mod Listener
pub mod Dispatch
pub mod Tests
