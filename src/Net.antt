-- ===== src/Net.antt =====
-- net/: the connections.
pub mod WellFormed
pub mod Alike
pub mod Socket
pub mod Send
pub mod Server
pub mod Calls
pub mod Connect
pub mod Events
