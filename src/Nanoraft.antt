-- ===== src/Nanoraft.antt =====
-- nanoraft/: the server, its proxies of the other nodes, and the log.
pub mod Proxy
pub mod LogEntry
pub mod Log
pub mod Comparator
pub mod Peers
pub mod Broadcast
pub mod Commit
