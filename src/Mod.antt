-- ===== src/Mod.antt =====
-- mod/: the messages that arrive, and what is done with them.
pub mod Api
pub mod Arrived
