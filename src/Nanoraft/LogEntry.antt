-- ===== src/Nanoraft/LogEntry.antt =====
-- nanoraft/RaftLogEntry.h and RaftLogEntry.cpp.
use raft_server.Prelude.{ℕ}

pub data LogEntryType : Type 0 where
  normal add_node remove_node : LogEntryType

pub record LogEntry : Type 0 where
  pub term : ℕ
  pub index : ℕ
  pub type : LogEntryType
  pub write_it : ℕ

-- RaftLogEntry::RaftLogEntry
abbrev pub new_log_entry : ℕ → ℕ → ℕ → LogEntry
new_log_entry index term write_it = record {
  term = term;
  index = index;
  type = normal;
  write_it = write_it;
}
