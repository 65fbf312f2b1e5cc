-- ===== src/Protocol.antt =====
-- protocol/proto/api.proto: the messages, as the generated classes hold them.
use raft_server.Prelude.{Bool, Bytes, List, false, true, ℕ}

-- api::entry::entrytype
pub data EntryType : Type 0 where
  normal cfgadd cfgrem : EntryType

-- api::entry
pub record Entry : Type 0 where
  pub type : EntryType
  pub term : ℕ
  pub nodeid : ℕ
  pub port : ℕ
  pub host : Bytes
  pub write_it : ℕ

abbrev pub is_cfgadd : EntryType → Bool
is_cfgadd cfgadd = true
is_cfgadd _ = false

abbrev pub is_cfgrem : EntryType → Bool
is_cfgrem cfgrem = true
is_cfgrem _ = false

-- 257
pub record HandshakeQ : Type 0 where
  pub raftport : ℕ
  pub httpport : ℕ
  pub nodeid : ℕ

-- 258
pub record HandshakeR : Type 0 where
  pub result : Bool
  pub leaderhost : Bytes
  pub leaderraftport : ℕ

-- 259
pub record AppendEntriesQ : Type 0 where
  pub term : ℕ
  pub prelogindex : ℕ
  pub prelogterm : ℕ
  pub leadercommit : ℕ
  pub entries : List Entry

-- 260
pub record AppendEntriesR : Type 0 where
  pub term : ℕ
  pub success : Bool
  pub isheartbeat : Bool

-- 261
pub record RequestVoteQ : Type 0 where
  pub term : ℕ
  pub candidate_id : ℕ
  pub last_log_index : ℕ
  pub last_log_term : ℕ

-- 262
pub record RequestVoteR : Type 0 where
  pub term : ℕ
  pub votegranted : Bool

pub data Message : Type 0 where
  handshake_q : HandshakeQ → Message
  handshake_r : HandshakeR → Message
  appendentries_q : AppendEntriesQ → Message
  appendentries_r : AppendEntriesR → Message
  requestvote_q : RequestVoteQ → Message
  requestvote_r : RequestVoteR → Message

-- the message classes, in the order in which `Mod::LoadMsg` registers them
pub data Kind : Type 0 where
  handshake_q handshake_r appendentries_q appendentries_r requestvote_q requestvote_r : Kind
