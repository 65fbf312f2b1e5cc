-- ===== src/Replication.antt =====
-- net/Conn.cpp, `SendAppendEntries` and `RecvCallback`, and mod/Mod.cpp: an entry on its way from a
-- leader's log to a follower's.
pub mod Follower
use raft_server.Replication.Follower.{SameLog}
use raft_server.Mod.Arrived.Frames.{cut-frame}
use raft_server.Mod.Api.Input.{in_of}
use raft_server.Mod.Arrived.{Arrived, cut, handle_one, message_kind, watch_output}
use raft_server.Mod.Arrived.Loop.{arrive_one-cut, conn_in_of, handle_one-in_of}
use raft_server.Mod.Api.{Verdict, append_entries_on, judge, update_commit, append_entries_q, proc}
use raft_server.Mod.Api.Follower.{judge-Judged}
use raft_server.Nanoraft.Proxy.{Proxy}
use raft_server.Env.{Env}
use raft_server.Protocol.{AppendEntriesR, Kind, Message}
use raft_server.Net.Send.Stream.{post_on-frame}
use raft_server.Net.Send.{drop_sent, handle_pre_send_msg, kernel_send}
