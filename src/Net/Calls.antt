-- ===== src/Net/Calls.antt =====
-- net/Conn.cpp: the calls that a connection passes on to its server, or to its channel. The server
-- owns its connections, so its weak pointer never expires under them, and the values for that case
-- (0, -1, false, "") are never given.
use raft_server.Prelude.{Bool, Bytes, Option, Result, false, ℕ, ℤ}
use raft_server.Env.{Env}
use raft_server.Easytimer.{fresh_time}
use raft_server.Eventloop.Channel.{disable_write, enable_write}
use raft_server.Nanoraft.Commit.{change_commit_index, set_commit_index}
use raft_server.Nanoraft.Broadcast.{
  become_follower, broadcast_append_entries, leader_host, set_and_persist_term,
}
use raft_server.Nanoraft.Peers.{add_proxy, proxy_conn_fd}
use raft_server.State.{Conn, RaftServer}
use raft_server.Nanoraft.Log.{
  append_cfg_log, append_log, del_logs_from_index, entry_term_by_index, log_term_by_index,
}

-- Conn::EnableWrite, Conn::DisableWrite
abbrev pub conn_enable_write : Conn → Conn
conn_enable_write c = record c { channel = enable_write c.channel }

abbrev pub conn_disable_write : Conn → Conn
conn_disable_write c = record c { channel = disable_write c.channel }

-- Conn::ProxyConnFd
abbrev pub server_proxy_conn_fd : ℕ → RaftServer → Result (Option ℕ)
server_proxy_conn_fd id s = proxy_conn_fd id s

-- Conn::Server_AddProxy
abbrev pub server_add_proxy : ℕ → RaftServer → Result RaftServer
server_add_proxy id s = add_proxy id s

-- Conn::Server_BecomeFollower
abbrev pub server_become_follower : RaftServer → RaftServer
server_become_follower s = become_follower s

-- Conn::Server_CurrentTerm
abbrev pub server_current_term : RaftServer → ℕ
server_current_term s = s.current_term

-- Conn::Server_SetTerm
abbrev pub server_set_term : Env → ℕ → RaftServer → Result RaftServer
server_set_term env term s = set_and_persist_term env term s

-- Conn::Server_LogTermByIndex
abbrev pub server_log_term_by_index : ℕ → RaftServer → Result ℤ
server_log_term_by_index i s = log_term_by_index i s

-- Conn::Server_EntryTermByIndex
abbrev pub server_entry_term_by_index : ℕ → RaftServer → Result ℤ
server_entry_term_by_index i s = entry_term_by_index i s

-- Conn::Server_CommitIndex
abbrev pub server_commit_index : RaftServer → ℕ
server_commit_index s = s.commit_index

-- Conn::Server_DelLogsFromIndex
abbrev pub server_del_logs_from_index : Env → ℕ → RaftServer → RaftServer
server_del_logs_from_index env i s = del_logs_from_index env i s

-- Conn::Server_AppendLog
abbrev pub server_append_log : ℕ → ℕ → ℕ → RaftServer → RaftServer
server_append_log index term write_it s = append_log index term write_it s

-- Conn::Server_SetCommitIndex
abbrev pub server_set_commit_index : ℕ → RaftServer → RaftServer
server_set_commit_index i s = set_commit_index i s

-- Conn::Server_AppendCfgLog
abbrev pub server_append_cfg_log : Env → Bytes → ℕ → ℕ → RaftServer → RaftServer
server_append_cfg_log env host raft_port node s = append_cfg_log env host raft_port node s

-- Conn::Server_LeaderHost
abbrev pub server_leader_host : RaftServer → Bytes
server_leader_host s = leader_host s

-- Conn::Server_BroadCastAppendEntries
abbrev pub server_broadcast_append_entries : Env → RaftServer → Result RaftServer
server_broadcast_append_entries env s = broadcast_append_entries env false s

-- Conn::Server_FreshTime
abbrev pub server_fresh_time : ℕ → RaftServer → RaftServer
server_fresh_time i s = fresh_time i s

-- Conn::Server_ChangeCommitIndex
abbrev pub server_change_commit_index : RaftServer → Result (Bool × RaftServer)
server_change_commit_index s = change_commit_index s
