-- ===== src/Main.antt =====
-- main.cpp: how a process begins, for each of its commands.
pub mod Commands
use raft_server.Prelude.{Bytes, Option, Result, [], none, ok, true, ℕ, ◌>>=◌}
use raft_server.Eventloop.Channel.{new_channel}
use raft_server.Nanoraft.Proxy.{follower}
use raft_server.Nanoraft.Log.{append_cfg_log}
use raft_server.Nanoraft.Peers.{load_entries}
use raft_server.Nanoraft.Broadcast.{become_leader}
use raft_server.Net.Connect.{Connect, connect_to_peer, run}
use raft_server.Env.{Env, Db}
use raft_server.State.{RaftServer}

-- RaftServer::RaftServer, over the databases that it opens and the fd that it listens on
unfoldable pub new_server : Db → Db → ℕ → (ℕ → Option ℕ) → RaftServer
new_server state_db entries_db fd sends = record {
  current_term = 0;
  voted_for = 0;
  commit_index = 0;
  last_applied = 0;
  role = follower;
  log_base = 0;
  entry_base = 0;
  leader = none;
  proxies = [];
  logs = [];
  entries = [];
  conns = [];
  server_channel = new_channel fd true;
  state_db = state_db;
  entries_db = entries_db;
  cfg_log_index = 0;
  timers = [];
  next_conn = 0;
  net = record { sends = sends; calls = 0; wire = []; closed = [] };
}

-- "start"
unfoldable pub start : Env → Bytes → ℕ → ℕ → Option ℕ → RaftServer → Result RaftServer
unfolding become_leader append_cfg_log run
start env host raft_port node timer_fd s = do
  s' ← become_leader env s
  ok (run timer_fd (append_cfg_log env host raft_port node s'))

-- "join"
abbrev pub join : Connect → ℕ → Option ℕ → Bytes → ℕ → ℕ → ℕ → RaftServer → RaftServer
join = connect_to_peer

-- "restart", which ends when the log is loaded
abbrev pub restart : Env → RaftServer → Result RaftServer
restart = load_entries
