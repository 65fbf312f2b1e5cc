-- ===== src/Tests.antt =====
-- Concrete servers, connections and messages on which the theorems are run.
pub mod Log
pub mod Wire
pub mod Nodes
pub mod Redis
pub mod Restart
pub mod Program
pub mod Replication
pub mod Conns
pub mod Socket
use raft_server.Prelude.{Result, [], false, fault, none, ok, refl, some, true, ℕ, ◌∷◌}
use raft_server.Nanoraft.Log.{cfg_entry}
use raft_server.State.{Conn, RaftServer}
use raft_server.Net.Server.{close_callback}
use raft_server.Nanoraft.Proxy.{Proxy, Role, follower, leader, new_proxy}
use raft_server.Env.{Env}
use raft_server.Eventloop.Channel.{Callback, new_channel}
use raft_server.Main.{new_server}
use raft_server.Mod.Api.Entries.{Stores}
use raft_server.Protocol.{AppendEntriesQ, Entry, EntryType, Message}

abbrev plain_entry : Entry
plain_entry = record {
  type = EntryType.normal;
  term = 0;
  nodeid = 0;
  port = 0;
  host = [];
  write_it = 0;
}

abbrev kind_number : Message → ℕ
kind_number (Message.handshake_q q) = 1
kind_number (Message.handshake_r r) = 2
kind_number (Message.appendentries_q q) = 3
kind_number (Message.appendentries_r r) = 4
kind_number (Message.requestvote_q q) = 5
kind_number (Message.requestvote_r r) = 6

-- Messages of one byte, and stores that take every write.
abbrev pub test_env : Env
test_env = record {
  encode = λ m. kind_number m ∷ [];
  decode =
      λ k b. Message.handshake_r (record { result = true; leaderhost = []; leaderraftport = 0 });
  encode_entry = λ e. e.nodeid ∷ e.port ∷ [];
  decode_entry = λ b. plain_entry;
  write_ok = λ db w. true;
  seek = λ db key. [];
  scan = λ db. [];
  scan_ok = λ db. true;
  memory_after = λ b. [];
}

pub test_env-Stores : Stores test_env
test_env-Stores db w = refl

abbrev pub added : ℕ → ℕ → Entry
added term node = cfg_entry term (49 ∷ []) 80 node

-- a proxy that is tied to a connection
abbrev pub proxy_on : ℕ → ℕ → ℕ → Proxy
proxy_on id conn fd = record (new_proxy id) { conn = some conn; conn_fd = some fd }

-- a connection that waits to be handled
abbrev pub conn_on : ℕ → ℕ → Conn
conn_on id fd = record {
  id = id;
  fd = fd;
  in_buffer = [];
  out_buffer = [];
  channel = record (new_channel fd false) {
    tied = true;
    read_callback = some Callback.recv_callback;
    write_callback = some Callback.send_callback;
    close_callback = some Callback.close_callback;
  };
  proxy = none;
  raft_port = 0;
  addr = 49 ∷ [];
  http_port = 0;
  join_port = 0;
  join_addr = [];
  node_id = 0;
}

-- a server of term 3, whose kernel takes four bytes at a time
abbrev pub server : Role → RaftServer
server role = record {
  current_term = 3;
  voted_for = 0;
  commit_index = 0;
  last_applied = 0;
  role = role;
  log_base = 0;
  entry_base = 0;
  leader = none;
  proxies = [];
  logs = [];
  entries = added 3 1 ∷ added 3 2 ∷ added 3 9 ∷ [];
  conns = [];
  server_channel = new_channel 4 true;
  state_db = [];
  entries_db = [];
  cfg_log_index = 0;
  timers = [];
  next_conn = 3;
  net = record { sends = λ n. some 4; calls = 0; wire = []; closed = [] };
}

-- A leader with node 7 over the connection 5, and with a connection 6 of no node.
abbrev pub leading : RaftServer
leading = record (server leader) {
  proxies = (7, some (proxy_on 7 1 5)) ∷ [];
  conns = (5, record (conn_on 1 5) { proxy = some 7 }) ∷ (6, conn_on 2 6) ∷ [];
}

abbrev pub following : RaftServer
following = record (server follower) {
  current_term = 2;
  entries = added 1 1 ∷ [];
  conns = (5, conn_on 1 5) ∷ [];
}

abbrev pub state_of : RaftServer → Result RaftServer → RaftServer
state_of s (ok t) = t
state_of s (fault e) = s

-- Two entries from index 1 on, behind an entry of term 1.
abbrev pub append_two : AppendEntriesQ
append_two = record {
  term = 3;
  prelogindex = 0;
  prelogterm = 1;
  leadercommit = 2;
  entries = added 3 7 ∷ added 3 8 ∷ [];
}
