-- ===== src/State.antt =====
-- The state of a process: the server object, the connections that it owns, and what was handed to
-- the kernel.
use raft_server.Prelude.{Bool, Bytes, List, Option, [], if◌then◌else◌, none, some, ℕ, ◌==◌, ◌∷◌}
use raft_server.Map.{Map, insert}
use raft_server.Protocol.{Entry}
use raft_server.Eventloop.Channel.{Channel}
use raft_server.Nanoraft.Proxy.{Role, Proxy}
use raft_server.Nanoraft.LogEntry.{LogEntry}
use raft_server.Env.{Db}

-- net/Conn.h. `id` is the identity of the object. A buffer holds the bytes below its size; `proxy` is
-- the weak pointer to the proxy, by its key: a proxy is never taken out of its map.
pub record Conn : Type 0 where
  pub id : ℕ
  pub fd : ℕ
  pub in_buffer : Bytes
  pub out_buffer : Bytes
  pub channel : Channel
  pub proxy : Option ℕ
  pub raft_port : ℕ
  pub addr : Bytes
  pub http_port : ℕ
  pub join_port : ℕ
  pub join_addr : Bytes
  pub node_id : ℕ

-- easytimer/Timer.h. `settime` is the calls of timerfd_settime, (value, interval), the last one first.
pub record Timer : Type 0 where
  pub type : ℕ
  pub is_run : Bool
  pub is_init : Bool
  pub value : ℕ
  pub interval : ℕ
  pub channel : Channel
  pub settime : List (ℕ × ℕ)

-- The kernel's side. `sends n` is the answer to the call number n of send(2): none for -1, or how
-- many bytes it takes at most. `wire` is the bytes that it took, `closed` the calls of close(2).
pub record Net : Type 0 where
  pub sends : ℕ → Option ℕ
  pub calls : ℕ
  pub wire : List (ℕ × Bytes)
  pub closed : List ℕ

-- nanoraft/RaftServer.h. A value of `proxies` or `timers` is none for a null pointer.
pub record RaftServer : Type 0 where
  pub current_term : ℕ
  pub voted_for : ℕ
  pub commit_index : ℕ
  pub last_applied : ℕ
  pub role : Role
  pub log_base : ℕ
  pub entry_base : ℕ
  pub leader : Option ℕ
  pub proxies : Map (Option Proxy)
  pub logs : List LogEntry
  pub entries : List Entry
  pub conns : Map Conn
  pub server_channel : Channel
  pub state_db : Db
  pub entries_db : Db
  pub cfg_log_index : ℕ
  pub timers : Map (Option Timer)
  pub next_conn : ℕ
  pub net : Net

abbrev pub set_conn : ℕ → Conn → RaftServer → RaftServer
set_conn fd c s = record s { conns = insert fd c s.conns }

abbrev pub set_proxy : ℕ → Proxy → RaftServer → RaftServer
set_proxy id p s = record s { proxies = insert id (some p) s.proxies }

-- `lock` on a weak pointer to a connection: the fd under which the server still owns the object
unfoldable pub lock_conn : ℕ → Map Conn → Option ℕ
lock_conn id [] = none
lock_conn id ((fd, c) ∷ m) = if id == c.id then some fd else lock_conn id m
