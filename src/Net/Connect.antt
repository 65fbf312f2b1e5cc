-- ===== src/Net/Connect.antt =====
-- net/Conn.cpp and nanoraft/RaftServer.cpp: how connections come into being.
use raft_server.Prelude.{Bytes, List, Option, Result, [], false, none, ok, some, true, ℕ, ◌+◌, ◌∷◌}
use raft_server.Map.{find, insert}
use raft_server.Eventloop.Channel.{
  Channel, new_channel, enable_read, enable_write, disable_write, recv_callback, send_callback,
  close_callback, accepted_callback, tcp_accept_callback,
}
use raft_server.Easytimer.{new_timer, follower_heartbeat_timer, leader_heartbeat_timer}
use raft_server.Net.Send.{send_handshake_q}
use raft_server.Env.{Env}
use raft_server.State.{Conn, RaftServer, set_conn}

-- the three callbacks that a connection binds
abbrev pub bind_callbacks : Channel → Channel
bind_callbacks c = record c {
  read_callback = some recv_callback;
  write_callback = some send_callback;
  close_callback = some close_callback;
}

-- Conn::Conn, and `Init`, which ties the channel to the connection
unfoldable pub new_conn : ℕ → ℕ → Bytes → Conn
unfolding enable_read disable_write
new_conn id fd addr =
    let channel = enable_read (disable_write (bind_callbacks (new_channel fd false))) in
    record {
      id = id;
      fd = fd;
      in_buffer = [];
      out_buffer = [];
      channel = record channel { tied = true };
      proxy = none;
      raft_port = 0;
      addr = addr;
      http_port = 0;
      join_port = 0;
      join_addr = [];
      node_id = 0;
    }

-- what accept4(2) returns
pub data Accept : Type 0 where
  interrupted : Accept
  accept_failed : Accept
  accepted : ℕ → Bytes → Accept

-- RaftServer::TcpAcceptCallback, over the answers of accept4
unfoldable pub tcp_accept : List Accept → RaftServer → RaftServer
unfolding new_conn
tcp_accept [] s = s
tcp_accept (interrupted ∷ answers) s = tcp_accept answers s
tcp_accept (accept_failed ∷ answers) s = s
tcp_accept (accepted fd addr ∷ answers) s = record s {
  conns = insert fd (new_conn s.next_conn fd addr) s.conns;
  next_conn = s.next_conn + 1;
}

-- what connect(2) returns
pub data Connect : Type 0 where
  connected in_progress failed : Connect

-- Conn::TryConnect
unfoldable pub try_connect : Connect → Bytes → ℕ → ℕ → ℕ → Conn → Conn
unfolding enable_write
try_connect in_progress addr port node raft_port c =
    let c' = record c {
      join_port = port;
      join_addr = addr;
      node_id = node;
      raft_port = raft_port;
    } in
    record c' {
      channel = enable_write (record c.channel { write_callback = some accepted_callback });
    }
try_connect _ addr port node raft_port c = c

-- RaftServer::ConnectToPeer, up to the event loop. `fd` and `timer_fd` are the fds that the kernel
-- gives.
unfoldable pub connect_to_peer :
    Connect → ℕ → Option ℕ → Bytes → ℕ → ℕ → ℕ → RaftServer → RaftServer
unfolding new_conn try_connect new_timer
connect_to_peer answer fd timer_fd addr port node raft_port s = record s {
  conns =
      insert fd (try_connect answer addr port node raft_port (new_conn s.next_conn fd addr))
        s.conns;
  next_conn = s.next_conn + 1;
  timers =
      insert follower_heartbeat_timer (some (new_timer timer_fd true 21 follower_heartbeat_timer))
        s.timers;
}

-- RaftServer::Run, up to the event loop
unfoldable pub run : Option ℕ → RaftServer → RaftServer
unfolding new_timer enable_read
run timer_fd s = record s {
  timers =
      insert leader_heartbeat_timer (some (new_timer timer_fd true 10 leader_heartbeat_timer))
        s.timers;
  server_channel =
      enable_read (record s.server_channel { read_callback = some tcp_accept_callback });
}

-- what `AcceptedCallback` does when its connect succeeds
unfoldable pub accept_connected : Env → ℕ → Conn → RaftServer → Result RaftServer
unfolding send_handshake_q enable_read
accept_connected env fd c s =
    let c' = record c { channel = enable_read (bind_callbacks c.channel) } in
    send_handshake_q env c' fd s

abbrev pub accept_answer : Env → Connect → ℕ → Conn → RaftServer → Result RaftServer
accept_answer env connected fd c s = accept_connected env fd c s
accept_answer env _ fd c s = ok (set_conn fd c s)

-- Conn::AcceptedCallback
unfoldable pub connect_accepted : Env → Connect → ℕ → RaftServer → Result RaftServer
unfolding accept_connected disable_write
connect_accepted env answer fd s = elim (find fd s.conns) [
  | none ↦ ok s
  | some c ↦ accept_answer env answer fd (record c { channel = disable_write c.channel }) s
]
