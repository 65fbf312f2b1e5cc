-- ===== src/Net/Events.antt =====
-- eventloop/Channel.cpp (`HandleEvent`), net/Conn.cpp (`RecvCallback`) and eventloop/EventLoop.cpp:
-- what an event runs. An object that is gone is not read: that is the fault `dangling`.
pub mod Dangling
pub mod Kept
pub mod Elections
use raft_server.Prelude.{
  Bool, Bytes, List, Option, Result, [], dangling, fault, if◌then◌else◌, length, ltb, none, ok,
  overflow, some, ℕ, ◌&&◌, ◌++◌, ◌+◌, ◌==◌, ◌>>=◌, ◌||◌, ◌∷◌,
}
use raft_server.Map.{find}
use raft_server.Eventloop.Channel.{Channel, Callback}
use raft_server.Easytimer.{send_append_entries_timeout, heart_beat_timeout, apply_log_timeout}
use raft_server.Net.Send.{buffer_size, send_callback}
use raft_server.Net.Server.{close_callback}
use raft_server.Net.Connect.{Accept, Connect, tcp_accept, connect_accepted}
use raft_server.Mod.Arrived.{handle_arrived_msg}
use raft_server.Env.{Env}
use raft_server.State.{Conn, Timer, RaftServer, set_conn}

-- what recv(2) returns
pub data Recv : Type 0 where
  received : Bytes → Recv
  end_of_file : Recv
  recv_error : Recv

-- Conn::RecvCallback. recv may store 1440 bytes behind what the buffer holds.
unfoldable pub recv_callback : Env → Recv → ℕ → RaftServer → Result RaftServer
recv_callback env end_of_file fd s = close_callback fd s
recv_callback env recv_error fd s = ok s
recv_callback env (received bytes) fd s = elim (find fd s.conns) [
  | none ↦ ok s
  | some c ↦
      if ltb buffer_size (length c.in_buffer + length bytes)
      then fault overflow
      else handle_arrived_msg env fd (set_conn fd (record c { in_buffer = c.in_buffer ++ bytes }) s)
]

-- EPOLLHUP, EPOLLERR, (EPOLLIN | EPOLLPRI), EPOLLOUT
pub record Revents : Type 0 where
  pub hup : Bool
  pub err : Bool
  pub readable : Bool
  pub writable : Bool

-- what the kernel answers to the calls that the callbacks of one event make
pub record Answers : Type 0 where
  pub recv : Recv
  pub connect : Connect
  pub accepts : List Accept

-- a callback of a connection
unfoldable pub run_conn_callback :
    Env → Answers → Option Callback → ℕ → RaftServer → Result RaftServer
run_conn_callback env a none fd s = ok s
run_conn_callback env a (some Callback.recv_callback) fd s = recv_callback env a.recv fd s
run_conn_callback env a (some Callback.send_callback) fd s = ok (send_callback fd s)
run_conn_callback env a (some Callback.close_callback) fd s = close_callback fd s
run_conn_callback env a (some Callback.accepted_callback) fd s = connect_accepted env a.connect fd s
run_conn_callback env a (some _) fd s = ok s

-- the connection that a channel belongs to, if it still is the object `id`
unfoldable pub live_conn : ℕ → ℕ → RaftServer → Result Conn
live_conn id fd s = elim (find fd s.conns) [
  | none ↦ fault dangling
  | some c ↦ if id == c.id then ok c else fault dangling
]

-- one line of `HandleEvent`: it reads the event mask of the channel, then its callback
unfoldable pub event_line :
    Env → Answers → Bool → (Channel → Option Callback) → ℕ → ℕ → RaftServer → Result RaftServer
unfolding live_conn run_conn_callback
event_line env a flag callback id fd s = do
  c ← live_conn id fd s
  if flag then run_conn_callback env a (callback c.channel) fd s else ok s

-- Channel::HandleEvent, of the channel of a connection
unfoldable pub handle_conn_event : Env → Answers → Revents → ℕ → ℕ → RaftServer → Result RaftServer
unfolding live_conn event_line
handle_conn_event env a r id fd s = do
  c ← live_conn id fd s
  if c.channel.is_server_channel || c.channel.tied
      then (do
        s1 ← event_line env a r.hup (λ ch. ch.close_callback) id fd s
        s2 ← event_line env a r.err (λ ch. ch.error_callback) id fd s1
        s3 ← event_line env a r.readable (λ ch. ch.read_callback) id fd s2
        event_line env a r.writable (λ ch. ch.write_callback) id fd s3)
      else ok s

unfoldable pub run_timer_callback : Env → Option Callback → Timer → RaftServer → Result RaftServer
run_timer_callback env (some Callback.send_append_entries_callback) t s =
    send_append_entries_timeout env t s
run_timer_callback env (some Callback.heart_beat_timeout_callback) t s = ok (heart_beat_timeout s)
run_timer_callback env (some Callback.apply_log_callback) t s = ok (apply_log_timeout s)
run_timer_callback env _ t s = ok s

-- a channel that was active when epoll_wait returned
pub data Event : Type 0 where
  server_event : Revents → Answers → Event
  conn_event : ℕ → ℕ → Revents → Answers → Event
  timer_event : ℕ → Revents → Event

-- `HandleEvent` of a timer's channel, which has a read callback only
abbrev pub timer_found : Env → Option (Option Timer) → Revents → RaftServer → Result RaftServer
timer_found env (some (some t)) r s =
    if r.readable && t.channel.tied
    then run_timer_callback env t.channel.read_callback t s
    else ok s
timer_found env _ r s = fault dangling

unfoldable pub handle_event : Env → Event → RaftServer → Result RaftServer
unfolding handle_conn_event run_timer_callback
handle_event env (server_event r a) s = ok (if r.readable then tcp_accept a.accepts s else s)
handle_event env (conn_event id fd r a) s = handle_conn_event env a r id fd s
handle_event env (timer_event i r) s = timer_found env (find i s.timers) r s

-- the inner loop of `EventLoop::Loop`, over the active channels of one poll
unfoldable pub handle_events : Env → List Event → RaftServer → Result RaftServer
handle_events env [] s = ok s
handle_events env (e ∷ es) s = handle_event env e s >>= handle_events env es

-- EventLoop::Loop, over the polls that are made before `StopLoop`
unfoldable pub loop : Env → List (List Event) → RaftServer → Result RaftServer
loop env [] s = ok s
loop env (p ∷ ps) s = handle_events env p s >>= loop env ps
