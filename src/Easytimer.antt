-- ===== src/Easytimer.antt =====
-- easytimer/Timer.cpp, and the timers of nanoraft/RaftServer.cpp.
use raft_server.Prelude.{
  Bool, Option, Result, [], false, if◌then◌else◌, none, some, true, ℕ, ◌==◌, ◌∷◌,
}
use raft_server.Map.{find, insert}
use raft_server.Nanoraft.Broadcast.{become_candidate, broadcast_append_entries}
use raft_server.Eventloop.Channel.{
  Callback, new_channel, enable_read, disable_write, send_append_entries_callback,
  heart_beat_timeout_callback, apply_log_callback,
}
use raft_server.Env.{Env}
use raft_server.State.{Timer, RaftServer}

abbrev pub follower_heartbeat_timer : ℕ
follower_heartbeat_timer = 0

abbrev pub follower_apply_log_timer : ℕ
follower_apply_log_timer = 1

abbrev pub leader_heartbeat_timer : ℕ
leader_heartbeat_timer = 2

-- one branch of `Timer::Timer`, where timerfd_settime succeeds or not
abbrev arm : Bool → ℕ → ℕ → Callback → Timer → Timer
arm set value interval callback t = record t {
  value = value;
  interval = interval;
  settime = (value, interval) ∷ t.settime;
  channel =
      if set
      then enable_read (disable_write (record t.channel { read_callback = some callback }))
      else t.channel;
}

abbrev unset_timer : ℕ → ℕ → Timer
unset_timer type fd = record {
  type = type;
  is_run = false;
  is_init = true;
  value = 0;
  interval = 0;
  channel = new_channel fd false;
  settime = [];
}

-- Timer::Timer, and `Init`, which ties the channel to the timer. `set` is whether timerfd_settime
-- succeeds. An fd of -1 leaves a timer that is not initialised, which has no channel to speak of.
unfoldable pub new_timer : Option ℕ → Bool → ℕ → ℕ → Timer
unfolding enable_read disable_write
new_timer none set expire type = record (unset_timer type 0) { is_init = false }
new_timer (some fd) set expire type =
    let t = unset_timer type fd in
    let armed =
      if type == leader_heartbeat_timer
      then arm set expire expire send_append_entries_callback t
      else if type == follower_heartbeat_timer
      then arm set expire 0 heart_beat_timeout_callback t
      else if type == follower_apply_log_timer
      then arm set expire expire apply_log_callback t
      else t in
    record armed { channel = record armed.channel { tied = true } }

-- Timer::FreshTime. The argument is not read: the timer is set to what it was made with.
abbrev pub timer_fresh_time : ℕ → Timer → Timer
timer_fresh_time expire t = record t { settime = (t.value, t.interval) ∷ t.settime }

-- RaftServer::FreshTime. `[]` puts a null pointer under a key that is not there.
abbrev fresh_found : Option (Option Timer) → ℕ → RaftServer → RaftServer
fresh_found none i s = record s { timers = insert i none s.timers }
fresh_found (some none) i s = s
fresh_found (some (some t)) i s =
    if i == follower_heartbeat_timer
    then record s { timers = insert i (some (timer_fresh_time 10 t)) s.timers }
    else if i == leader_heartbeat_timer
    then record s { timers = insert i (some (timer_fresh_time 20 t)) s.timers }
    else s

unfoldable pub fresh_time : ℕ → RaftServer → RaftServer
fresh_time i s = fresh_found (find i s.timers) i s

-- Timer::SendAppendEntriesCallback
unfoldable pub send_append_entries_timeout : Env → Timer → RaftServer → Result RaftServer
send_append_entries_timeout env t s =
    broadcast_append_entries env true
      (record s { timers = insert t.type (some (record t { is_run = true })) s.timers })

-- Timer::HeartBeatTimeoutCallback; `BroadCastRequestVote` only prints
unfoldable pub heart_beat_timeout : RaftServer → RaftServer
unfolding become_candidate
heart_beat_timeout s = become_candidate s

-- Timer::ApplyLogCallback, which only prints
abbrev pub apply_log_timeout : RaftServer → RaftServer
apply_log_timeout s = s
