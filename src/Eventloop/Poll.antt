-- ===== src/Eventloop/Poll.antt =====
-- eventloop/EPoller.cpp, `Poll`, and eventloop/EventLoop.cpp: from what epoll_wait gives to the events
-- that the loop handles.
use raft_server.Prelude.{
  Bool, List, Result, [], false, fault, if◌then◌else◌, ok, refl, true, ℕ, ◌%◌, ◌++◌, ◌/◌, ◌==◌,
  ◌>>=◌, ◌||◌, ◌∷◌, ◌≡◌,
}
use raft_server.State.{RaftServer}
use raft_server.Env.{Env}
use raft_server.Net.Events.{
  Answers, Event, Revents, conn_event, handle_events, loop, server_event, timer_event,
}

-- a channel, as the pointer in an epoll_event
pub data Source : Type 0 where
  server_source : Source
  conn_source : ℕ → ℕ → Source
  timer_source : ℕ → Source

-- an epoll_event: its channel and its mask, with what the kernel answers while it is handled
pub record EpollEvent : Type 0 where
  pub source : Source
  pub mask : ℕ
  pub answers : Answers

-- what epoll_wait returns: some events, none before the time is over, or -1
pub data Waited : Type 0 where
  happened : List EpollEvent → Waited
  timed_out wait_failed : Waited

-- `mask & flag` for a flag of one bit
abbrev pub has_flag : ℕ → ℕ → Bool
has_flag flag mask = mask / flag % 2 == 1

-- EPOLLIN, EPOLLPRI, EPOLLOUT, EPOLLERR and EPOLLHUP are 1, 2, 4, 8 and 16.
abbrev pub revents_of : ℕ → Revents
revents_of mask = record {
  hup = has_flag 16 mask;
  err = has_flag 8 mask;
  readable = has_flag 1 mask || has_flag 2 mask;
  writable = has_flag 4 mask;
}

abbrev pub event_of : Source → Revents → Answers → Event
event_of server_source r a = server_event r a
event_of (conn_source id fd) r a = conn_event id fd r a
event_of (timer_source i) r a = timer_event i r

-- EPoller::FillActiveChannels, behind the channels that are active already
unfoldable pub fill_active_channels : List EpollEvent → List Event → List Event
fill_active_channels [] active = active
fill_active_channels (e ∷ es) active =
    fill_active_channels es (active ++ (event_of e.source (revents_of e.mask) e.answers ∷ []))

-- EPoller::Poll
unfoldable pub poll : Waited → List Event → List Event
unfolding fill_active_channels
poll (happened es) active = fill_active_channels es active
poll timed_out active = active
poll wait_failed active = active

-- EventLoop::Loop over what each epoll_wait returns, with whether `StopLoop` was called before the
-- next test of the flag. A loop that is not stopped goes on after the last one.
unfoldable pub event_loop : Env → List (Waited × Bool) → RaftServer → Result RaftServer
unfolding poll
event_loop env [] s = ok s
event_loop env ((w, stop) ∷ ws) s = do
  s' ← handle_events env (poll w []) s
  if stop then ok s' else event_loop env ws s'

-- the polls that are made until the loop is stopped
abbrev pub until_stop : List (Waited × Bool) → List (List Event)
until_stop [] = []
until_stop ((w, stop) ∷ ws) = poll w [] ∷ (if stop then [] else until_stop ws)

bind_same :
    (r : Result RaftServer) (f g : RaftServer → Result RaftServer)
    → ((s : RaftServer) → f s ≡ g s)
    → (r >>= f) ≡ (r >>= g)
bind_same (ok s) f g same = same s
bind_same (fault e) f g same = refl

-- The loop handles the events of the polls that are made until it is stopped.
pub event_loop-loop :
    (env : Env) (ws : List (Waited × Bool)) (s : RaftServer)
    → event_loop env ws s ≡ loop env (until_stop ws) s
unfolding event_loop loop
event_loop-loop env [] s = refl
event_loop-loop env ((w, true) ∷ ws) s = refl
event_loop-loop env ((w, false) ∷ ws) s =
    bind_same (handle_events env (poll w []) s) (event_loop env ws) (loop env (until_stop ws))
      (event_loop-loop env ws)
