-- ===== src/Eventloop/Channel.antt =====
-- eventloop/Channel.h, Channel.cpp, and `EPoller::UpdateChannel` of EPoller.cpp.
-- An event mask is made of (EPOLLIN | EPOLLPRI) and EPOLLOUT only, so it is two flags.
pub mod Mirror
use raft_server.Prelude.{
  Bool, List, Option, [], false, if◌then◌else◌, none, not, true, ℕ, ◌||◌, ◌∷◌,
}

pub record Events : Type 0 where
  pub read : Bool
  pub write : Bool

abbrev pub none_event : Events
none_event = record { read = false; write = false }

-- iIsNew, iIsAdded, iIsDeleted
pub data Status : Type 0 where
  is_new is_added is_deleted : Status

-- EPOLL_CTL_ADD, EPOLL_CTL_MOD, EPOLL_CTL_DEL
pub data CtlOp : Type 0 where
  ctl_add ctl_mod ctl_del : CtlOp

-- the functions that the program binds as callbacks
pub data Callback : Type 0 where
  recv_callback send_callback close_callback accepted_callback : Callback
  tcp_accept_callback : Callback
  send_append_entries_callback heart_beat_timeout_callback apply_log_callback : Callback

-- `ctl` is the calls of epoll_ctl that were made for the channel, the last one first.
pub record Channel : Type 0 where
  pub fd : ℕ
  pub status : Status
  pub events : Events
  pub is_server_channel : Bool
  pub tied : Bool
  pub read_callback : Option Callback
  pub write_callback : Option Callback
  pub close_callback : Option Callback
  pub error_callback : Option Callback
  pub ctl : List (CtlOp × Events)

-- Channel::Channel
abbrev pub new_channel : ℕ → Bool → Channel
new_channel fd server = record {
  fd = fd;
  status = is_new;
  events = none_event;
  is_server_channel = server;
  tied = false;
  read_callback = none;
  write_callback = none;
  close_callback = none;
  error_callback = none;
  ctl = [];
}

abbrev pub is_none_event : Channel → Bool
is_none_event c = not (c.events.read || c.events.write)

-- EPoller::UpdateToEpoll
abbrev pub update_to_epoll : CtlOp → Channel → Channel
update_to_epoll op c = record c { ctl = (op, c.events) ∷ c.ctl }

abbrev update_added : Channel → Channel
update_added c =
    if is_none_event c
    then record (update_to_epoll ctl_del c) { status = is_deleted }
    else update_to_epoll ctl_mod c

abbrev update_by_status : Status → Channel → Channel
update_by_status is_new c = update_to_epoll ctl_add (record c { status = is_added })
update_by_status is_deleted c = update_to_epoll ctl_add (record c { status = is_added })
update_by_status is_added c = update_added c

-- EPoller::UpdateChannel
unfoldable pub update_channel : Channel → Channel
update_channel c = update_by_status c.status c

unfoldable pub enable_read : Channel → Channel
unfolding update_channel
enable_read c =
    update_channel (record c { events = record { read = true; write = c.events.write } })

unfoldable pub enable_write : Channel → Channel
unfolding update_channel
enable_write c =
    update_channel (record c { events = record { read = c.events.read; write = true } })

unfoldable pub disable_write : Channel → Channel
unfolding update_channel
disable_write c =
    update_channel (record c { events = record { read = c.events.read; write = false } })

unfoldable pub disable_read : Channel → Channel
unfolding update_channel
disable_read c =
    update_channel (record c { events = record { read = false; write = c.events.write } })

unfoldable pub disable_all : Channel → Channel
unfolding update_channel
disable_all c = update_channel (record c { events = none_event })
