-- ===== src/Eventloop/Channel/Mirror.antt =====
-- eventloop/Channel.cpp and EPoller.cpp: what epoll is told of a channel, against what epoll_ctl takes.
use raft_server.Prelude.{Bool, List, Option, [], arith, none, refl, some, ℕ, ◌∷◌, ◌≡◌}
use raft_server.Eventloop.Channel.{
  Channel, CtlOp, Events, Status, ctl_add, ctl_del, ctl_mod, disable_all, disable_read,
  disable_write, enable_read, enable_write, is_added, is_deleted, is_new, new_channel,
  update_channel,
}

-- epoll_ctl on an fd that is registered with some events or not; none is its failure.
abbrev pub epoll_ctl : CtlOp → Events → Option Events → Option (Option Events)
epoll_ctl ctl_add events none = some (some events)
epoll_ctl ctl_add events (some old) = none
epoll_ctl ctl_mod events none = none
epoll_ctl ctl_mod events (some old) = some (some events)
epoll_ctl ctl_del events none = none
epoll_ctl ctl_del events (some old) = some none

-- what epoll holds after the calls for a channel; none where one of them fails
abbrev pub registered : List (CtlOp × Events) → Option (Option Events)
registered [] = some none
registered ((op, events) ∷ calls) = elim (registered calls) [
  | none ↦ none
  | some state ↦ epoll_ctl op events state
]

abbrev mirror : Status → Events → Option Events
mirror is_added events = some events
mirror is_new events = none
mirror is_deleted events = none

-- No call has failed, and epoll watches the channel's events exactly while it is marked as added.
abbrev pub IsMirrored : Channel → Type 0
IsMirrored c = registered c.ctl ≡ some (mirror c.status c.events)

update_channel-IsMirrored :
    (c : Channel) (events : Events)
    → IsMirrored c
    → IsMirrored (update_channel (record c { events = events }))
unfolding update_channel
update_channel-IsMirrored c events h = ground arith

-- the operations of a channel
pub data Operation : Type 0 where
  to_read to_write no_read no_write no_events : Operation

abbrev pub operate : Operation → Channel → Channel
operate to_read c = enable_read c
operate to_write c = enable_write c
operate no_read c = disable_read c
operate no_write c = disable_write c
operate no_events c = disable_all c

pub operate-IsMirrored : (op : Operation) (c : Channel) → IsMirrored c → IsMirrored (operate op c)
unfolding enable_read enable_write disable_read disable_write disable_all
operate-IsMirrored to_read c h = update_channel-IsMirrored c _ h
operate-IsMirrored to_write c h = update_channel-IsMirrored c _ h
operate-IsMirrored no_read c h = update_channel-IsMirrored c _ h
operate-IsMirrored no_write c h = update_channel-IsMirrored c _ h
operate-IsMirrored no_events c h = update_channel-IsMirrored c _ h

abbrev pub operate_all : List Operation → Channel → Channel
operate_all [] c = c
operate_all (op ∷ ops) c = operate_all ops (operate op c)

operate_all_keeps :
    (ops : List Operation) (c : Channel) → IsMirrored c → IsMirrored (operate_all ops c)
operate_all_keeps [] c h = h
operate_all_keeps (op ∷ ops) c h = operate_all_keeps ops (operate op c) (operate-IsMirrored op c h)

-- Whatever a new channel is told to watch, in whatever order: no call of epoll_ctl fails, and epoll
-- watches exactly the channel's events while it is marked as added, and nothing else.
pub operate_all-IsMirrored :
    (ops : List Operation) (fd : ℕ) (server : Bool)
    → IsMirrored (operate_all ops (new_channel fd server))
operate_all-IsMirrored ops fd server = operate_all_keeps ops (new_channel fd server) refl
