-- ===== src/Tests/Wire.antt =====
-- Runs of the theorems on the bytes between two nodes, and on events.
use raft_server.Prelude.{
  Bytes, List, [], arith, bad_index, dangling, false, fault, inl, inr, none, ok, refl, some, true,
  ℕ, ◌++◌, ◌∷◌, ◌≡◌,
}
use raft_server.State.{Conn, RaftServer}
use raft_server.Progress.{Progress}
use raft_server.Mod.Api.{handshake_reply, proc}
use raft_server.Net.Server.{close_callback}
use raft_server.Map.{find}
use raft_server.Net.Send.{frame, post_on, send_callback}
use raft_server.Mod.Arrived.Unknown.{handle_one_unknown}
use raft_server.Net.Send.Stream.{post_on-stream, send_callback-stream, stream_of}
use raft_server.Mod.Arrived.Loop.{Handles, arrive-Handles}
use raft_server.Net.Connect.{failed, interrupted, accepted}
use raft_server.Progress.Steps.{loop-Progress}
use raft_server.Net.Events.{
  Answers, Event, Revents, conn_event, handle_conn_event, loop, received, recv_error, server_event,
}
use raft_server.Mod.Api.Input.{in_of, proc-in_of}
use raft_server.Mod.Arrived.Frames.{
  AllPosted, cut_all, cut_all-append, cut_all-frames, frames, prepend,
}
use raft_server.Tests.{conn_on, following, leading, state_of, test_env}
use raft_server.Eventloop.Channel.Mirror.{
  IsMirrored, no_events, no_write, operate_all, operate_all-IsMirrored, to_read, to_write,
}
use raft_server.Mod.Arrived.{arrive, cut, handle_one}
use raft_server.Eventloop.Channel.{new_channel}
use raft_server.Net.Events.Dangling.{close_callback_twice, handle_conn_event-Closes}

-- two messages, and the first bytes of a third
abbrev two_messages : List (ℕ × Bytes)
two_messages = (257, 7 ∷ []) ∷ (259, 8 ∷ 9 ∷ []) ∷ []

abbrev part : Bytes
part = 1 ∷ 1 ∷ 4 ∷ []

second-AllPosted : AllPosted ((259, 8 ∷ 9 ∷ []) ∷ [])
second-AllPosted = (record { id_fits = ground arith; body_fits = ground arith }, tt)

two_messages-AllPosted : AllPosted two_messages
two_messages-AllPosted =
    (record { id_fits = ground arith; body_fits = ground arith }, second-AllPosted)

cut_all-frames_example : cut_all 3 (frames two_messages ++ part) ≡ ok (two_messages, part)
unfolding cut
cut_all-frames_example =
    cut_all-frames 3 two_messages part (ground arith) two_messages-AllPosted refl

-- the first message and a part of the second, and the rest
abbrev first_arrival : Bytes
first_arrival = frame 257 (7 ∷ []) ++ (3 ∷ 1 ∷ [])

abbrev second_arrival : Bytes
second_arrival = 2 ∷ 0 ∷ 0 ∷ 0 ∷ 8 ∷ 9 ∷ []

cut_all-append_example :
    cut_all 20 (first_arrival ++ second_arrival)
    ≡ prepend ((257, 7 ∷ []) ∷ []) (cut_all 9 ((3 ∷ 1 ∷ []) ++ second_arrival))
unfolding cut_all cut
cut_all-append_example =
    cut_all-append 10 20 9 first_arrival second_arrival ((257, 7 ∷ []) ∷ []) (3 ∷ 1 ∷ [])
      (ground arith) (ground arith) (ground arith) refl

-- a connection with two messages in its input, of which the server makes nothing
abbrev spoken : RaftServer
spoken = record leading {
  conns =
      (5, record (conn_on 1 5) { in_buffer = frames ((258, []) ∷ (258, 3 ∷ []) ∷ []) ++ part })
      ∷ [];
}

abbrev heard : RaftServer
heard = state_of leading (arrive test_env 5 20 spoken)

arrive-Handles_example :
    (ms : List (ℕ × Bytes)) × (rest : Bytes) × (cut_all 20
        (frames ((258, []) ∷ (258, 3 ∷ []) ∷ []) ++ part)
      ≡ ok (ms, rest))
    × Handles test_env 5 spoken ms heard
    × (in_of 5 heard ≡ some (5, rest))
    × (cut rest ≡ ok none)
unfolding find arrive raft_server.Mod.Arrived.arrive_one handle_one proc raft_server.Map.insert
arrive-Handles_example =
    arrive-Handles test_env 5 20 spoken (frames ((258, []) ∷ (258, 3 ∷ []) ∷ []) ++ part)
      {t = heard} refl (ground arith) refl

abbrev posted : RaftServer
posted = state_of leading (post_on (conn_on 2 6) 6 258 (1 ∷ []) leading)

post_on-stream_example : stream_of 6 posted ≡ stream_of 6 leading ++ frame 258 (1 ∷ [])
unfolding find post_on
post_on-stream_example = post_on-stream (conn_on 2 6) 6 258 (1 ∷ []) leading posted refl refl refl

abbrev waiting : Conn
waiting = record (conn_on 2 6) { out_buffer = 1 ∷ 2 ∷ 3 ∷ 4 ∷ 5 ∷ 6 ∷ [] }

abbrev behind_waiting : RaftServer
behind_waiting = record leading { conns = (6, waiting) ∷ [] }

send_callback-stream_example :
    stream_of 6 (send_callback 6 behind_waiting) ≡ stream_of 6 behind_waiting
unfolding find
send_callback-stream_example = send_callback-stream 6 waiting behind_waiting refl refl

operate_all-IsMirrored_example :
    IsMirrored (operate_all (no_write ∷ to_read ∷ no_events ∷ to_write ∷ []) (new_channel 5 false))
operate_all-IsMirrored_example =
    operate_all-IsMirrored (no_write ∷ to_read ∷ no_events ∷ to_write ∷ []) 5 false

proc-in_of_example :
    in_of 6 (state_of leading (proc test_env 6 1 (handshake_reply true) leading)) ≡ in_of 6 leading
unfolding find proc
proc-in_of_example =
    proc-in_of test_env 6 1 (handshake_reply true) (conn_on 2 6) leading
      {t = state_of leading (proc test_env 6 1 (handshake_reply true) leading)} refl refl refl

handle_one_unknown_example :
    handle_one test_env 6 (conn_on 2 6) (record { id = 262; body = []; rest = [] }) leading
    ≡ fault bad_index
handle_one_unknown_example =
    handle_one_unknown test_env 6 (conn_on 2 6) (record { id = 262; body = []; rest = [] }) leading
      (inr (ground arith))

abbrev closed_once : RaftServer
closed_once = state_of leading (close_callback 6 leading)

close_callback_twice_example :
    (find 6 closed_once.conns ≡ none) × (closed_once.net.closed ≡ 6 ∷ 6 ∷ [])
unfolding find close_callback raft_server.Map.insert
close_callback_twice_example =
    close_callback_twice 6 (conn_on 2 6) leading {t = closed_once} (ground arith) refl refl refl

abbrev hung_up : Revents
hung_up = record { hup = true; err = false; readable = false; writable = false }

abbrev no_answers : Answers
no_answers = record { recv = recv_error; connect = failed; accepts = [] }

handle_conn_event-Closes_example :
    handle_conn_event test_env no_answers hung_up 2 6 leading ≡ fault dangling
unfolding find
handle_conn_event-Closes_example =
    handle_conn_event-Closes test_env no_answers hung_up 6 (conn_on 2 6) leading refl refl
      (inl (refl, refl))

-- A connection is accepted, and one that is there sends a message.
abbrev polls : List (List Event)
polls =
    (server_event (record { hup = false; err = false; readable = true; writable = false })
        (record { recv = recv_error; connect = failed; accepts = interrupted ∷ accepted 8 [] ∷ [] })
      ∷ conn_event 2 6 (record { hup = false; err = false; readable = true; writable = true })
          (record { recv = received (frame 258 []); connect = failed; accepts = [] })
      ∷ [])
    ∷ []

abbrev looped : RaftServer
looped = state_of following (loop test_env polls leading)

loop-Progress_example : Progress leading looped
unfolding loop raft_server.Net.Events.handle_events raft_server.Net.Events.handle_event find
    raft_server.Net.Connect.tcp_accept raft_server.Map.insert raft_server.Net.Events.recv_callback
    raft_server.Mod.Arrived.handle_arrived_msg raft_server.Mod.Arrived.arrive_one handle_one proc
loop-Progress_example = loop-Progress test_env polls leading {t = looped} refl
