-- ===== src/Tests/Program.antt =====
-- A run of a whole process: it starts, a node joins, and the timer sends to it.
use raft_server.Prelude.{
  Bool, List, [], false, fault, null_pointer, refl, some, true, ◌++◌, ◌>>=◌, ◌∷◌, ◌≢◌,
}
use raft_server.NullFree.Program.{event_loop-null_pointer}
use raft_server.NullFree.Dispatch.{Classed}
use raft_server.Main.Commands.{Given, run_command, start_command}
use raft_server.Tests.{test_env}
use raft_server.Net.Send.{frame}
use raft_server.Net.Events.{received, recv_error}
use raft_server.Net.Connect.{accepted, failed, in_progress}
use raft_server.Env.{Env}
use raft_server.Main.{new_server}
use raft_server.Protocol.{Kind, Message}
use raft_server.Eventloop.Poll.{
  EpollEvent, Waited, conn_source, event_loop, happened, server_source, timer_source,
}

-- every message that comes has the fields of one that joins node 9, as far as its class has them
abbrev answer_of : Kind → Message
answer_of Kind.handshake_q =
    Message.handshake_q (record { raftport = 80; httpport = 0; nodeid = 9 })
answer_of Kind.handshake_r =
    Message.handshake_r (record { result = true; leaderhost = []; leaderraftport = 0 })
answer_of Kind.appendentries_q =
    Message.appendentries_q
      (record { term = 0; prelogindex = 0; prelogterm = 0; leadercommit = 0; entries = [] })
answer_of Kind.appendentries_r =
    Message.appendentries_r (record { term = 0; success = true; isheartbeat = false })
answer_of Kind.requestvote_q =
    Message.requestvote_q
      (record { term = 0; candidate_id = 0; last_log_index = 0; last_log_term = 0 })
answer_of Kind.requestvote_r = Message.requestvote_r (record { term = 0; votegranted = false })

abbrev classed : Env
classed = record test_env { decode = λ k b. answer_of k }

classed-Classed : Classed classed
classed-Classed Kind.handshake_q b = refl
classed-Classed Kind.handshake_r b = refl
classed-Classed Kind.appendentries_q b = refl
classed-Classed Kind.appendentries_r b = refl
classed-Classed Kind.requestvote_q b = refl
classed-Classed Kind.requestvote_r b = refl

abbrev given : Given
given = record { conn_fd = 5; connect = in_progress; timer_fd = some 3 }

abbrev arrival : EpollEvent
arrival = record {
  source = server_source;
  mask = 1;
  answers = record { recv = recv_error; connect = failed; accepts = accepted 6 (50 ∷ []) ∷ [] };
}

-- a handshake, and a reply behind it
abbrev messages : EpollEvent
messages = record {
  source = conn_source 0 6;
  mask = 1;
  answers = record {
    recv = received (frame 257 (1 ∷ []) ++ frame 260 (4 ∷ []));
    connect = failed;
    accepts = [];
  };
}

abbrev timeout : EpollEvent
timeout = record { source = timer_source 2; mask = 1; answers = arrival.answers }

abbrev waits : List (Waited × Bool)
waits = (happened (arrival ∷ []), false) ∷ (happened (messages ∷ timeout ∷ []), true) ∷ []

event_loop-null_pointer_example :
    (run_command classed given (start_command 1 80) (new_server [] [] 4 (λ n. some 400))
      >>= event_loop classed waits)
    ≢ fault null_pointer
event_loop-null_pointer_example =
    event_loop-null_pointer classed given (start_command 1 80) [] [] 4 (λ n. some 400) waits
      classed-Classed
