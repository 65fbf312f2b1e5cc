-- ===== src/Tests/Conns.antt =====
-- A run of the theorem on the connections.
use raft_server.Prelude.{List, [], arith, false, refl, some, true, ◌∷◌}
use raft_server.Net.WellFormed.{WellFormed}
use raft_server.Net.Connect.{Connect, in_progress}
use raft_server.Main.{join, new_server}
use raft_server.State.{RaftServer}
use raft_server.Map.{find}
use raft_server.Tests.{leading, state_of, test_env}
use raft_server.Net.WellFormed.Steps.{join-WellFormed, loop-WellFormed}
use raft_server.Net.Events.{Event, conn_event, loop, recv_error}

-- a node that joins another
abbrev joining_node : RaftServer
joining_node = join in_progress 6 (some 7) (49 ∷ []) 80 9 80 (new_server [] [] 4 (λ n. some 400))

abbrev no_conns : RaftServer
no_conns = new_server [] [] 4 (λ n. some 400)

no_conns-WellFormed : WellFormed no_conns.next_conn no_conns.conns
unfolding new_server find
no_conns-WellFormed = record {
  keyed = λ fd c e. absurd (ground arith);
  older = λ fd c e. absurd (ground arith);
  mirrored = λ fd c e. absurd (ground arith);
  unique = λ fd gd c d e f same. absurd (ground arith);
}

-- The connect succeeds.
abbrev connecting : List (List Event)
connecting =
    (conn_event 0 6 (record { hup = false; err = false; readable = false; writable = true })
        (record { recv = recv_error; connect = Connect.connected; accepts = [] })
      ∷ [])
    ∷ []

abbrev greeted : RaftServer
greeted = state_of leading (loop test_env connecting joining_node)

loop-WellFormed_example : WellFormed greeted.next_conn greeted.conns
unfolding loop raft_server.Net.Events.handle_events raft_server.Net.Events.handle_event find
    raft_server.Net.Connect.connect_to_peer raft_server.Map.insert new_server
    raft_server.Net.Connect.connect_accepted
loop-WellFormed_example =
    loop-WellFormed test_env connecting joining_node {t = greeted} refl
      (join-WellFormed in_progress 6 (some 7) (49 ∷ []) 80 9 80 no_conns no_conns-WellFormed)
