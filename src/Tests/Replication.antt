-- ===== src/Tests/Replication.antt =====
-- A run of the way of an entry from a leader to a follower.
use raft_server.Prelude.{[], false, true, ◌∷◌}
use raft_server.Env.{Env}
use raft_server.State.{RaftServer}
use raft_server.Protocol.{AppendEntriesQ, Message}
use raft_server.Net.Send.{send_append_entries}
use raft_server.Tests.{added, leading, state_of, test_env}

-- what the leader sends to node 7
abbrev first_message : AppendEntriesQ
first_message = record {
  term = 3;
  prelogindex = 0;
  prelogterm = 3;
  leadercommit = 0;
  entries = added 3 1 ∷ added 3 2 ∷ [];
}

-- a protobuf that knows this message
abbrev reading : Env
reading = record test_env { decode = λ k b. Message.appendentries_q first_message }

abbrev has_sent : RaftServer
has_sent = state_of leading (send_append_entries reading true false 5 leading)
