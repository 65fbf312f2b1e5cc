-- ===== src/Tests/Nodes.antt =====
-- Runs of the theorems on the nodes that join.
use raft_server.Prelude.{[], erase_end, fault, none, refl, some, ℕ, ◌++◌, ◌∷◌, ◌≡◌}
use raft_server.Nanoraft.Log.{cfg_entry}
use raft_server.Eventloop.Channel.{none_event}
use raft_server.Map.{find}
use raft_server.Mod.Api.Reconnect.{handshake_q_deaf, handshake_q_gone}
use raft_server.Mod.Api.{handshake_q}
use raft_server.State.{Conn, RaftServer}
use raft_server.Tests.{conn_on, following, leading, proxy_on, state_of, test_env, test_env-Stores}
use raft_server.Protocol.{HandshakeQ}
use raft_server.Mod.Api.Handshake.{handshake_q_joins, joined}

abbrev hello : ℕ → HandshakeQ
hello id = record { raftport = 80; httpport = 0; nodeid = id }

abbrev refusing : RaftServer
refusing = state_of leading (handshake_q test_env 5 (hello 9) following)

abbrev welcoming : RaftServer
welcoming = state_of following (handshake_q test_env 6 (hello 9) leading)

handshake_q_joins_example :
    (find 9 welcoming.proxies ≡ some (some (joined 9 (conn_on 2 6))))
    × (welcoming.entries ≡ leading.entries ++ (cfg_entry 3 (49 ∷ []) 80 9 ∷ []))
unfolding find handshake_q raft_server.Nanoraft.Peers.proxy_conn_fd
    raft_server.Nanoraft.Broadcast.broadcast_append_entries raft_server.Net.Server.tie
    raft_server.Map.insert raft_server.Nanoraft.Broadcast.broadcast_one
    raft_server.Nanoraft.Broadcast.proxy_send_append_entries
    raft_server.Net.Send.send_append_entries raft_server.Net.Send.handle_pre_send_msg
handshake_q_joins_example =
    handshake_q_joins test_env 6 (conn_on 2 6) (hello 9) leading {t = welcoming} test_env-Stores
      refl refl refl refl

-- the connection of node 7 is gone
abbrev lost : RaftServer
lost = record leading { conns = (6, conn_on 2 6) ∷ [] }

handshake_q_gone_example : handshake_q test_env 6 (hello 7) lost ≡ fault erase_end
unfolding find
handshake_q_gone_example =
    handshake_q_gone test_env 6 5 (conn_on 2 6) (proxy_on 7 1 5) (hello 7) lost refl refl refl refl
      refl refl refl

abbrev returned : RaftServer
returned = state_of following (handshake_q test_env 6 (hello 7) leading)

handshake_q_deaf_example :
    (find 5 returned.conns ≡ none)
    × (find 7 returned.proxies ≡ some (some (proxy_on 7 2 6)))
    × (d : Conn) × (find 6 returned.conns ≡ some d)
    × (d.channel.events ≡ none_event)
unfolding find handshake_q raft_server.Nanoraft.Peers.proxy_conn_fd raft_server.Map.insert
    raft_server.Net.Send.handle_pre_send_msg raft_server.Net.Server.tie raft_server.Map.erase
handshake_q_deaf_example =
    handshake_q_deaf test_env 6 5 (conn_on 2 6) (record (conn_on 1 5) { proxy = some 7 })
      (proxy_on 7 1 5) (hello 7) leading {t = returned} refl refl refl refl refl refl refl refl
