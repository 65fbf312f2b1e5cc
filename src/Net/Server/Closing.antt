-- ===== src/Net/Server/Closing.antt =====
-- net/Conn.cpp and nanoraft/RaftServer.cpp: what `Server_CloseConn` does to the connections.
use raft_server.Prelude.{
  arith, erase_end, false, fault, if◌then◌else◌, none, ok, refl, some, ℕ, ◌==◌, ◌∙◌, ◌≡◌,
}
use raft_server.Map.{erase, find, find-erase, find-insert}
use raft_server.State.{Conn, RaftServer, set_conn}
use raft_server.Net.Server.{close_fd, close_through, destroy_conn, offline_conn, server_close_conn}
use raft_server.Eventloop.Channel.{Channel, disable_all, none_event, update_channel}

-- the state in which `Server_CloseConn` looks for the old connection
abbrev pub closing : ℕ → Conn → ℕ → RaftServer → RaftServer
closing own c old s = close_fd old (set_conn own (record c { channel = disable_all c.channel }) s)

pub server_close_conn_lem :
    (own old : ℕ) (c : Conn) (s : RaftServer)
    → find own s.conns ≡ some c
    → server_close_conn own old s ≡ offline_conn old (closing own c old s)
unfolding server_close_conn close_through
server_close_conn_lem own old c s there = rw (there, server_close_conn) refl

pub find-closing :
    (own old : ℕ) (c : Conn) (s : RaftServer)
    → (old == own) ≡ false
    → find old (closing own c old s).conns ≡ find old s.conns
find-closing own old c s other =
    ground (arith, find-insert own old (record c { channel = disable_all c.channel }) s.conns)

pub offline_conn_gone :
    (fd : ℕ) (s : RaftServer) → find fd s.conns ≡ none → offline_conn fd s ≡ fault erase_end
unfolding offline_conn
offline_conn_gone fd s gone = rw (gone, offline_conn) refl

pub offline_conn_there :
    (fd : ℕ) (c : Conn) (s : RaftServer)
    → find fd s.conns ≡ some c
    → offline_conn fd s ≡ ok (destroy_conn c (record s { conns = erase fd s.conns }))
unfolding offline_conn
offline_conn_there fd c s there = rw (there, offline_conn) refl

pub destroy_conn-frame :
    (o : Conn) (s : RaftServer) → destroy_conn o s ≡ record s { net = (destroy_conn o s).net }
destroy_conn-frame o s = ground arith

-- the server once the old connection is gone
abbrev pub after_closing : ℕ → Conn → ℕ → Conn → RaftServer → RaftServer
after_closing own c old o s =
    let s' = closing own c old s in destroy_conn o (record s' { conns = erase old s'.conns })

pub server_close_conn_there :
    (own old : ℕ) (c o : Conn) (s : RaftServer)
    → find own s.conns ≡ some c
    → (old == own) ≡ false
    → find old s.conns ≡ some o
    → server_close_conn own old s ≡ ok (after_closing own c old o s)
server_close_conn_there own old c o s there other still =
    server_close_conn_lem own old c s there
    ∙ offline_conn_there old o (closing own c old s) (find-closing own old c s other ∙ still)

pub find-after_closing :
    (fd own old : ℕ) (c o : Conn) (s : RaftServer)
    → find fd (after_closing own c old o s).conns ≡ (
        if fd == old
        then none
        else if fd == own
        then some (record c { channel = disable_all c.channel })
        else find fd s.conns)
find-after_closing fd own old c o s =
    let c1 = record c { channel = disable_all c.channel } in
    let s' = closing own c old s in
    ground (
      arith,
      destroy_conn-frame o (record s' { conns = erase old s'.conns }),
      find-erase old fd s'.conns,
      find-insert own fd c1 s.conns,
    )

pub disable_all-events : (c : Channel) → (disable_all c).events ≡ none_event
unfolding disable_all update_channel
disable_all-events c = ground arith
