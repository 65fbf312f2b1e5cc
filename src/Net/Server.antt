-- ===== src/Net/Server.antt =====
-- net/Conn.cpp: what the handlers do to the server and to the proxy through a connection.
-- The server owns its connections, so its weak pointer never expires under them.
pub mod Closing
use raft_server.Prelude.{
  Bool, Option, Result, [], erase_end, fault, if◌then◌else◌, ltb, none, ok, some, u32, u64, ℕ, ◌++◌,
  ◌+◌, ◌∷◌,
}
use raft_server.Map.{find, erase}
use raft_server.Nanoraft.Proxy
use raft_server.Nanoraft.Proxy.{Proxy, is_candidate, is_leader}
use raft_server.Nanoraft.Peers.{get_proxy_by_id}
use raft_server.Nanoraft.Commit.{set_commit_index}
use raft_server.Nanoraft.Broadcast.{set_leader}
use raft_server.Net.Send.{lock_proxy}
use raft_server.Eventloop.Channel.{disable_all}
use raft_server.State.{Conn, RaftServer, set_conn, set_proxy}

-- close(2)
abbrev pub close_fd : ℕ → RaftServer → RaftServer
close_fd fd s = record s { net = record s.net { closed = s.net.closed ++ (fd ∷ []) } }

-- Conn::~Conn
abbrev pub destroy_conn : Conn → RaftServer → RaftServer
destroy_conn c s = if ltb 0 c.fd then close_fd c.fd s else s

-- RaftServer::OfflineConn. The map holds the last pointer to the connection.
unfoldable pub offline_conn : ℕ → RaftServer → Result RaftServer
offline_conn fd s = elim (find fd s.conns) [
  | none ↦ fault erase_end
  | some c ↦ ok (destroy_conn c (record s { conns = erase fd s.conns }))
]

-- the three calls that `CloseCallback` and `Server_CloseConn` make
unfoldable pub close_through : ℕ → Conn → ℕ → RaftServer → Result RaftServer
unfolding offline_conn disable_all
close_through own c fd s =
    offline_conn fd (close_fd fd (set_conn own (record c { channel = disable_all c.channel }) s))

-- Conn::Server_CloseConn. The channel that is disabled is the caller's own.
unfoldable pub server_close_conn : ℕ → ℕ → RaftServer → Result RaftServer
unfolding close_through
server_close_conn own fd s = elim (find own s.conns) [
  | none ↦ ok s
  | some c ↦ close_through own c fd s
]

-- Conn::CloseCallback
unfoldable pub close_callback : ℕ → RaftServer → Result RaftServer
unfolding close_through
close_callback fd s = elim (find fd s.conns) [ none ↦ ok s | some c ↦ close_through fd c fd s ]

-- Conn::Tie(dwID)
abbrev tie_found : ℕ → Conn → Option ℕ × RaftServer → RaftServer
tie_found fd c (none, s) = set_conn fd (record c { proxy = none }) s
tie_found fd c (some id, s) = elim (lock_proxy (some id) s.proxies) [
  | none ↦ set_conn fd (record c { proxy = some id }) s
  | some p ↦ set_proxy id (Proxy.tie c.id c.fd p) (set_conn fd (record c { proxy = some id }) s)
]

unfoldable pub tie : ℕ → ℕ → RaftServer → RaftServer
unfolding get_proxy_by_id lock_proxy
tie id fd s = elim (find fd s.conns) [ none ↦ s | some c ↦ tie_found fd c (get_proxy_by_id id s) ]

-- Conn::Server_IsCandidate
abbrev pub server_is_candidate : RaftServer → Bool
server_is_candidate s = is_candidate s.role

-- Conn::Server_IsLeader
abbrev pub server_is_leader : RaftServer → Bool
server_is_leader s = is_leader s.role

-- Conn::Server_SetLeader
unfoldable pub server_set_leader : ℕ → RaftServer → RaftServer
unfolding lock_proxy
server_set_leader fd s = elim (find fd s.conns) [
  | none ↦ s
  | some c ↦ elim (lock_proxy c.proxy s.proxies) [ none ↦ s | some p ↦ set_leader c.proxy s ]
]

-- Conn::Server_IncrCommitIndex
abbrev pub server_incr_commit_index : RaftServer → RaftServer
server_incr_commit_index s = set_commit_index (u32 (s.commit_index + 1)) s

-- The proxy that a connection is tied to, changed; nothing where one of the pointers is gone.
abbrev update_proxy : Option ℕ → (Proxy → Proxy) → RaftServer → RaftServer
update_proxy none f s = s
update_proxy (some id) f s = elim (lock_proxy (some id) s.proxies) [
  | none ↦ s
  | some p ↦ set_proxy id (f p) s
]

unfoldable pub on_proxy : (Proxy → Proxy) → ℕ → RaftServer → RaftServer
unfolding lock_proxy
on_proxy f fd s = elim (find fd s.conns) [ none ↦ s | some c ↦ update_proxy c.proxy f s ]

-- Conn::Proxy_SetMatchIndex
abbrev pub proxy_set_match_index : ℕ → ℕ → RaftServer → RaftServer
proxy_set_match_index i = on_proxy (λ p. record p { match_index = i })

-- Conn::Proxy_SetNextIndex
abbrev pub proxy_set_next_index : ℕ → ℕ → RaftServer → RaftServer
proxy_set_next_index i = on_proxy (λ p. record p { next_index = i })

-- Conn::Proxy_IncrMatchIndex
abbrev pub proxy_incr_match_index : ℕ → RaftServer → RaftServer
proxy_incr_match_index = on_proxy (λ p. record p { match_index = u64 (p.match_index + 1) })

-- Conn::Proxy_IncrNextIndex
abbrev pub proxy_incr_next_index : ℕ → RaftServer → RaftServer
proxy_incr_next_index = on_proxy (λ p. record p { next_index = u64 (p.next_index + 1) })
