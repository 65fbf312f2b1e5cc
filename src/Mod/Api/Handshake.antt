-- ===== src/Mod/Api/Handshake.antt =====
-- mod/ModApi.hpp, `HandshakeQ`: a node that joins.
use raft_server.Prelude.{
  >>=-eq-ok, [], arith, false, none, ok, refl, some, true, ℕ, ◌++◌, ◌>>=◌, ◌∷◌, ◌≡◌,
}
use raft_server.Nanoraft.Broadcast.Quiet.{broadcast_append_entries-IsQuiet}
use raft_server.Mod.Api.Entries.{Stores, append_cfg_log_lem}
use raft_server.Nanoraft.Proxy.{Proxy, new_proxy}
use raft_server.Nanoraft.Log.{cfg_entry}
use raft_server.Nanoraft.Peers.{add_proxy, get_proxy_by_id, proxy_conn_fd}
use raft_server.Net.Server.{tie}
use raft_server.Map.{find, find-insert}
use raft_server.State.{Conn, RaftServer, set_conn}
use raft_server.Env.{Env}
use raft_server.Protocol.{HandshakeQ}
use raft_server.Net.Send.{frame, handle_pre_send_msg, lock_proxy}
use raft_server.Net.Send.Quiet.{handle_pre_send_msg-IsQuiet}
use raft_server.Mod.Api.{handshake_on, handshake_q, handshake_reply, welcome}
use raft_server.Net.Server.{server_is_leader}

pub handshake_q_lem :
    (env : Env) (fd : ℕ) (c : Conn) (q : HandshakeQ) (s : RaftServer)
    → find fd s.conns ≡ some c
    → handshake_q env fd q s ≡ handshake_on env fd c q s
unfolding handshake_q
handshake_q_lem env fd c q s there = rw (there, handshake_q) refl

-- the proxy of a node that has just joined over a connection
abbrev pub joined : ℕ → Conn → Proxy
joined id c = record (new_proxy id) { conn = some c.id; conn_fd = some c.fd }

tie_new :
    (id fd : ℕ) (c : Conn) (s : RaftServer) {s' : RaftServer}
    → find fd s.conns ≡ some c
    → find id s.proxies ≡ none
    → add_proxy id s ≡ ok s'
    → (find id (tie id fd s').proxies ≡ some (some (joined id c)))
      × ((tie id fd s').entries ≡ s.entries)
      × ((tie id fd s').current_term ≡ s.current_term)
unfolding add_proxy tie get_proxy_by_id lock_proxy
tie_new id fd c s {s'} there new h =
    let added = find-insert id id (some (new_proxy id)) s.proxies in
    let tied = find-insert id id (some (joined id c)) s'.proxies in
    (ground (arith, added, tied), ground (arith, added), ground (arith, added))

-- A node that the leader does not know joins: it gets a proxy, tied to its connection, that starts at
-- index 1 with nothing matched, and the log gets the entry that adds the node, of the leader's term.
pub handshake_q_joins :
    (env : Env) (fd : ℕ) (c : Conn) (q : HandshakeQ) (s : RaftServer) {t : RaftServer}
    → Stores env
    → server_is_leader s ≡ true
    → find fd s.conns ≡ some c
    → find q.nodeid s.proxies ≡ none
    → handshake_q env fd q s ≡ ok t
    → (find q.nodeid t.proxies ≡ some (some (joined q.nodeid c)))
      × (t.entries ≡ s.entries ++ (cfg_entry s.current_term c.addr q.raftport q.nodeid ∷ []))
unfolding welcome handshake_on proxy_conn_fd
handshake_q_joins env fd c q s {t} stores leads there new h =
    let c' = record c { raft_port = q.raftport } in
    let s' = set_conn fd c' s in
    let joining : (welcome env fd c q none s'
          >>= handle_pre_send_msg env fd 258 (handshake_reply true))
        ≡ ok t =
      ground (arith, handshake_q_lem env fd c q s there) in
    let (s1, p1, h1) = >>=-eq-ok (welcome env fd c q none s') _ joining in
    let (s2, p2, h2) = >>=-eq-ok (add_proxy q.nodeid s') _ p1 in
    let added = tie_new q.nodeid fd c' s' (ground (arith, find-insert fd fd c' s.conns)) new p2 in
    let logged = append_cfg_log_lem env c.addr q.raftport q.nodeid (tie q.nodeid fd s2) stores in
    let sent = broadcast_append_entries-IsQuiet env false _ h2 in
    let replied = handle_pre_send_msg-IsQuiet env fd 258 (handshake_reply true) s1 h1 in
    (
      ground (arith, added, logged, sent.frame, replied.frame),
      ground (arith, added, logged, sent.frame, replied.frame),
    )
