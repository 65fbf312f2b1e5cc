-- ===== src/Mod/Api/Reconnect.antt =====
-- mod/ModApi.hpp, `HandshakeQ`: a node that comes back over a new connection.
use raft_server.Prelude.{
  ap, arith, erase_end, false, fault, none, ok, some, true, ℕ, ◌==◌, ◌>>=◌, ◌∙◌, ◌≡◌,
}
use raft_server.Mod.Api.Handshake.{handshake_q_lem}
use raft_server.Env.{Env}
use raft_server.Protocol.{HandshakeQ}
use raft_server.Net.Send.{handle_pre_send_msg, lock_proxy}
use raft_server.Net.Send.Quiet.{find-IsQuiet-none, find-IsQuiet-some, handle_pre_send_msg-IsQuiet}
use raft_server.Mod.Api.{handshake_on, handshake_q, handshake_reply, welcome}
use raft_server.State.{Conn, RaftServer, set_conn, set_proxy}
use raft_server.Map.{find, find-insert}
use raft_server.Nanoraft.Proxy.{Proxy}
use raft_server.Nanoraft.Peers.{get_proxy_by_id, proxy_conn_fd}
use raft_server.Net.Server.Closing.{
  after_closing, closing, destroy_conn-frame, disable_all-events, find-after_closing, find-closing,
  offline_conn_gone, server_close_conn_lem, server_close_conn_there,
}
use raft_server.Eventloop.Channel.{disable_all, none_event}
use raft_server.Net.Server.{tie, server_is_leader}

tie_known :
    (id fd : ℕ) (c : Conn) (p : Proxy) (s : RaftServer)
    → find fd s.conns ≡ some c
    → find id s.proxies ≡ some (some p)
    → tie id fd s
      ≡ set_proxy id
          (record p { conn = some c.id; conn_fd = some c.fd })
          (set_conn fd (record c { proxy = some id }) s)
unfolding tie get_proxy_by_id lock_proxy
tie_known id fd c p s there known = ground arith

-- A node comes back over a new connection while the server still holds the connection it had, or
-- has just lost it.
reconnect :
    (env : Env) (fd old : ℕ) (c : Conn) (p : Proxy) (q : HandshakeQ) (s : RaftServer)
    → server_is_leader s ≡ true
    → find fd s.conns ≡ some c
    → find q.nodeid s.proxies ≡ some (some p)
    → p.conn_fd ≡ some old
    → handshake_q env fd q s ≡ (
        welcome env fd c q (some old) (set_conn fd (record c { raft_port = q.raftport }) s)
        >>= handle_pre_send_msg env fd 258 (handshake_reply true))
unfolding handshake_on proxy_conn_fd
reconnect env fd old c p q s leads there known had =
    ground (arith, handshake_q_lem env fd c q s there)

-- A node that comes back after its old connection was closed brings the server down: its proxy still
-- has the old fd, and `OfflineConn` erases the end of the map.
pub handshake_q_gone :
    (env : Env) (fd old : ℕ) (c : Conn) (p : Proxy) (q : HandshakeQ) (s : RaftServer)
    → server_is_leader s ≡ true
    → find fd s.conns ≡ some c
    → c.fd ≡ fd
    → find q.nodeid s.proxies ≡ some (some p)
    → p.conn_fd ≡ some old
    → (old == fd) ≡ false
    → find old s.conns ≡ none
    → handshake_q env fd q s ≡ fault erase_end
unfolding welcome
handshake_q_gone env fd old c p q s leads there own known had other gone =
    let c' = record c { raft_port = q.raftport } in
    let s' = set_conn fd c' s in
    ground (
      arith,
      reconnect env fd old c p q s leads there known had,
      find-insert fd fd c' s.conns,
      find-insert fd old c' s.conns,
      server_close_conn_lem fd old c' s',
      find-closing fd old c' s' other,
      offline_conn_gone old (closing fd c' old s'),
    )

-- the new connection and the server behind `welcome`
abbrev new_side : Conn → HandshakeQ → Conn
new_side c q = record c {
  raft_port = q.raftport;
  channel = disable_all c.channel;
  proxy = some q.nodeid;
}

abbrev behind : ℕ → ℕ → Conn → Conn → Proxy → HandshakeQ → RaftServer → RaftServer
behind fd old c o p q s =
    let c' = record c { raft_port = q.raftport } in
    set_proxy q.nodeid (record p { conn = some c.id; conn_fd = some c.fd })
      (set_conn fd (new_side c q) (after_closing fd c' old o (set_conn fd c' s)))

welcome_known :
    (env : Env) (fd old : ℕ) (c o : Conn) (p : Proxy) (q : HandshakeQ) (s : RaftServer)
    → c.fd ≡ fd
    → find q.nodeid s.proxies ≡ some (some p)
    → (old == fd) ≡ false
    → find old s.conns ≡ some o
    → welcome env fd c q (some old) (set_conn fd (record c { raft_port = q.raftport }) s)
      ≡ ok (behind fd old c o p q s)
unfolding welcome
welcome_known env fd old c o p q s own known other still =
    let c' = record c { raft_port = q.raftport } in
    let s' = set_conn fd c' s in
    let c1 = record c' { channel = disable_all c.channel } in
    let s2 = after_closing fd c' old o s' in
    ground (
      arith,
      server_close_conn_there fd old c' o s' (ground (arith, find-insert fd fd c' s.conns)) other
          (ground (arith, find-insert fd old c' s.conns)),
      tie_known q.nodeid fd c1 p s2 (ground (arith, find-after_closing fd fd old c' o s'))
          (ground (arith, destroy_conn-frame o)),
    )

-- A node that comes back while the server still holds its old connection: the old connection is
-- taken down and the proxy tied to the new one, but it is the new one whose channel is disabled.
pub handshake_q_deaf :
    (env : Env) (fd old : ℕ) (c o : Conn) (p : Proxy) (q : HandshakeQ) (s : RaftServer)
    {t : RaftServer}
    → server_is_leader s ≡ true
    → find fd s.conns ≡ some c
    → c.fd ≡ fd
    → find q.nodeid s.proxies ≡ some (some p)
    → p.conn_fd ≡ some old
    → (old == fd) ≡ false
    → find old s.conns ≡ some o
    → handshake_q env fd q s ≡ ok t
    → (find old t.conns ≡ none)
      × (find q.nodeid t.proxies ≡ some (some (record p { conn = some c.id; conn_fd = some c.fd })))
      × (d : Conn) × (find fd t.conns ≡ some d)
      × (d.channel.events ≡ none_event)
handshake_q_deaf env fd old c o p q s {t} leads there own known had other still h =
    let u = behind fd old c o p q s in
    let s' = set_conn fd (record c { raft_port = q.raftport }) s in
    let c' = record c { raft_port = q.raftport } in
    let replied : handle_pre_send_msg env fd 258 (handshake_reply true) u ≡ ok t = ground (
      arith,
      reconnect env fd old c p q s leads there known had,
      welcome_known env fd old c o p q s own known other still,
    ) in
    let quiet = handle_pre_send_msg-IsQuiet env fd 258 (handshake_reply true) u replied in
    let gone : find old u.conns ≡ none = ground (
      arith,
      find-insert fd old (new_side c q) (after_closing fd c' old o s').conns,
      find-after_closing old fd old c' o s',
    ) in
    let (d, f, same) =
      find-IsQuiet-some fd (new_side c q) quiet
        (ground (arith, find-insert fd fd (new_side c q) (after_closing fd c' old o s').conns)) in
    (
      find-IsQuiet-none old quiet gone,
      ground (
        arith,
        quiet.frame,
        find-insert q.nodeid q.nodeid (some (record p { conn = some c.id; conn_fd = some c.fd }))
            s.proxies,
        destroy_conn-frame o,
      ),
      d,
      f,
      ap (λ ch. ch.events) same ∙ disable_all-events c.channel,
    )
