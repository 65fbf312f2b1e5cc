-- ===== src/NullFree/Handlers.antt =====
-- mod/ModApi.hpp: no handler reads through a null pointer, or puts one into the map of the proxies.
use raft_server.Prelude.{
  Bool, Bytes, Option, Option-cases, ap, arith, false, fault, if◌then◌else◌, inl, inr, none,
  null_pointer, ok, refl, some, subst, sym, ℕ, ◌==◌, ◌∙◌, ◌≡◌, ◌≢◌,
}
use raft_server.Net.Send.Quiet.{handle_pre_send_msg-IsQuiet}
use raft_server.Map.{find, find-insert, insert}
use raft_server.Nanoraft.Broadcast.{broadcast_append_entries}
use raft_server.Nanoraft.Proxy.{Proxy, is_voting, new_proxy}
use raft_server.Nanoraft.Log.{append_cfg_log}
use raft_server.Net.Send.{handle_pre_send_msg, lock_proxy}
use raft_server.Mod.Api.{welcome}
use raft_server.Nanoraft.Broadcast.Quiet.{broadcast_append_entries-IsQuiet}
use raft_server.State.{Conn, RaftServer}
use raft_server.Net.Server.{tie, close_through, offline_conn, server_close_conn}
use raft_server.Nanoraft.Peers.{add_proxy, get_proxy_by_id, proxy_conn_fd}
use raft_server.Protocol.{HandshakeQ, Message}
use raft_server.Env.{Env}
use raft_server.NullFree.Sending.{
  broadcast_append_entries-null_pointer, handle_pre_send_msg-null_pointer, quiet-Sound,
}
use raft_server.NullFree.{>>=-Sound, NoNull, Sound, Sound-intro, find-NoNull, insert-NoNull}

abbrev pub Intact : RaftServer → Type 0
Intact s = NoNull s.proxies

-- `GetProxyByID` puts in a null pointer only under a key that is not there.
tie-Intact :
    (id fd : ℕ) (p : Proxy) (s : RaftServer)
    → find id s.proxies ≡ some (some p)
    → Intact s
    → Intact (tie id fd s)
unfolding tie get_proxy_by_id lock_proxy
tie-Intact id fd p s there intact = elim (Option-cases (find fd s.conns)) [
  | inl e ↦ rw (e, tie) intact
  | inr (c, e) ↦
      let tied = record p { conn = some c.id; conn_fd = some c.fd } in
      let put : (tie id fd s).proxies ≡ insert id (some tied) s.proxies = ground arith in
      subst NoNull (sym put) (insert-NoNull id tied s.proxies intact)
]

server_close_conn-proxies :
    (own fd : ℕ) (s : RaftServer) {t : RaftServer}
    → server_close_conn own fd s ≡ ok t
    → t.proxies ≡ s.proxies
unfolding server_close_conn close_through offline_conn
server_close_conn-proxies own fd s h = ground arith

server_close_conn-null_pointer :
    (own fd : ℕ) (s : RaftServer) → server_close_conn own fd s ≢ fault null_pointer
unfolding server_close_conn close_through offline_conn
server_close_conn-null_pointer own fd s h = ground arith

-- A node that has an fd has a proxy.
pub proxy_conn_fd-Sound :
    (id : ℕ) (s : RaftServer)
    → Intact s
    → Sound
        (λ old. (fd : ℕ) → old ≡ some fd → (p : Proxy) × (find id s.proxies ≡ some (some p)))
        (proxy_conn_fd id s)
unfolding proxy_conn_fd
proxy_conn_fd-Sound id s intact = elim (Option-cases (find id s.proxies)) [
  | inl e ↦ rw e (λ fd h. cc)
  | inr (none, e) ↦ absurd (find-NoNull id s.proxies intact e)
  | inr (some p, e) ↦ rw e (λ fd h. (p, refl))
]

-- After `AddProxy` the node has a proxy.
pub add_proxy-Sound :
    (id : ℕ) (s : RaftServer)
    → Intact s
    → Sound (λ t. Intact t × ((p : Proxy) × (find id t.proxies ≡ some (some p)))) (add_proxy id s)
unfolding add_proxy
add_proxy-Sound id s intact = elim (Option-cases (find id s.proxies)) [
  | inl e ↦
      let p' = new_proxy id in
      let there : find id (insert id (some p') s.proxies) ≡ some (some p') =
        ground (arith, find-insert id id (some p') s.proxies) in
      rw e (insert-NoNull id p' s.proxies intact, (p', there))
  | inr (none, e) ↦ absurd (find-NoNull id s.proxies intact e)
  | inr (some p, e) ↦
      let p' = record p { state = is_voting } in
      let there : find id (insert id (some p') s.proxies) ≡ some (some p') =
        ground (arith, find-insert id id (some p') s.proxies) in
      rw e (insert-NoNull id p' s.proxies intact, (p', there))
]

pub append_cfg_log-proxies :
    (env : Env) (host : Bytes) (port node : ℕ) (s : RaftServer)
    → (append_cfg_log env host port node s).proxies ≡ s.proxies
unfolding append_cfg_log
append_cfg_log-proxies env host port node s = ground arith

pub broadcast-Sound :
    (env : Env) (is_heart : Bool) (s : RaftServer)
    → Intact s
    → Sound Intact (broadcast_append_entries env is_heart s)
broadcast-Sound env is_heart s intact =
    quiet-Sound s (broadcast_append_entries env is_heart s)
      (λ t e. broadcast_append_entries-IsQuiet env is_heart s e)
      (broadcast_append_entries-null_pointer env is_heart s intact) intact

pub post-Sound :
    (env : Env) (fd id : ℕ) (msg : Message) (s : RaftServer)
    → Intact s
    → Sound Intact (handle_pre_send_msg env fd id msg s)
post-Sound env fd id msg s =
    quiet-Sound s (handle_pre_send_msg env fd id msg s)
      (λ t e. handle_pre_send_msg-IsQuiet env fd id msg s e)
      (handle_pre_send_msg-null_pointer env fd id msg s)

pub welcome-Sound :
    (env : Env) (fd : ℕ) (c : Conn) (q : HandshakeQ) (old : Option ℕ) (s : RaftServer)
    → Intact s
    → ((g : ℕ) → old ≡ some g → (p : Proxy) × (find q.nodeid s.proxies ≡ some (some p)))
    → Sound Intact (welcome env fd c q old s)
unfolding welcome
welcome-Sound env fd c q (some old) s intact peer =
    let (p, there) = peer old refl in
    let same_proxies = λ (t : RaftServer). t.proxies ≡ s.proxies in
    let closed = if old == c.fd then ok s else server_close_conn fd old s in
    >>=-Sound same_proxies Intact closed (λ s'. ok (tie q.nodeid fd s'))
      (Sound-intro same_proxies closed
        (λ t e. ground (arith, server_close_conn-proxies fd old s {t = t}))
        (λ e. ground (arith, server_close_conn-null_pointer fd old s)))
      (λ t e same.
        tie-Intact q.nodeid fd p t (ap (find q.nodeid) same ∙ there)
          (subst NoNull (sym same) intact))
welcome-Sound env fd c q none s intact peer =
    >>=-Sound (λ t. Intact t × ((p : Proxy) × (find q.nodeid t.proxies ≡ some (some p)))) Intact
      (add_proxy q.nodeid s)
      (λ s'.
        broadcast_append_entries env false
          (append_cfg_log env c.addr q.raftport q.nodeid (tie q.nodeid fd s')))
      (add_proxy-Sound q.nodeid s intact)
      (λ t e after.
        let (intact', (p, there)) = after in
        let tied = tie q.nodeid fd t in
        broadcast-Sound env false (append_cfg_log env c.addr q.raftport q.nodeid tied) (
          subst NoNull (sym (append_cfg_log-proxies env c.addr q.raftport q.nodeid tied))
            (tie-Intact q.nodeid fd p t there intact')))
