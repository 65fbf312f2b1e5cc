-- ===== src/Mod/Api/Input.antt =====
-- mod/ModApi.hpp: no handler touches the input of the connection that its message came over.
use raft_server.Prelude.{
  >>=-eq-ok, Bool-cases, Bytes, Option, Option-cases, ap, arith, false, if◌then◌else◌, inl, inr,
  none, ok, refl, some, suc, sym, true, zero, ℕ, ◌==◌, ◌∙◌, ◌≡◌,
}
use raft_server.Mod.Api.Follower.{judge-Judged}
use raft_server.Nanoraft.Commit.{change_commit_index}
use raft_server.Protocol.{HandshakeQ, AppendEntriesQ, AppendEntriesR, Message}
use raft_server.Mod.Api.{
  welcome, append_entries_on, append_reply_on, handshake_on, handshake_reply, judge, update_commit,
  append_entries_q, append_entries_r, handshake_q, proc,
}
use raft_server.Nanoraft.Broadcast.Quiet.{broadcast_append_entries-IsQuiet}
use raft_server.Eventloop.Channel.{disable_all}
use raft_server.Nanoraft.Peers.{add_proxy, get_proxy_by_id, proxy_conn_fd}
use raft_server.Net.Send.Quiet.{IsQuiet, view_of, handle_pre_send_msg-IsQuiet}
use raft_server.Net.Send.{lock_proxy}
use raft_server.Net.Server.{server_close_conn, server_is_leader, on_proxy}
use raft_server.State.{Conn, RaftServer, set_conn}
use raft_server.Env.{Env}
use raft_server.Nanoraft.Log.{append_cfg_log}
use raft_server.Net.Server.{tie}
use raft_server.Map.{find, find-insert, find-erase, insert}

-- the fd that a connection reads from, and the bytes that it has received and not handled
abbrev pub in_of : ℕ → RaftServer → Option (ℕ × Bytes)
in_of fd s = elim (find fd s.conns) [ none ↦ none | some c ↦ some (c.fd, c.in_buffer) ]

in_of_view : Option Conn → Option (ℕ × Bytes)
in_of_view none = none
in_of_view (some c) = some (c.fd, c.in_buffer)

in_of-view_of : (fd : ℕ) (s : RaftServer) → in_of fd s ≡ in_of_view (view_of fd s)
unfolding in_of_view
in_of-view_of fd s = ground arith

pub in_of-IsQuiet : (fd : ℕ) {s t : RaftServer} → IsQuiet s t → in_of fd t ≡ in_of fd s
in_of-IsQuiet fd {s} {t} q =
    in_of-view_of fd t ∙ ap in_of_view (q.views fd) ∙ sym (in_of-view_of fd s)

-- a connection put back with the same input
pub in_of-set_conn :
    (fd g : ℕ) (c : Conn) (s : RaftServer)
    → in_of g s ≡ some (c.fd, c.in_buffer)
    → in_of fd (set_conn g c s) ≡ in_of fd s
in_of-set_conn fd g c s e = ground (arith, find-insert g fd c s.conns)

conns-tie :
    (id fd : ℕ) (c : Conn) (s : RaftServer)
    → find fd s.conns ≡ some c
    → (tie id fd s).conns ≡ insert fd (record c { proxy = (get_proxy_by_id id s).0 }) s.conns
unfolding tie get_proxy_by_id lock_proxy
conns-tie id fd c s there = ground arith

tie_missing : (id fd : ℕ) (s : RaftServer) → find fd s.conns ≡ none → tie id fd s ≡ s
unfolding tie
tie_missing id fd s missing = rw (missing, tie) refl

tie-in_of : (id fd : ℕ) (s : RaftServer) → in_of fd (tie id fd s) ≡ in_of fd s
tie-in_of id fd s = elim (Option-cases (find fd s.conns)) [
  | inl e ↦ rw (tie_missing id fd s e)
  | inr (c, e) ↦
      let c' = record c { proxy = (get_proxy_by_id id s).0 } in
      ground (arith, conns-tie id fd c s e, find-insert fd fd c' s.conns)
]

server_close_conn-in_of :
    (fd old : ℕ) (s : RaftServer) {t : RaftServer}
    → (old == fd) ≡ false
    → server_close_conn fd old s ≡ ok t
    → in_of fd t ≡ in_of fd s
unfolding server_close_conn
server_close_conn-in_of fd old s {t} other h = elim (Option-cases (find fd s.conns)) [
  | inl e ↦ ground arith
  | inr (c, e) ↦ ground (
    arith,
    find-erase old fd (insert fd (record c { channel = disable_all c.channel }) s.conns),
    find-insert fd fd (record c { channel = disable_all c.channel }) s.conns,
  )
]

add_proxy-in_of :
    (id fd : ℕ) (s : RaftServer) {t : RaftServer} → add_proxy id s ≡ ok t → in_of fd t ≡ in_of fd s
unfolding add_proxy
add_proxy-in_of id fd s h = ground arith

append_cfg_log-in_of :
    (env : Env) (host : Bytes) (port node fd : ℕ) (s : RaftServer)
    → in_of fd (append_cfg_log env host port node s) ≡ in_of fd s
unfolding append_cfg_log
append_cfg_log-in_of env host port node fd s = ground arith

welcome-in_of :
    (env : Env) (fd : ℕ) (c : Conn) (q : HandshakeQ) (old : Option ℕ) (s : RaftServer)
    {t : RaftServer}
    → c.fd ≡ fd
    → welcome env fd c q old s ≡ ok t
    → in_of fd t ≡ in_of fd s
unfolding welcome
welcome-in_of env fd c q (some old) s {t} own h =
    let (s1, p, e) =
      >>=-eq-ok (if old == c.fd then ok s else server_close_conn fd old s)
        (λ s'. ok (tie q.nodeid fd s')) h in
    ground (arith, tie-in_of q.nodeid fd s1, server_close_conn-in_of fd old s {t = s1})
welcome-in_of env fd c q none s {t} own h =
    let (s1, p, e) = >>=-eq-ok (add_proxy q.nodeid s) _ h in
    in_of-IsQuiet fd (broadcast_append_entries-IsQuiet env false _ e)
    ∙ append_cfg_log-in_of env c.addr q.raftport q.nodeid fd (tie q.nodeid fd s1)
    ∙ tie-in_of q.nodeid fd s1
    ∙ add_proxy-in_of q.nodeid fd s p

handshake_on-in_of :
    (env : Env) (fd : ℕ) (c : Conn) (q : HandshakeQ) (s : RaftServer) {t : RaftServer}
    → find fd s.conns ≡ some c
    → c.fd ≡ fd
    → handshake_on env fd c q s ≡ ok t
    → in_of fd t ≡ in_of fd s
unfolding handshake_on
handshake_on-in_of env fd c q s {t} there own h = elim (Bool-cases (server_is_leader s)) [
  | inl leads ↦
      let c' = record c { raft_port = q.raftport } in
      let (old, p, h1) = >>=-eq-ok (proxy_conn_fd q.nodeid s) _ (rw leads at h) in
      let (s1, p1, h2) = >>=-eq-ok (welcome env fd c q old (set_conn fd c' s)) _ h1 in
      in_of-IsQuiet fd (handle_pre_send_msg-IsQuiet env fd 258 (handshake_reply true) s1 h2)
      ∙ welcome-in_of env fd c q old (set_conn fd c' s) own p1
      ∙ in_of-set_conn fd fd c' s (ground arith)
  | inr follows ↦
      in_of-IsQuiet fd
        (handle_pre_send_msg-IsQuiet env fd 258 (handshake_reply false) s (rw follows at h))
]

append_entries_on-in_of :
    (env : Env) (fd : ℕ) (q : AppendEntriesQ) (s : RaftServer) {t : RaftServer}
    → append_entries_on env fd q s ≡ ok t
    → in_of fd t ≡ in_of fd s
unfolding append_entries_on update_commit
append_entries_on-in_of env fd q s {t} h =
    let ((v, s1), p, h1) = >>=-eq-ok (judge env q s) _ h in
    let quiet =
      in_of-IsQuiet fd (handle_pre_send_msg-IsQuiet env fd 260 _ (update_commit q s1) h1) in
    ground (arith, quiet, (judge-Judged env q s p).rest)

append_reply_on-in_of :
    (env : Env) (fd : ℕ) (r : AppendEntriesR) (s : RaftServer) {t : RaftServer}
    → append_reply_on env fd r s ≡ ok t
    → in_of fd t ≡ in_of fd s
unfolding append_reply_on change_commit_index on_proxy
append_reply_on-in_of env fd r s {t} h = ground arith

-- Whatever a handler does, the bytes that wait behind its message stay.
pub proc-in_of :
    (env : Env) (fd i : ℕ) (m : Message) (c : Conn) (s : RaftServer) {t : RaftServer}
    → find fd s.conns ≡ some c
    → c.fd ≡ fd
    → proc env fd i m s ≡ ok t
    → in_of fd t ≡ in_of fd s
unfolding proc handshake_q append_entries_q append_entries_r
proc-in_of env fd zero (Message.handshake_q q) c s {t} there own h =
    handshake_on-in_of env fd c q s {t = t} there own (ground arith)
proc-in_of env fd (suc zero) (Message.handshake_r r) c s {t} there own h = ground arith
proc-in_of env fd (suc (suc zero)) (Message.appendentries_q q) c s {t} there own h =
    append_entries_on-in_of env fd q s {t = t} (ground arith)
proc-in_of env fd (suc (suc (suc zero))) (Message.appendentries_r r) c s {t} there own h =
    append_reply_on-in_of env fd r s {t = t} (ground arith)
proc-in_of env fd (suc (suc (suc (suc zero)))) m c s {t} there own h = ground arith
proc-in_of env fd (suc (suc (suc (suc (suc i))))) m c s {t} there own h = cc
proc-in_of env fd i m c s {t} there own h = ground arith
