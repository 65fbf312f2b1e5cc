-- ===== src/Mod/Api/Kept.antt =====
-- mod/ModApi.hpp: a relation that the server's own operations keep is kept by every handler.
use raft_server.Prelude.{
  >>=-eq-ok, Bool, Bool-cases, Option, Option-cases, Result, arith, false, if◌then◌else◌, inl, inr,
  ltb, ltb→lt, none, ok, refl, some, subst, suc, true, zero, ℕ, ◌&&◌, ◌==◌, ◌≡◌,
}
use raft_server.Net.Alike.{Alike-channel}
use raft_server.Mod.Api.Operations.{
  Operations, add_proxy_keeps, record_success_keeps, server_close_conn_keeps, take_entries_keeps,
  tie_keeps, sending_keeps,
}
use raft_server.Net.Events.Kept.{Kept}
use raft_server.Net.Send.Quiet.{handle_pre_send_msg-IsQuiet}
use raft_server.Nanoraft.Peers.{add_proxy, proxy_conn_fd}
use raft_server.Map.{find}
use raft_server.Nanoraft.Broadcast.{become_follower, set_and_persist_term}
use raft_server.Nanoraft.Commit.{change_commit_index}
use raft_server.Nanoraft.Broadcast.Quiet.{broadcast_append_entries-IsQuiet}
use raft_server.Protocol.{AppendEntriesQ, AppendEntriesR, HandshakeQ, Message}
use raft_server.State.{Conn, RaftServer, set_conn}
use raft_server.Env.{Env}
use raft_server.Mod.Api.{
  Verdict, append_entries_on, append_entries_q, append_entries_r, append_reply_on, check_previous,
  check_term, handshake_on, handshake_q, handshake_reply, judge, proc, record_success,
  update_commit, welcome,
}
use raft_server.Net.Server.{tie, server_close_conn, server_is_candidate, server_is_leader}

module _ (R : Env → RaftServer → RaftServer → Type 0) (k : Operations R) where
  check_term_keeps :
      (env : Env) (q : AppendEntriesQ) (s : RaftServer) {go : Bool} {s' : RaftServer}
      → check_term env q s ≡ ok (go, s')
      → R env s s'
  unfolding check_term
  check_term_keeps env q s {go} {s'} h =
      elim (Bool-cases (server_is_candidate s && s.current_term == q.term)) [
        | inl candidate_too ↦ subst (R env s) (ground arith) (k.follow s)
        | inr other ↦ elim (Bool-cases (ltb s.current_term q.term)) [
          | inl newer ↦
              let (s1, p, e) =
                >>=-eq-ok {B = Bool × RaftServer} (set_and_persist_term env q.term s)
                  (λ u. ok (true, become_follower u)) {y = (go, s')} (ground arith) in
              subst (R env s) (ground arith) (
                k.next (k.persist env q.term s (ltb→lt s.current_term q.term newer) p)
                  (k.follow s1))
          | inr older ↦ subst (R env s) (ground arith) (k.same s)
        ]
      ]

  judge_keeps :
      (env : Env) (q : AppendEntriesQ) (s : RaftServer) {v : Verdict} {s' : RaftServer}
      → judge env q s ≡ ok (v, s')
      → R env s s'
  unfolding judge
  judge_keeps env q s {v} {s'} h =
      let ((go, s1), p, h1) = >>=-eq-ok (check_term env q s) _ h in
      let (m, p2, h2) = >>=-eq-ok (if go then check_previous q s1 else ok false) _ h1 in
      k.next (check_term_keeps env q s p) (elim (Bool-cases m) [
        | inl matching ↦ take_entries_keeps R k env q s1 (rw matching at h2)
        | inr other ↦ subst (R env s1) (ground arith) (k.same s1)
      ])

  welcome_keeps :
      (env : Env) (fd : ℕ) (c : Conn) (q : HandshakeQ) (old : Option ℕ) (s : RaftServer)
      {t : RaftServer}
      → welcome env fd c q old s ≡ ok t
      → R env s t
  unfolding welcome
  welcome_keeps env fd c q (some old) s {t} h =
      let (s1, p, e) =
        >>=-eq-ok (if old == c.fd then ok s else server_close_conn fd old s)
          (λ s'. ok (tie q.nodeid fd s')) h in
      subst (R env s) (ground arith) (
        k.next
          (elim (Bool-cases (old == c.fd)) [
            | inl own ↦ subst (R env s) (ground arith) (k.same s)
            | inr other ↦ server_close_conn_keeps R k fd old s (rw other at p)
          ])
          (tie_keeps R k q.nodeid fd s1))
  welcome_keeps env fd c q none s {t} h =
      let (s1, p, e) = >>=-eq-ok (add_proxy q.nodeid s) _ h in
      let s2 = tie q.nodeid fd s1 in
      k.next (add_proxy_keeps R k q.nodeid s p) (
        k.next (tie_keeps R k q.nodeid fd s1) (
          k.next (k.append env c.addr q.raftport q.nodeid s2)
            (sending_keeps R k (broadcast_append_entries-IsQuiet env false _ e))))

  handshake_on_keeps :
      (env : Env) (fd : ℕ) (c : Conn) (q : HandshakeQ) (s : RaftServer) {t : RaftServer}
      → find fd s.conns ≡ some c
      → handshake_on env fd c q s ≡ ok t
      → R env s t
  unfolding handshake_on
  handshake_on_keeps env fd c q s {t} e h = elim (Bool-cases (server_is_leader s)) [
    | inl leads ↦
        let c' = record c { raft_port = q.raftport } in
        let (old, p, h1) = >>=-eq-ok (proxy_conn_fd q.nodeid s) _ (rw leads at h) in
        let (s1, p1, h2) = >>=-eq-ok (welcome env fd c q old (set_conn fd c' s)) _ h1 in
        k.next (k.change fd c c' s e (Alike-channel refl refl refl)) (
          k.next (welcome_keeps env fd c q old (set_conn fd c' s) p1) (
            sending_keeps R k
              (handle_pre_send_msg-IsQuiet env fd 258 (handshake_reply true) s1 h2)))
    | inr follows ↦
        sending_keeps R k
          (handle_pre_send_msg-IsQuiet env fd 258 (handshake_reply false) s (rw follows at h))
  ]

  append_entries_on_keeps :
      (env : Env) (fd : ℕ) (q : AppendEntriesQ) (s : RaftServer) {t : RaftServer}
      → append_entries_on env fd q s ≡ ok t
      → R env s t
  unfolding append_entries_on update_commit
  append_entries_on_keeps env fd q s {t} h =
      let ((v, s1), p, h1) = >>=-eq-ok (judge env q s) _ h in
      k.next (judge_keeps env q s p) (
        k.next (k.frame {s = s1} {t = update_commit q s1} (ground arith))
          (sending_keeps R k (handle_pre_send_msg-IsQuiet env fd 260 _ (update_commit q s1) h1)))

  change_commit_index_keeps :
      {env : Env} (s : RaftServer) {done : Bool} {t : RaftServer}
      → change_commit_index s ≡ ok (done, t)
      → R env s t
  unfolding change_commit_index
  change_commit_index_keeps s h = k.frame (ground arith)

  append_reply_on_keeps :
      (env : Env) (fd : ℕ) (r : AppendEntriesR) (s : RaftServer) {t : RaftServer}
      → append_reply_on env fd r s ≡ ok t
      → R env s t
  unfolding append_reply_on
  append_reply_on_keeps env fd r s {t} h = elim (Bool-cases (ltb s.current_term r.term)) [
    | inl newer ↦
        let (s1, p, e) =
          >>=-eq-ok (set_and_persist_term env r.term s) (λ u. ok (become_follower u)) {y = t}
            (ground arith) in
        subst (R env s) (ground arith)
          (k.next (k.persist env r.term s (ltb→lt s.current_term r.term newer) p) (k.follow s1))
    | inr current ↦
        let ((done, u), p, e) =
          >>=-eq-ok (change_commit_index (record_success fd r s)) (λ d. ok d.1) {y = t}
            (ground arith) in
        subst (R env s) (ground arith) (
          k.next (record_success_keeps R k fd r s)
            (change_commit_index_keeps (record_success fd r s) p))
  ]

  -- `HandshakeQ`, and the like: nothing happens where the connection is gone
  found_keeps :
      {env : Env} (f : Conn → Result RaftServer) (fd : ℕ) (s : RaftServer) {t : RaftServer}
      → ((c : Conn) (u : RaftServer) → find fd s.conns ≡ some c → f c ≡ ok u → R env s u)
      → elim (find fd s.conns) [ none ↦ ok s | some c ↦ f c ] ≡ ok t
      → R env s t
  found_keeps {env} f fd s {t} each h = elim (Option-cases (find fd s.conns)) [
    | inl e ↦ subst (R env s) (ground arith) (k.same s)
    | inr (c, e) ↦ each c t e (ground arith)
  ]

  -- Every handler makes progress.
  pub proc_keeps :
      (env : Env) (fd i : ℕ) (m : Message) (s : RaftServer) {t : RaftServer}
      → proc env fd i m s ≡ ok t
      → R env s t
  unfolding proc handshake_q append_entries_q append_entries_r
  proc_keeps env fd zero (Message.handshake_q q) s {t} h =
      found_keeps (λ c. handshake_on env fd c q s) fd s (λ c u. handshake_on_keeps env fd c q s) h
  proc_keeps env fd (suc zero) (Message.handshake_r r) s {t} h =
      subst (R env s) (ground arith) (k.same s)
  proc_keeps env fd (suc (suc zero)) (Message.appendentries_q q) s {t} h =
      found_keeps (λ c. append_entries_on env fd q s) fd s
        (λ c u e. append_entries_on_keeps env fd q s) h
  proc_keeps env fd (suc (suc (suc zero))) (Message.appendentries_r r) s {t} h =
      found_keeps (λ c. append_reply_on env fd r s) fd s (λ c u e. append_reply_on_keeps env fd r s)
        h
  proc_keeps env fd (suc (suc (suc (suc zero)))) m s {t} h =
      subst (R env s) (ground arith) (k.same s)
  proc_keeps env fd (suc (suc (suc (suc (suc i))))) m s {t} h = cc
  proc_keeps env fd i m s {t} h = ground arith

-- So every event of a connection keeps it, too.
pub Operations-Kept : (R : Env → RaftServer → RaftServer → Type 0) → Operations R → Kept R
Operations-Kept R k = record {
  same = k.same;
  next = k.next;
  frame = λ h. k.frame (cc (h));
  quiet = k.quiet;
  change = k.change;
  drop = k.drop;
  accept = k.accept;
  handler = proc_keeps R k;
}
