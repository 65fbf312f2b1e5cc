-- ===== src/Net/Events/Kept.antt =====
-- eventloop/EventLoop.cpp: a relation that the handlers keep, and that does not look at connections,
-- timers and the kernel, is kept by every event.
use raft_server.Prelude.{
  >>=-eq-ok, Bool, Bool-cases, Bytes, List, Option, Option-cases, [], arith, inl, inr, length, ltb,
  none, ok, refl, some, subst, suc, zero, ℕ, ◌%◌, ◌++◌, ◌+◌, ◌-◌, ◌==◌, ◌>>=◌, ◌||◌, ◌∷◌, ◌≡◌,
}
use raft_server.Eventloop.Channel.Mirror.{no_events, no_write, to_write, to_read}
use raft_server.Net.Alike.{
  Alike, Alike-channel, Alike-operate, after_send_result-Alike, Alike-trans,
}
use raft_server.Net.Send.Quiet.{IsQuiet}
use raft_server.Map.{find, find-insert, erase, insert}
use raft_server.Mod.Arrived.{
  Arrived, arrive, arrive_one, cut, handle_arrived_msg, handle_one, message_kind, watch_output,
}
use raft_server.Protocol.{Message}
use raft_server.Eventloop.Channel.{
  Callback, Channel, disable_all, disable_write, enable_write, enable_read,
}
use raft_server.State.{Conn, RaftServer, set_conn}
use raft_server.Net.Connect.{
  Accept, Connect, accept_connected, accept_failed, accepted, connect_accepted, interrupted,
  tcp_accept, new_conn, bind_callbacks, accept_answer,
}
use raft_server.Net.Send.{
  post_on, send_callback, send_handshake_q, after_send_result, kernel_send, drop_sent, put_frame,
}
use raft_server.Net.Server.{close_callback, close_through, offline_conn}
use raft_server.Mod.Api.{proc}
use raft_server.Env.{Env}
use raft_server.Net.Events.{
  Answers, Recv, Revents, end_of_file, event_line, handle_conn_event, live_conn, received,
  recv_callback, recv_error, run_conn_callback,
}

pub record Kept (R : Env → RaftServer → RaftServer → Type 0) : Type 0 where
  pub same : {env : Env} (s : RaftServer) → R env s s
  pub next : {env : Env} {s t u : RaftServer} → R env s t → R env t u → R env s u
  pub frame :
      {env : Env} {s t : RaftServer} → t ≡ record s { net = t.net; timers = t.timers } → R env s t
  pub quiet : {env : Env} {s t : RaftServer} → IsQuiet s t → R env s t
  pub change :
      {env : Env} (fd : ℕ) (c c' : Conn) (s : RaftServer)
      → find fd s.conns ≡ some c
      → Alike c c'
      → R env s (set_conn fd c' s)
  pub drop : {env : Env} (fd : ℕ) (s : RaftServer) → R env s (record s { conns = erase fd s.conns })
  pub accept :
      {env : Env} (fd : ℕ) (addr : Bytes) (s : RaftServer)
      → R env s (record s {
        conns = insert fd (new_conn s.next_conn fd addr) s.conns;
        next_conn = s.next_conn + 1;
      })
  pub handler :
      (env : Env) (fd i : ℕ) (m : Message) (s : RaftServer) {t : RaftServer}
      → proc env fd i m s ≡ ok t
      → R env s t

module _ (R : Env → RaftServer → RaftServer → Type 0) (k : Kept R) where
  pub quiet_keeps : {env : Env} {s t : RaftServer} → IsQuiet s t → R env s t
  quiet_keeps q = k.quiet q

  close_through_keeps :
      {env : Env} (own : ℕ) (c : Conn) (fd : ℕ) (s : RaftServer) {t : RaftServer}
      → find own s.conns ≡ some c
      → close_through own c fd s ≡ ok t
      → R env s t
  unfolding close_through offline_conn
  close_through_keeps own c fd s {t} e h =
      let c' = record c { channel = disable_all c.channel } in
      let s1 = set_conn own c' s in
      let s2 = record s1 { conns = erase fd s1.conns } in
      k.next (k.change own c c' s e (Alike-operate no_events c))
        (k.next (k.drop fd s1) (k.frame {s = s2} {t = t} (ground arith)))

  watch_output_keeps : {env : Env} (fd : ℕ) (s : RaftServer) → R env s (watch_output fd s)
  unfolding watch_output
  watch_output_keeps fd s = elim (Option-cases (find fd s.conns)) [
    | inl e ↦ rw (e, watch_output) (k.same s)
    | inr (c, e) ↦ elim (Bool-cases (ltb 0 (length c.out_buffer))) [
      | inl more ↦
          rw (e, more, watch_output)
            (k.change fd c (record c { channel = enable_write c.channel }) s e
              (Alike-operate to_write c))
      | inr empty ↦
          rw (e, empty, watch_output)
            (k.change fd c (record c { channel = disable_write c.channel }) s e
              (Alike-operate no_write c))
    ]
  ]

  pub handle_one_keeps :
      (env : Env) (fd : ℕ) (c : Conn) (m : Arrived) (s : RaftServer) {t : RaftServer}
      → find fd s.conns ≡ some c
      → handle_one env fd c m s ≡ ok t
      → R env s t
  unfolding handle_one
  handle_one_keeps env fd c m s {t} e h =
      let c' = record c { in_buffer = m.rest } in
      let s0 = set_conn fd c' s in
      let (kind, p, h1) = >>=-eq-ok (message_kind m.id) _ h in
      let (s1, p1, h2) =
        >>=-eq-ok (proc env fd (m.id % 256 - 1) (env.decode kind m.body) s0)
          (λ s'. ok (watch_output fd s')) h1 in
      subst (R env s) (ground arith) (
        k.next (k.change fd c c' s e (Alike-channel refl refl refl)) (
          k.next (k.handler env fd (m.id % 256 - 1) (env.decode kind m.body) s0 p1)
            (watch_output_keeps fd s1)))

  -- a round behind the cut
  round_keeps :
      (env : Env) (fd : ℕ) (c : Conn) (r : Option Arrived) (s : RaftServer) {t : RaftServer}
      → find fd s.conns ≡ some c
      → elim r [ none ↦ ok none | some m ↦ handle_one env fd c m s >>= λ s'. ok (some s') ]
        ≡ ok (some t)
      → R env s t
  round_keeps env fd c none s e h = cc
  round_keeps env fd c (some m) s {t} e h =
      let (s1, p, h1) = >>=-eq-ok (handle_one env fd c m s) (λ s'. ok (some s')) h in
      subst (R env s) (ground arith) (handle_one_keeps env fd c m s e p)

  arrive_one_keeps :
      (env : Env) (fd : ℕ) (s : RaftServer) {t : RaftServer}
      → arrive_one env fd s ≡ ok (some t)
      → R env s t
  unfolding arrive_one
  arrive_one_keeps env fd s {t} h = elim (Option-cases (find fd s.conns)) [
    | inl e ↦ absurd (ground arith)
    | inr (c, e) ↦
        let (r, p, h1) =
          >>=-eq-ok (cut c.in_buffer)
            (λ r. elim r [
              | none ↦ ok none
              | some m ↦ handle_one env fd c m s >>= λ s'. ok (some s')
            ])
            (ground arith) in
        round_keeps env fd c r s e h1
  ]

  -- the rounds behind the first
  rounds_keeps :
      (env : Env) (fd n : ℕ) (s : RaftServer) (r : Option RaftServer) {t : RaftServer}
      → arrive_one env fd s ≡ ok r
      → ((s' : RaftServer) → arrive env fd n s' ≡ ok t → R env s' t)
      → elim r [ none ↦ ok s | some s' ↦ arrive env fd n s' ] ≡ ok t
      → R env s t
  rounds_keeps env fd n s none p next h = subst (R env s) (ground arith) (k.same s)
  rounds_keeps env fd n s (some s') p next h = k.next (arrive_one_keeps env fd s p) (next s' h)

  pub arrive_keeps :
      (env : Env) (fd n : ℕ) (s : RaftServer) {t : RaftServer}
      → arrive env fd n s ≡ ok t
      → R env s t
  unfolding arrive
  arrive_keeps env fd zero s h = subst (R env s) (ground arith) (k.same s)
  arrive_keeps env fd (suc n) s {t} h =
      let (r, p, h1) = >>=-eq-ok (arrive_one env fd s) _ h in
      rounds_keeps env fd n s r p (λ s'. arrive_keeps env fd n s') h1

  close_callback_keeps :
      {env : Env} (fd : ℕ) (s : RaftServer) {t : RaftServer}
      → close_callback fd s ≡ ok t
      → R env s t
  unfolding close_callback
  close_callback_keeps {env} fd s {t} h = elim (Option-cases (find fd s.conns)) [
    | inl e ↦ subst (R env s) (ground arith) (k.same s)
    | inr (c, e) ↦ close_through_keeps fd c fd s e (ground arith)
  ]

  recv_callback_keeps :
      (env : Env) (r : Recv) (fd : ℕ) (s : RaftServer) {t : RaftServer}
      → recv_callback env r fd s ≡ ok t
      → R env s t
  unfolding recv_callback handle_arrived_msg
  recv_callback_keeps env end_of_file fd s h = close_callback_keeps fd s h
  recv_callback_keeps env recv_error fd s h = subst (R env s) (ground arith) (k.same s)
  recv_callback_keeps env (received bytes) fd s {t} h = elim (Option-cases (find fd s.conns)) [
    | inl e ↦ subst (R env s) (ground arith) (k.same s)
    | inr (c, e) ↦
        let c' = record c { in_buffer = c.in_buffer ++ bytes } in
        let s' = set_conn fd c' s in
        k.next (k.change fd c c' s e (Alike-channel refl refl refl)) (
          arrive_keeps env fd (suc (length c'.in_buffer)) s'
            (ground (arith, find-insert fd fd c' s.conns)))
  ]

  send_callback_keeps : {env : Env} (fd : ℕ) (s : RaftServer) → R env s (send_callback fd s)
  unfolding send_callback
  send_callback_keeps fd s = elim (Option-cases (find fd s.conns)) [
    | inl e ↦ rw (e, send_callback) (k.same s)
    | inr (c, e) ↦ elim (Bool-cases (length c.out_buffer == 0)) [
      | inl empty ↦ rw (e, empty, send_callback) (k.same s)
      | inr some_bytes ↦
          let called = kernel_send c.fd c.out_buffer s.net in
          let s1 = record s { net = called.1 } in
          let c' = after_send_result called.0 c in
          rw (e, some_bytes, send_callback)
            (k.next (k.frame {s = s} {t = s1} refl)
              (k.change fd c c' s1 e (after_send_result-Alike called.0 c)))
    ]
  ]

  accept_connected_keeps :
      (env : Env) (fd : ℕ) (c c1 : Conn) (s : RaftServer) {t : RaftServer}
      → find fd s.conns ≡ some c
      → Alike c c1
      → accept_connected env fd c1 s ≡ ok t
      → R env s t
  unfolding accept_connected send_handshake_q post_on
  accept_connected_keeps env fd c c1 s {t} e alike h =
      let c2 = record c1 { channel = enable_read (bind_callbacks c1.channel) } in
      let (out, p, h1) = >>=-eq-ok (put_frame 257 _ c1.out_buffer) _ h in
      let called = kernel_send c1.fd out s.net in
      let s1 = record s { net = called.1 } in
      let c3 = record c2 { out_buffer = drop_sent called.0 out } in
      let bound = record c1 { channel = bind_callbacks c1.channel } in
      let reads : Alike bound c2 = Alike-operate to_read bound in
      let same : set_conn fd c3 s1 ≡ t = ground arith in
      subst (R env s) same (
        k.next (k.frame {s = s} {t = s1} refl) (
          k.change fd c c3 s1 e (
            Alike-trans alike
              (record { same_id = refl; same_fd = refl; mirrored = λ m. reads.mirrored m }))))

  answered_keeps :
      (env : Env) (answer : Connect) (fd : ℕ) (c c1 : Conn) (s : RaftServer) {t : RaftServer}
      → find fd s.conns ≡ some c
      → Alike c c1
      → accept_answer env answer fd c1 s ≡ ok t
      → R env s t
  answered_keeps env Connect.connected fd c c1 s e alike h =
      accept_connected_keeps env fd c c1 s e alike h
  answered_keeps env _ fd c c1 s e alike h =
      subst (R env s) (ground arith) (k.change fd c c1 s e alike)

  connect_accepted_keeps :
      (env : Env) (answer : Connect) (fd : ℕ) (s : RaftServer) {t : RaftServer}
      → connect_accepted env answer fd s ≡ ok t
      → R env s t
  unfolding connect_accepted
  connect_accepted_keeps env answer fd s {t} h = elim (Option-cases (find fd s.conns)) [
    | inl e ↦ subst (R env s) (ground arith) (k.same s)
    | inr (c, e) ↦
        answered_keeps env answer fd c (record c { channel = disable_write c.channel }) s e
          (Alike-operate no_write c) (ground arith)
  ]

  run_conn_callback_keeps :
      (env : Env) (a : Answers) (cb : Option Callback) (fd : ℕ) (s : RaftServer) {t : RaftServer}
      → run_conn_callback env a cb fd s ≡ ok t
      → R env s t
  unfolding run_conn_callback
  run_conn_callback_keeps env a none fd s h = subst (R env s) (ground arith) (k.same s)
  run_conn_callback_keeps env a (some Callback.recv_callback) fd s h =
      recv_callback_keeps env a.recv fd s h
  run_conn_callback_keeps env a (some Callback.send_callback) fd s h =
      subst (R env s) (ground arith) (send_callback_keeps fd s)
  run_conn_callback_keeps env a (some Callback.close_callback) fd s h = close_callback_keeps fd s h
  run_conn_callback_keeps env a (some Callback.accepted_callback) fd s h =
      connect_accepted_keeps env a.connect fd s h
  run_conn_callback_keeps env a (some cb) fd s h = subst (R env s) (ground arith) (k.same s)

  event_line_keeps :
      (env : Env) (a : Answers) (flag : Bool) (cb : Channel → Option Callback) (id fd : ℕ)
      (s : RaftServer) {t : RaftServer}
      → event_line env a flag cb id fd s ≡ ok t
      → R env s t
  unfolding event_line
  event_line_keeps env a flag cb id fd s {t} h =
      let (c, p, h1) = >>=-eq-ok (live_conn id fd s) _ h in
      elim (Bool-cases flag) [
        | inl set ↦ run_conn_callback_keeps env a (cb c.channel) fd s (rw set at h1)
        | inr unset ↦ subst (R env s) (ground arith) (k.same s)
      ]

  pub handle_conn_event_keeps :
      (env : Env) (a : Answers) (r : Revents) (id fd : ℕ) (s : RaftServer) {t : RaftServer}
      → handle_conn_event env a r id fd s ≡ ok t
      → R env s t
  unfolding handle_conn_event
  handle_conn_event_keeps env a r id fd s {t} h =
      let (c, p, h1) = >>=-eq-ok (live_conn id fd s) _ h in
      elim (Bool-cases (c.channel.is_server_channel || c.channel.tied)) [
        | inl handled ↦
            let (s1, p1, k1) =
              >>=-eq-ok (event_line env a r.hup (λ ch. ch.close_callback) id fd s) _
                (rw handled at h1) in
            let (s2, p2, k2) =
              >>=-eq-ok (event_line env a r.err (λ ch. ch.error_callback) id fd s1) _ k1 in
            let (s3, p3, k3) =
              >>=-eq-ok (event_line env a r.readable (λ ch. ch.read_callback) id fd s2) _ k2 in
            k.next (event_line_keeps env a r.hup (λ ch. ch.close_callback) id fd s p1) (
              k.next (event_line_keeps env a r.err (λ ch. ch.error_callback) id fd s1 p2) (
                k.next (event_line_keeps env a r.readable (λ ch. ch.read_callback) id fd s2 p3)
                  (event_line_keeps env a r.writable (λ ch. ch.write_callback) id fd s3 k3)))
        | inr ignored ↦ subst (R env s) (ground arith) (k.same s)
      ]

  pub tcp_accept_keeps :
      {env : Env} (answers : List Accept) (s : RaftServer) → R env s (tcp_accept answers s)
  unfolding tcp_accept
  tcp_accept_keeps [] s = k.same s
  tcp_accept_keeps (interrupted ∷ answers) s = tcp_accept_keeps answers s
  tcp_accept_keeps (accept_failed ∷ answers) s = k.same s
  tcp_accept_keeps (accepted fd addr ∷ answers) s = k.accept fd addr s
