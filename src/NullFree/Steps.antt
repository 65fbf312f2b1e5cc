-- ===== src/NullFree/Steps.antt =====
-- eventloop/EventLoop.cpp and main.cpp: no process reads through a null pointer.
use raft_server.Prelude.{
  Bool, Bool-cases, Option, Option-cases, arith, if◌then◌else◌, inl, inr, length, ltb, none, ok,
  some, subst, suc, sym, ℕ, ◌++◌, ◌+◌, ◌>>=◌, ◌||◌, ◌≡◌,
}
use raft_server.NullFree.Dispatch.{Classed}
use raft_server.Main.Commands.{unset}
use raft_server.NullFree.Handlers.{Intact}
use raft_server.Env.{Env}
use raft_server.Map.{find, find-insert}
use raft_server.NullFree.Events.{arrive-Sound}
use raft_server.Eventloop.Channel.{Callback, Channel}
use raft_server.Mod.Arrived.{handle_arrived_msg}
use raft_server.NullFree.{>>=-Sound, NoNull, Sound, Sound-intro}
use raft_server.Net.Server.{close_callback, close_through, offline_conn}
use raft_server.Net.Events.{
  Answers, Recv, Revents, end_of_file, event_line, handle_conn_event, live_conn, received,
  recv_callback, recv_error, run_conn_callback,
}
use raft_server.State.{Conn, RaftServer, set_conn}
use raft_server.Net.Send.{buffer_size, post_on, put_frame, send_callback, send_handshake_q}
use raft_server.Net.Connect.{Connect, accept_connected, connect_accepted}

close_callback-Sound : (fd : ℕ) (s : RaftServer) → Intact s → Sound Intact (close_callback fd s)
unfolding close_callback close_through offline_conn
close_callback-Sound fd s intact =
    Sound-intro Intact (close_callback fd s)
      (λ t e. let same : t.proxies ≡ s.proxies = ground arith in subst NoNull (sym same) intact)
      (λ e. ground arith)

recv_callback-Sound :
    (env : Env) (r : Recv) (fd : ℕ) (s : RaftServer)
    → Classed env
    → Intact s
    → Sound Intact (recv_callback env r fd s)
unfolding recv_callback handle_arrived_msg
recv_callback-Sound env end_of_file fd s classed intact = close_callback-Sound fd s intact
recv_callback-Sound env recv_error fd s classed intact = intact
recv_callback-Sound env (received bytes) fd s classed intact =
    elim (Option-cases (find fd s.conns)) [
      | inl e ↦ rw (e, recv_callback) intact
      | inr (c, e) ↦
          let c' = record c { in_buffer = c.in_buffer ++ bytes } in
          let there : find fd (set_conn fd c' s).conns ≡ some c' =
            ground (arith, find-insert fd fd c' s.conns) in
          elim (Bool-cases (ltb buffer_size (length c.in_buffer + length bytes))) [
            | inl full ↦ rw (e, recv_callback) (rw full (λ h. cc))
            | inr fits ↦
                rw (e, recv_callback)
                  (rw fits (
                    rw (there, handle_arrived_msg)
                      (arrive-Sound env fd (suc (length c'.in_buffer)) (set_conn fd c' s) classed
                        intact)))
          ]
    ]

send_callback-Intact : (fd : ℕ) (s : RaftServer) → Intact s → Intact (send_callback fd s)
unfolding send_callback
send_callback-Intact fd s intact =
    let same : (send_callback fd s).proxies ≡ s.proxies = ground arith in
    subst NoNull (sym same) intact

connect_accepted-Sound :
    (env : Env) (answer : Connect) (fd : ℕ) (s : RaftServer)
    → Intact s
    → Sound Intact (connect_accepted env answer fd s)
unfolding connect_accepted accept_connected send_handshake_q post_on put_frame
connect_accepted-Sound env answer fd s intact =
    Sound-intro Intact (connect_accepted env answer fd s)
      (λ t e. let same : t.proxies ≡ s.proxies = ground arith in subst NoNull (sym same) intact)
      (λ e. ground arith)

run_conn_callback-Sound :
    (env : Env) (a : Answers) (cb : Option Callback) (fd : ℕ) (s : RaftServer)
    → Classed env
    → Intact s
    → Sound Intact (run_conn_callback env a cb fd s)
unfolding run_conn_callback
run_conn_callback-Sound env a none fd s classed intact = intact
run_conn_callback-Sound env a (some Callback.recv_callback) fd s classed intact =
    recv_callback-Sound env a.recv fd s classed intact
run_conn_callback-Sound env a (some Callback.send_callback) fd s classed intact =
    send_callback-Intact fd s intact
run_conn_callback-Sound env a (some Callback.close_callback) fd s classed intact =
    close_callback-Sound fd s intact
run_conn_callback-Sound env a (some Callback.accepted_callback) fd s classed intact =
    connect_accepted-Sound env a.connect fd s intact
run_conn_callback-Sound env a (some cb) fd s classed intact = intact

-- whether the object is still there
abbrev Any : Conn → Type 0
Any c = Unit {0}

live_conn-Sound : (id fd : ℕ) (s : RaftServer) → Sound Any (live_conn id fd s)
unfolding live_conn
live_conn-Sound id fd s = Sound-intro Any (live_conn id fd s) (λ c e. tt) (λ e. ground arith)

event_line-Sound :
    (env : Env) (a : Answers) (flag : Bool) (cb : Channel → Option Callback) (id fd : ℕ)
    (s : RaftServer)
    → Classed env
    → Intact s
    → Sound Intact (event_line env a flag cb id fd s)
unfolding event_line
event_line-Sound env a flag cb id fd s classed intact =
    >>=-Sound Any Intact (live_conn id fd s)
      (λ c. if flag then run_conn_callback env a (cb c.channel) fd s else ok s)
      (live_conn-Sound id fd s)
      (λ c e any. elim (Bool-cases flag) [
        | inl set ↦ rw set (run_conn_callback-Sound env a (cb c.channel) fd s classed intact)
        | inr unset ↦ rw unset intact
      ])

pub handle_conn_event-Sound :
    (env : Env) (a : Answers) (r : Revents) (id fd : ℕ) (s : RaftServer)
    → Classed env
    → Intact s
    → Sound Intact (handle_conn_event env a r id fd s)
unfolding handle_conn_event
handle_conn_event-Sound env a r id fd s classed intact =
    >>=-Sound Any Intact (live_conn id fd s) _ (live_conn-Sound id fd s) (λ c e any.
      elim (Bool-cases (c.channel.is_server_channel || c.channel.tied)) [
        | inl handled ↦ rw handled lines
        | inr ignored ↦ rw ignored intact
      ])
  where
    line :
        (flag : Bool) (cb : Channel → Option Callback) (t : RaftServer)
        → Intact t
        → Sound Intact (event_line env a flag cb id fd t)
    line flag cb t h = event_line-Sound env a flag cb id fd t classed h

    lines : Sound Intact (
        event_line env a r.hup (λ ch. ch.close_callback) id fd s >>= λ s1.
        event_line env a r.err (λ ch. ch.error_callback) id fd s1 >>= λ s2.
        event_line env a r.readable (λ ch. ch.read_callback) id fd s2 >>= λ s3.
        event_line env a r.writable (λ ch. ch.write_callback) id fd s3)
    lines =
        >>=-Sound Intact Intact (event_line env a r.hup (λ ch. ch.close_callback) id fd s) _
          (line r.hup (λ ch. ch.close_callback) s intact)
          (λ s1 e1 h1.
            >>=-Sound Intact Intact (event_line env a r.err (λ ch. ch.error_callback) id fd s1) _
              (line r.err (λ ch. ch.error_callback) s1 h1)
              (λ s2 e2 h2.
                >>=-Sound Intact Intact
                  (event_line env a r.readable (λ ch. ch.read_callback) id fd s2) _
                  (line r.readable (λ ch. ch.read_callback) s2 h2)
                  (λ s3 e3 h3. line r.writable (λ ch. ch.write_callback) s3 h3)))
