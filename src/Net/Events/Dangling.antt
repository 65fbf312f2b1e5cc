-- ===== src/Net/Events/Dangling.antt =====
-- eventloop/Channel.cpp, `HandleEvent`: what happens when the other side closes.
use raft_server.Prelude.{
  Bool, Option, [], append_assoc, arith, dangling, false, fault, inl, inr, none, ok, refl, some,
  true, ℕ, ◌++◌, ◌<◌, ◌∙◌, ◌∷◌, ◌≡◌, ◌⊎◌,
}
use raft_server.Net.Server.Closing.{closing, destroy_conn-frame, offline_conn_there}
use raft_server.Eventloop.Channel.{disable_all, Callback, Channel}
use raft_server.Net.Events.{
  live_conn, Answers, Revents, end_of_file, event_line, handle_conn_event, recv_callback,
  run_conn_callback,
}
use raft_server.Net.Server.{close_callback, close_through, offline_conn, destroy_conn}
use raft_server.State.{Conn, RaftServer}
use raft_server.Map.{find, find-erase, find-insert, insert, erase}
use raft_server.Env.{Env}

-- `CloseCallback` closes the fd twice: itself, and in the destructor of the connection.
pub close_callback_twice :
    (fd : ℕ) (c : Conn) (s : RaftServer) {t : RaftServer}
    → 0 < fd
    → find fd s.conns ≡ some c
    → c.fd ≡ fd
    → close_callback fd s ≡ ok t
    → (find fd t.conns ≡ none) × (t.net.closed ≡ s.net.closed ++ (fd ∷ fd ∷ []))
unfolding close_callback close_through offline_conn
close_callback_twice fd c s {t} above there own h =
    let c' = record c { channel = disable_all c.channel } in
    let put = find-insert fd fd c' s.conns in
    let gone = find-erase fd fd (insert fd c' s.conns) in
    (
      ground (arith, put, gone),
      ground (arith, put, gone, append_assoc s.net.closed (fd ∷ []) (fd ∷ [])),
    )

close_callback_lem :
    (fd : ℕ) (c : Conn) (s : RaftServer)
    → find fd s.conns ≡ some c
    → close_callback fd s ≡ offline_conn fd (closing fd c fd s)
unfolding close_callback close_through
close_callback_lem fd c s there = rw (there, close_callback) refl

close_callback_ends :
    (fd : ℕ) (c : Conn) (s : RaftServer)
    → find fd s.conns ≡ some c
    → (t : RaftServer) × (close_callback fd s ≡ ok t) × (find fd t.conns ≡ none)
close_callback_ends fd c s there =
    let c1 = record c { channel = disable_all c.channel } in
    let s' = closing fd c fd s in
    let found : find fd s'.conns ≡ some c1 = ground (arith, find-insert fd fd c1 s.conns) in
    let t = destroy_conn c1 (record s' { conns = erase fd s'.conns }) in
    (
      t,
      close_callback_lem fd c s there ∙ offline_conn_there fd c1 s' found,
      ground (
        arith,
        destroy_conn-frame c1 (record s' { conns = erase fd s'.conns }),
        find-erase fd fd s'.conns,
      ),
    )

live_conn_gone :
    (id fd : ℕ) (s : RaftServer) → find fd s.conns ≡ none → live_conn id fd s ≡ fault dangling
unfolding live_conn
live_conn_gone id fd s gone = rw (gone, live_conn) refl

live_conn_there :
    (fd : ℕ) (c : Conn) (s : RaftServer) → find fd s.conns ≡ some c → live_conn c.id fd s ≡ ok c
unfolding live_conn
live_conn_there fd c s there = ground arith

-- The other side has hung up, or has closed its end and nothing is left to read.
abbrev pub Closes : Revents → Answers → Channel → Type 0
Closes r a ch =
    ((r.hup ≡ true) × (ch.close_callback ≡ some Callback.close_callback))
    ⊎ ((r.hup ≡ false)
        × (r.err ≡ false)
        × (r.readable ≡ true)
        × (ch.read_callback ≡ some Callback.recv_callback)
        × (a.recv ≡ end_of_file))

line_closes :
    (env : Env) (a : Answers) (cb : Channel → Option Callback) (fd : ℕ) (c : Conn) (s : RaftServer)
    → find fd s.conns ≡ some c
    → run_conn_callback env a (cb c.channel) fd s ≡ close_callback fd s
    → (t : RaftServer) × (event_line env a true cb c.id fd s ≡ ok t) × (find fd t.conns ≡ none)
unfolding event_line
line_closes env a cb fd c s there runs =
    let (t, e, gone) = close_callback_ends fd c s there in
    (t, ground (arith, live_conn_there fd c s there), gone)

line_idle :
    (env : Env) (a : Answers) (cb : Channel → Option Callback) (fd : ℕ) (c : Conn) (s : RaftServer)
    → find fd s.conns ≡ some c
    → event_line env a false cb c.id fd s ≡ ok s
unfolding event_line
line_idle env a cb fd c s there = ground (arith, live_conn_there fd c s there)

line_dangles :
    (env : Env) (a : Answers) (flag : Bool) (cb : Channel → Option Callback) (id fd : ℕ)
    (s : RaftServer)
    → find fd s.conns ≡ none
    → event_line env a flag cb id fd s ≡ fault dangling
unfolding event_line
line_dangles env a flag cb id fd s gone = ground (arith, live_conn_gone id fd s gone)

-- When the other side closes, the connection is destroyed while `HandleEvent` of its channel runs,
-- which then goes on with the channel that is gone.
pub handle_conn_event-Closes :
    (env : Env) (a : Answers) (r : Revents) (fd : ℕ) (c : Conn) (s : RaftServer)
    → find fd s.conns ≡ some c
    → c.channel.tied ≡ true
    → Closes r a c.channel
    → handle_conn_event env a r c.id fd s ≡ fault dangling
unfolding handle_conn_event run_conn_callback recv_callback
handle_conn_event-Closes env a r fd c s there tied (inl (hup, bound)) =
    let (t, e, gone) =
      line_closes env a (λ ch. ch.close_callback) fd c s there
        (rw (bound, run_conn_callback) refl) in
    ground (
      arith,
      live_conn_there fd c s there,
      line_dangles env a r.err (λ ch. ch.error_callback) c.id fd t gone,
    )
handle_conn_event-Closes env a r fd c s there tied (inr (hup, err, readable, bound, ended)) =
    let (t, e, gone) =
      line_closes env a (λ ch. ch.read_callback) fd c s there
        (rw (bound, ended, run_conn_callback) refl) in
    ground (
      arith,
      live_conn_there fd c s there,
      line_idle env a (λ ch. ch.close_callback) fd c s there,
      line_idle env a (λ ch. ch.error_callback) fd c s there,
      line_dangles env a r.writable (λ ch. ch.write_callback) c.id fd t gone,
    )
