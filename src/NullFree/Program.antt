-- ===== src/NullFree/Program.antt =====
-- main.cpp: whatever a process is told to do, it reads through no null pointer.
use raft_server.Prelude.{
  Bool, Bool-cases, Bytes, List, Option, [], exited, fault, if◌then◌else◌, inl, inr, null_pointer,
  ok, some, subst, sym, true, ℕ, ◌&&◌, ◌++◌, ◌>>=◌, ◌∷◌, ◌≡◌, ◌≢◌,
}
use raft_server.Protocol.{Entry, is_cfgadd}
use raft_server.NullFree.Dispatch.{Classed}
use raft_server.Nanoraft.Proxy.{Proxy, leader}
use raft_server.Eventloop.Poll.{Waited, event_loop, poll}
use raft_server.Recovery.Proxies.{adds}
use raft_server.State.{RaftServer, Timer}
use raft_server.Eventloop.Channel.{Callback}
use raft_server.Main.Commands.{
  Command, Given, join_command, own_host, restart_command, run_command, start_command,
}
use raft_server.Redis.Logger.{done}
use raft_server.Net.Connect.{
  Accept, accept_failed, accepted, connect_to_peer, interrupted, run, tcp_accept,
}
use raft_server.NullFree.{>>=-Sound, NoNull, Sound, Sound-elim, Sound-weaken}
use raft_server.Main.{new_server, start}
use raft_server.Map.{find, insert}
use raft_server.Net.Events.{
  Event, Revents, conn_event, handle_event, handle_events, run_timer_callback, server_event,
  timer_event, timer_found,
}
use raft_server.Nanoraft.Peers.{add_proxy, load_all, load_entries, load_entry, load_one}
use raft_server.Env.{Db, Env}
use raft_server.NullFree.Steps.{handle_conn_event-Sound}
use raft_server.Easytimer.{heart_beat_timeout, send_append_entries_timeout}
use raft_server.NullFree.Handlers.{Intact, add_proxy-Sound, append_cfg_log-proxies, broadcast-Sound}
use raft_server.Nanoraft.Broadcast.{become_candidate, become_leader, for_proxies}

tcp_accept-Intact :
    (answers : List Accept) (s : RaftServer) → Intact s → Intact (tcp_accept answers s)
unfolding tcp_accept
tcp_accept-Intact [] s intact = intact
tcp_accept-Intact (interrupted ∷ answers) s intact = tcp_accept-Intact answers s intact
tcp_accept-Intact (accept_failed ∷ answers) s intact = intact
tcp_accept-Intact (accepted fd addr ∷ answers) s intact = intact

run_timer_callback-Sound :
    (env : Env) (cb : Option Callback) (tm : Timer) (s : RaftServer)
    → Intact s
    → Sound Intact (run_timer_callback env cb tm s)
unfolding run_timer_callback send_append_entries_timeout heart_beat_timeout become_candidate
run_timer_callback-Sound env (some Callback.send_append_entries_callback) tm s intact =
    broadcast-Sound env true
      (record s { timers = insert tm.type (some (record tm { is_run = true })) s.timers }) intact
run_timer_callback-Sound env (some Callback.heart_beat_timeout_callback) tm s intact = intact
run_timer_callback-Sound env cb tm s intact = intact

timer_found-Sound :
    (env : Env) (tm : Option (Option Timer)) (r : Revents) (s : RaftServer)
    → Intact s
    → Sound Intact (timer_found env tm r s)
timer_found-Sound env (some (some tm)) r s intact =
    elim (Bool-cases (r.readable && tm.channel.tied)) [
      | inl due ↦ rw due (run_timer_callback-Sound env tm.channel.read_callback tm s intact)
      | inr idle ↦ rw idle intact
    ]
timer_found-Sound env _ r s intact = λ h. cc

handle_event-Sound :
    (env : Env) (e : Event) (s : RaftServer)
    → Classed env
    → Intact s
    → Sound Intact (handle_event env e s)
unfolding handle_event
handle_event-Sound env (server_event r a) s classed intact = elim (Bool-cases r.readable) [
  | inl due ↦ rw due (tcp_accept-Intact a.accepts s intact)
  | inr idle ↦ rw idle intact
]
handle_event-Sound env (conn_event id fd r a) s classed intact =
    handle_conn_event-Sound env a r id fd s classed intact
handle_event-Sound env (timer_event i r) s classed intact =
    timer_found-Sound env (find i s.timers) r s intact

handle_events-Sound :
    (env : Env) (es : List Event) (s : RaftServer)
    → Classed env
    → Intact s
    → Sound Intact (handle_events env es s)
unfolding handle_events
handle_events-Sound env [] s classed intact = intact
handle_events-Sound env (e ∷ es) s classed intact =
    >>=-Sound Intact Intact (handle_event env e s) (handle_events env es)
      (handle_event-Sound env e s classed intact) (λ t f h. handle_events-Sound env es t classed h)

event_loop-Sound :
    (env : Env) (waits : List (Waited × Bool)) (s : RaftServer)
    → Classed env
    → Intact s
    → Sound Intact (event_loop env waits s)
unfolding event_loop
event_loop-Sound env [] s classed intact = intact
event_loop-Sound env ((w, stop) ∷ waits) s classed intact =
    >>=-Sound Intact Intact (handle_events env (poll w []) s)
      (λ t. if stop then ok t else event_loop env waits t)
      (handle_events-Sound env (poll w []) s classed intact)
      (λ t f h. elim (Bool-cases stop) [
        | inl done ↦ rw done h
        | inr more ↦ rw more (event_loop-Sound env waits t classed h)
      ])

load_one-Sound : (e : Entry) (s : RaftServer) → Intact s → Sound Intact (load_one e s)
unfolding load_one
load_one-Sound e s intact =
    >>=-Sound Intact Intact (if is_cfgadd e.type then add_proxy e.nodeid s else ok s)
      (λ t. ok (record t { entries = t.entries ++ (e ∷ []) }))
      (elim (Bool-cases (is_cfgadd e.type)) [
        | inl adds ↦ rw adds (
            Sound-weaken (λ t. Intact t × ((p : Proxy) × (find e.nodeid t.proxies ≡ some (some p))))
              Intact (add_proxy e.nodeid s) (λ t h. h.0) (add_proxy-Sound e.nodeid s intact))
        | inr other ↦ rw other intact
      ])
      (λ t f h. h)

load_all-Sound :
    (env : Env) (m : List (Bytes × Bytes)) (s : RaftServer)
    → Intact s
    → Sound Intact (load_all env m s)
unfolding load_all
load_all-Sound env [] s intact = intact
load_all-Sound env ((key, value) ∷ m) s intact =
    >>=-Sound Intact Intact (load_one (load_entry env value) s) (load_all env m)
      (load_one-Sound (load_entry env value) s intact) (λ t f h. load_all-Sound env m t h)

load_entries-Sound : (env : Env) (s : RaftServer) → Intact s → Sound Intact (load_entries env s)
unfolding load_entries
load_entries-Sound env s intact =
    >>=-Sound Intact Intact (load_all env (env.scan s.entries_db) (record s { entries = [] }))
      (λ t. if env.scan_ok s.entries_db then ok t else fault exited)
      (load_all-Sound env (env.scan s.entries_db) (record s { entries = [] }) intact)
      (λ t f h. elim (Bool-cases (env.scan_ok s.entries_db)) [
        | inl good ↦ rw good h
        | inr bad ↦ rw bad (λ g. cc)
      ])

run_command-Sound :
    (env : Env) (g : Given) (command : Command) (state_db entries_db : Db) (fd : ℕ)
    (sends : ℕ → Option ℕ)
    → Sound Intact (run_command env g command (new_server state_db entries_db fd sends))
unfolding run_command new_server start become_leader run for_proxies connect_to_peer
run_command-Sound env g (start_command node port) state_db entries_db fd sends =
    let opened = record (new_server state_db entries_db fd sends) { role = leader } in
    subst NoNull (sym (append_cfg_log-proxies env own_host port node opened)) tt
run_command-Sound env g (join_command node address join_port port) state_db entries_db fd sends = tt
run_command-Sound env g restart_command state_db entries_db fd sends =
    load_entries-Sound env (new_server state_db entries_db fd sends) tt

-- Where protobuf parses into the class that it was asked for: a process that starts, joins or
-- restarts, and then goes through whatever epoll reports, reads through no null pointer.
pub event_loop-null_pointer :
    (env : Env) (g : Given) (command : Command) (state_db entries_db : Db) (fd : ℕ)
    (sends : ℕ → Option ℕ) (waits : List (Waited × Bool))
    → Classed env
    → (run_command env g command (new_server state_db entries_db fd sends) >>= event_loop env waits)
      ≢ fault null_pointer
event_loop-null_pointer env g command state_db entries_db fd sends waits classed =
    let begun = run_command env g command (new_server state_db entries_db fd sends) in
    Sound-elim Intact (begun >>= event_loop env waits) (
      >>=-Sound Intact Intact begun (event_loop env waits)
        (run_command-Sound env g command state_db entries_db fd sends)
        (λ t e h. event_loop-Sound env waits t classed h))
