-- ===== src/Net/Events/Elections.antt =====
-- eventloop/EventLoop.cpp: every event, the timers' included, keeps what `become_candidate` keeps.
use raft_server.Prelude.{
  >>=-eq-ok, Bool-cases, List, Option, [], arith, inl, inr, ok, refl, some, subst, true, ◌&&◌, ◌∷◌,
  ◌≡◌,
}
use raft_server.Nanoraft.Broadcast.Quiet.{broadcast_append_entries-IsQuiet}
use raft_server.Env.{Env}
use raft_server.Eventloop.Channel.{Callback}
use raft_server.Nanoraft.Broadcast.{become_candidate}
use raft_server.Net.Events.Kept.{Kept, handle_conn_event_keeps, quiet_keeps, tcp_accept_keeps}
use raft_server.State.{RaftServer, Timer}
use raft_server.Easytimer.{heart_beat_timeout, send_append_entries_timeout}
use raft_server.Net.Events.{
  Event, Revents, conn_event, handle_event, handle_events, loop, run_timer_callback, server_event,
  timer_event, timer_found,
}
use raft_server.Map.{find, insert}

-- What an election's timeout keeps, too, every event keeps.
module _ (R : Env → RaftServer → RaftServer → Type 0) (k : Kept R)
    (elects : (env : Env) (s : RaftServer) → R env s (become_candidate s)) where
  run_timer_callback_keeps :
      (env : Env) (cb : Option Callback) (tm : Timer) (s : RaftServer) {t : RaftServer}
      → run_timer_callback env cb tm s ≡ ok t
      → R env s t
  unfolding run_timer_callback send_append_entries_timeout heart_beat_timeout become_candidate
  run_timer_callback_keeps env (some Callback.send_append_entries_callback) tm s {t} h =
      let s' = record s { timers = insert tm.type (some (record tm { is_run = true })) s.timers } in
      k.next (k.frame {s = s} {t = s'} refl)
        (quiet_keeps R k (broadcast_append_entries-IsQuiet env true s' h))
  run_timer_callback_keeps env (some Callback.heart_beat_timeout_callback) tm s h =
      subst (R env s) (ground arith) (elects env s)
  run_timer_callback_keeps env cb tm s h = k.frame (ground arith)

  timer_found_keeps :
      (env : Env) (tm : Option (Option Timer)) (r : Revents) (s : RaftServer) {t : RaftServer}
      → timer_found env tm r s ≡ ok t
      → R env s t
  timer_found_keeps env (some (some tm)) r s h = elim (Bool-cases (r.readable && tm.channel.tied)) [
    | inl due ↦ run_timer_callback_keeps env tm.channel.read_callback tm s (rw due at h)
    | inr quiet ↦ subst (R env s) (ground arith) (k.same s)
  ]
  timer_found_keeps env _ r s h = ground arith

  handle_event_keeps :
      (env : Env) (e : Event) (s : RaftServer) {t : RaftServer}
      → handle_event env e s ≡ ok t
      → R env s t
  unfolding handle_event
  handle_event_keeps env (server_event r a) s h = elim (Bool-cases r.readable) [
    | inl due ↦ subst (R env s) (ground arith) (tcp_accept_keeps R k a.accepts s)
    | inr quiet ↦ subst (R env s) (ground arith) (k.same s)
  ]
  handle_event_keeps env (conn_event id fd r a) s h = handle_conn_event_keeps R k env a r id fd s h
  handle_event_keeps env (timer_event i r) s h = timer_found_keeps env (find i s.timers) r s h

  handle_events_keeps :
      (env : Env) (es : List Event) (s : RaftServer) {t : RaftServer}
      → handle_events env es s ≡ ok t
      → R env s t
  unfolding handle_events
  handle_events_keeps env [] s h = subst (R env s) (ground arith) (k.same s)
  handle_events_keeps env (e ∷ es) s {t} h =
      let (s1, p, h1) = >>=-eq-ok (handle_event env e s) _ h in
      k.next (handle_event_keeps env e s p) (handle_events_keeps env es s1 h1)

  pub loop_keeps :
      (env : Env) (polls : List (List Event)) (s : RaftServer) {t : RaftServer}
      → loop env polls s ≡ ok t
      → R env s t
  unfolding loop
  loop_keeps env [] s h = subst (R env s) (ground arith) (k.same s)
  loop_keeps env (p ∷ ps) s {t} h =
      let (s1, e, h1) = >>=-eq-ok (handle_events env p s) _ h in
      k.next (handle_events_keeps env p s e) (loop_keeps env ps s1 h1)
