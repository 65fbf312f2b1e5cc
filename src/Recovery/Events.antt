-- ===== src/Recovery/Events.antt =====
-- eventloop/EventLoop.cpp against nanoraft/RaftServer.cpp: the log that a restart reads after any
-- events.
use raft_server.Prelude.{
  Bool, Bool-cases, Bytes, List, Option, [], arith, inl, inr, length, length-append, ltb, ok, refl,
  subst, sym, u32, ℕ, ◌+◌, ◌<◌, ◌∙◌, ◌∷◌, ◌≡◌, ◌≤◌,
}
use raft_server.Eventloop.Poll.{Waited, event_loop, event_loop-loop, until_stop}
use raft_server.Recovery.Proxies.{KnowsAdded, load_entries-KnowsAdded}
use raft_server.Nanoraft.Proxy.{leader}
use raft_server.State.{RaftServer}
use raft_server.Net.Connect.{run}
use raft_server.Mod.Api.Kept.{Operations-Kept}
use raft_server.Nanoraft.Comparator.{int_max}
use raft_server.Nanoraft.Log.{append_cfg_log, cfg_entry, del_logs, del_logs_from_index}
use raft_server.Recovery.{
  IsLogged, Ordered, append_cfg_log-IsLogged, load_entries-IsLogged, reload_all, length-stored_all,
  stored_all,
}
use raft_server.Nanoraft.Broadcast.{
  become_candidate, become_follower, set_and_persist_term, become_leader,
}
use raft_server.Mod.Api.Operations.{Operations}
use raft_server.Main.{new_server, restart, start}
use raft_server.Net.Events.Elections.{loop_keeps}
use raft_server.Env.{Db, Env}

-- The log is in leveldb as it is in memory, and the deque `m_stLogs_` is empty.
abbrev pub Logged : Env → RaftServer → Type 0
Logged env s = IsLogged env s × (s.logs ≡ [])

-- What every event keeps, as long as the log does not leave the indices that are keys.
record Recorded (env : Env) (s t : RaftServer) : Type 0 where
  grows : length s.entries ≤ length t.entries
  logged : Ordered env → length t.entries < int_max → Logged env s → Logged env t

Recorded-same :
    {env : Env} {s t : RaftServer}
    → t.entries ≡ s.entries
    → t.entries_db ≡ s.entries_db
    → t.logs ≡ s.logs
    → Recorded env s t
Recorded-same {env} {s} {t} e d l = record {
  grows = ground (arith, e);
  logged = λ o b h. (cc (h.0), cc (h.1));
}

Recorded-trans :
    {env : Env} {s t u : RaftServer} → Recorded env s t → Recorded env t u → Recorded env s u
Recorded-trans p q = record {
  grows = omega (arith, p.grows, q.grows);
  logged = λ o b h. q.logged o b (p.logged o (omega (arith, b, q.grows)) h);
}

append_cfg_log-Recorded :
    (env : Env) (host : Bytes) (port node : ℕ) (s : RaftServer)
    → Recorded env s (append_cfg_log env host port node s)
unfolding append_cfg_log
append_cfg_log-Recorded env host port node s = record {
  grows = longer;
  logged = λ o b h.
      (append_cfg_log-IsLogged env host port node s o (omega (arith, b, longer)) h.0, same ∙ h.1);
}
  where
    longer : length s.entries ≤ length (append_cfg_log env host port node s).entries
    longer =
        let e = cfg_entry s.current_term host port node in
        ground (arith, length-append s.entries (e ∷ []))

    same : (append_cfg_log env host port node s).logs ≡ s.logs
    same = ground arith

-- `iExistingTerm` may be -1, but no key stands behind the last index.
del_logs_from_index-Logged :
    (env : Env) (i : ℕ) (s : RaftServer)
    → Ordered env
    → length s.entries < int_max
    → Logged env s
    → Logged env (del_logs_from_index env i s)
unfolding del_logs_from_index del_logs
del_logs_from_index-Logged env i s o b h = elim (Bool-cases (ltb (length s.logs) (u32 (i + 1)))) [
  | inl kept ↦ rw kept h
  | inr last ↦
      let size = length-stored_all env s.entries in
      let none_left : length s.logs ≡ 0 = cc (h.1) in
      let behind : length s.entries ≤ i = ground (arith, last, none_left) in
      let nothing =
        o.past s.entries_db (stored_all env s.entries) i h.0 (omega (arith, size, b))
          (omega (arith, size, behind)) in
      rw (last, nothing) h
]

length-del_logs_from_index :
    (env : Env) (i : ℕ) (s : RaftServer)
    → length (del_logs_from_index env i s).entries ≡ length s.entries
unfolding del_logs_from_index
length-del_logs_from_index env i s = ground arith

del_logs_from_index-Recorded :
    (env : Env) (i : ℕ) (s : RaftServer) → Recorded env s (del_logs_from_index env i s)
del_logs_from_index-Recorded env i s = record {
  grows = omega (arith, length-del_logs_from_index env i s);
  logged = λ o b h.
      del_logs_from_index-Logged env i s o (omega (arith, b, length-del_logs_from_index env i s)) h;
}

set_and_persist_term-Recorded :
    (env : Env) (term : ℕ) (s : RaftServer) {t : RaftServer}
    → set_and_persist_term env term s ≡ ok t
    → Recorded env s t
unfolding set_and_persist_term
set_and_persist_term-Recorded env term s h =
    Recorded-same (ground arith) (ground arith) (ground arith)

become_follower-Recorded : {env : Env} (s : RaftServer) → Recorded env s (become_follower s)
unfolding become_follower
become_follower-Recorded s = Recorded-same refl refl refl

become_candidate-Recorded : (env : Env) (s : RaftServer) → Recorded env s (become_candidate s)
unfolding become_candidate
become_candidate-Recorded env s = Recorded-same refl refl refl

Recorded-Operations : Operations Recorded
Recorded-Operations = record {
  same = λ s. Recorded-same refl refl refl;
  next = Recorded-trans;
  frame = λ h. Recorded-same (cc (h)) (cc (h)) (cc (h));
  quiet = λ q. Recorded-same (cc (q.frame)) (cc (q.frame)) (cc (q.frame));
  change = λ fd c c' s e a. Recorded-same refl refl refl;
  drop = λ fd s. Recorded-same refl refl refl;
  accept = λ fd addr s. Recorded-same refl refl refl;
  append = append_cfg_log-Recorded;
  delete = del_logs_from_index-Recorded;
  persist = λ env term s newer h. set_and_persist_term-Recorded env term s h;
  follow = become_follower-Recorded;
}

start-Logged :
    (env : Env) (host : Bytes) (raft_port node : ℕ) (timer_fd : Option ℕ) (state_db : Db) (fd : ℕ)
    (sends : ℕ → Option ℕ) {s : RaftServer}
    → Ordered env
    → start env host raft_port node timer_fd (new_server state_db [] fd sends) ≡ ok s
    → Logged env s
unfolding start new_server become_leader run append_cfg_log
start-Logged env host raft_port node timer_fd state_db fd sends {s} o h =
    let opened = record (new_server state_db [] fd sends) { role = leader } in
    let first = append_cfg_log env host raft_port node opened in
    let logged = append_cfg_log-IsLogged env host raft_port node opened o (ground arith) o.empty in
    let after : run timer_fd first ≡ s = ground arith in
    subst (Logged env) after (logged, ground arith)

-- The first node starts with an empty log, and goes through whatever epoll reports. If the process stops then, a
-- restart on what it has stored reads as many entries as were in memory, in the same order, each as
-- it was stored, and knows exactly the nodes that the entries it has read add.
pub load_entries-event_loop :
    (env : Env) (host : Bytes) (raft_port node : ℕ) (timer_fd : Option ℕ) (state_db : Db) (fd : ℕ)
    (sends : ℕ → Option ℕ) (waits : List (Waited × Bool)) {s t : RaftServer}
    → Ordered env
    → start env host raft_port node timer_fd (new_server state_db [] fd sends) ≡ ok s
    → event_loop env waits s ≡ ok t
    → length t.entries < int_max
    → (u : RaftServer) × (restart env (new_server t.state_db t.entries_db fd sends) ≡ ok u)
      × (u.entries ≡ reload_all env t.entries)
      × KnowsAdded u
unfolding new_server
load_entries-event_loop env host raft_port node timer_fd state_db fd sends waits {s} {t} o h run b =
    let kept =
      loop_keeps Recorded (Operations-Kept Recorded Recorded-Operations) become_candidate-Recorded
        env (until_stop waits) s (sym (event_loop-loop env waits s) ∙ run) in
    let logged = start-Logged env host raft_port node timer_fd state_db fd sends o h in
    let opened = new_server t.state_db t.entries_db fd sends in
    let (u, p, e) = load_entries-IsLogged env t opened o (kept.logged o b logged).0 refl refl in
    (u, p, e, load_entries-KnowsAdded env opened refl p)
