-- ===== src/Progress/Handlers.antt =====
-- nanoraft/RaftServer.cpp: the server's own operations make progress.
use raft_server.Prelude.{
  Bytes, Extends-append, Extends-refl, List, [], arith, ok, refl, to_string, ℕ, ◌∷◌, ◌≡◌,
}
use raft_server.Mod.Api.Operations.{Operations}
use raft_server.Progress.{Progress, Progress-frame, Progress-refl, Progress-trans}
use raft_server.Nanoraft.Broadcast.{become_follower, set_and_persist_term}
use raft_server.State.{RaftServer}
use raft_server.Env.{Db, Env, delete, write}
use raft_server.Nanoraft.Log.{append_cfg_log, cfg_entry, del_logs, del_logs_from_index}

del_logs-nil : (env : Env) (es : List (Bytes × Bytes)) (db : Db) → (del_logs env es db []).1 ≡ []
unfolding del_logs
del_logs-nil env [] db = refl
del_logs-nil env ((key, value) ∷ es) db = del_logs-nil env es (write env db (delete key)).1

del_logs_from_index-Progress :
    (env : Env) (i : ℕ) (s : RaftServer) → Progress s (del_logs_from_index env i s)
unfolding del_logs_from_index
del_logs_from_index-Progress env i s = record {
  entries = ground (arith, Extends-refl s.entries);
  logs = λ h. ground (arith, del_logs-nil env (env.seek s.entries_db (to_string i)) s.entries_db);
  applied = ground arith;
  voted = ground arith;
  role = λ h. ground arith;
}

append_cfg_log-Progress :
    (env : Env) (host : Bytes) (port node : ℕ) (s : RaftServer)
    → Progress s (append_cfg_log env host port node s)
unfolding append_cfg_log
append_cfg_log-Progress env host port node s =
    let e = cfg_entry s.current_term host port node in
    record {
      entries = ground (arith, Extends-refl s.entries, Extends-append s.entries (e ∷ []));
      logs = λ h. ground arith;
      applied = ground arith;
      voted = ground arith;
      role = λ h. ground arith;
    }

set_and_persist_term-Progress :
    (env : Env) (term : ℕ) (s : RaftServer) {t : RaftServer}
    → set_and_persist_term env term s ≡ ok t
    → Progress s t
unfolding set_and_persist_term
set_and_persist_term-Progress env term s h = Progress-frame (ground arith)

become_follower-Progress : (s : RaftServer) → Progress s (become_follower s)
unfolding become_follower
become_follower-Progress s = record {
  entries = Extends-refl s.entries;
  logs = λ h. h;
  applied = refl;
  voted = refl;
  role = λ h. refl;
}

pub Progress-Operations : Operations (λ env. Progress)
Progress-Operations = record {
  same = Progress-refl;
  next = Progress-trans;
  frame = λ h. Progress-frame (cc (h));
  quiet = λ q. Progress-frame (cc (q.frame));
  change = λ fd c c' s e a. Progress-frame refl;
  drop = λ fd s. Progress-frame refl;
  accept = λ fd addr s. Progress-frame refl;
  append = append_cfg_log-Progress;
  delete = del_logs_from_index-Progress;
  persist = λ env term s newer h. set_and_persist_term-Progress env term s h;
  follow = become_follower-Progress;
}
