-- ===== src/Durable.antt =====
-- nanoraft/RaftServer.cpp, `SetAndPersistTerm`: the term in memory and in leveldb.
use raft_server.Prelude.{
  Bytes, [], arith, inl, inr, ok, refl, to_string, ℕ, ◌++◌, ◌<◌, ◌∙◌, ◌∷◌, ◌≡◌, ◌≤◌, ◌⊎◌,
}
use raft_server.Main.{start}
use raft_server.Net.Events.Kept.{handle_conn_event_keeps}
use raft_server.Mod.Api.Operations.{Operations}
use raft_server.Net.Events.{Answers, Revents, handle_conn_event}
use raft_server.Nanoraft.Log.{append_cfg_log, del_logs_from_index, stored}
use raft_server.Nanoraft.Broadcast.{become_follower, set_and_persist_term, term_key}
use raft_server.Mod.Api.Kept.{Operations-Kept}
use raft_server.State.{RaftServer}
use raft_server.Env.{Db, Env, put}

-- The term was never changed and never stored, or it is what was stored last.
abbrev pub IsPersisted : RaftServer → Type 0
IsPersisted s =
    ((s.current_term ≡ 0) × (s.state_db ≡ []))
    ⊎ ((before : Db) × (s.state_db ≡ before ++ (put term_key (to_string s.current_term) ∷ [])))

-- The term does not go back, and what is in memory is in leveldb.
pub record Durable (s t : RaftServer) : Type 0 where
  pub term : s.current_term ≤ t.current_term
  pub persisted : IsPersisted s → IsPersisted t

Durable-same :
    {s t : RaftServer} → t.current_term ≡ s.current_term → t.state_db ≡ s.state_db → Durable s t
Durable-same {s} {t} e d = record { term = omega (arith, e); persisted = λ h. kept h }
  where
    kept : IsPersisted s → IsPersisted t
    kept (inl (start, empty)) = inl (e ∙ start, d ∙ empty)
    kept (inr (before, stored)) = inr (before, cc)

set_and_persist_term-Durable :
    (env : Env) (term : ℕ) (s : RaftServer) {t : RaftServer}
    → s.current_term < term
    → set_and_persist_term env term s ≡ ok t
    → Durable s t
unfolding set_and_persist_term
set_and_persist_term-Durable env term s newer h = record {
  term = ground arith;
  persisted = λ p. inr (s.state_db, ground arith);
}

del_logs_from_index-Durable :
    (env : Env) (i : ℕ) (s : RaftServer) → Durable s (del_logs_from_index env i s)
unfolding del_logs_from_index
del_logs_from_index-Durable env i s = Durable-same (ground arith) (ground arith)

append_cfg_log-Durable :
    (env : Env) (host : Bytes) (port node : ℕ) (s : RaftServer)
    → Durable s (append_cfg_log env host port node s)
unfolding append_cfg_log
append_cfg_log-Durable env host port node s = Durable-same (ground arith) (ground arith)

become_follower-Durable : (s : RaftServer) → Durable s (become_follower s)
unfolding become_follower
become_follower-Durable s = Durable-same refl refl

Durable-Operations : Operations (λ env. Durable)
Durable-Operations = record {
  same = λ s. Durable-same refl refl;
  next = λ p q. record {
    term = omega (arith, p.term, q.term);
    persisted = λ h. q.persisted (p.persisted h);
  };
  frame = λ h. Durable-same (cc (h)) (cc (h));
  quiet = λ q. Durable-same (cc (q.frame)) (cc (q.frame));
  change = λ fd c c' s e a. Durable-same refl refl;
  drop = λ fd s. Durable-same refl refl;
  accept = λ fd addr s. Durable-same refl refl;
  append = append_cfg_log-Durable;
  delete = del_logs_from_index-Durable;
  persist = set_and_persist_term-Durable;
  follow = become_follower-Durable;
}

-- Whatever a connection's event brings, and however many messages, the term does not go back, and
-- the term in memory is the one that was stored last, if it was so before.
pub handle_conn_event-Durable :
    (env : Env) (a : Answers) (r : Revents) (id fd : ℕ) (s : RaftServer) {t : RaftServer}
    → handle_conn_event env a r id fd s ≡ ok t
    → Durable s t
handle_conn_event-Durable env a r id fd s h =
    handle_conn_event_keeps (λ env. Durable) (Operations-Kept (λ env. Durable) Durable-Operations)
      env a r id fd s h
