-- ===== src/Net/WellFormed/Steps.antt =====
-- eventloop/EventLoop.cpp: the connections stay well-formed whatever happens.
use raft_server.Prelude.{Bytes, List, Option, arith, ok, refl, subst, sym, ℕ, ◌≡◌}
use raft_server.Net.Events.Elections.{loop_keeps}
use raft_server.Mod.Api.Operations.{Operations}
use raft_server.Mod.Api.Kept.{Operations-Kept}
use raft_server.Nanoraft.Log.{append_cfg_log, del_logs_from_index}
use raft_server.State.{RaftServer}
use raft_server.Net.Events.{Event, loop}
use raft_server.Nanoraft.Broadcast.{become_candidate, become_follower, set_and_persist_term}
use raft_server.Net.Connect.{Connect, new_conn, connect_to_peer, try_connect, failed, in_progress}
use raft_server.Main.{join}
use raft_server.Env.{Env}
use raft_server.Net.WellFormed.{
  Subset, Subset-WellFormed, WellFormed, erase-Subset, insert-Subset, insert-WellFormed,
  quiet-Subset,
}

record StaysWellFormed (env : Env) (s t : RaftServer) : Type 0 where
  stays : WellFormed s.next_conn s.conns → WellFormed t.next_conn t.conns

same_conns :
    {env : Env} {s t : RaftServer}
    → t.conns ≡ s.conns
    → t.next_conn ≡ s.next_conn
    → StaysWellFormed env s t
same_conns {env} {s} {t} e n = record {
  stays = λ w.
      subst (λ m. WellFormed t.next_conn m) (sym e) (subst (λ i. WellFormed i s.conns) (sym n) w);
}

fewer_conns :
    {env : Env} {s t : RaftServer}
    → Subset s.conns t.conns
    → t.next_conn ≡ s.next_conn
    → StaysWellFormed env s t
fewer_conns {env} {s} {t} sub n = record {
  stays = λ w. subst (λ i. WellFormed i t.conns) (sym n) (Subset-WellFormed sub w);
}

append_cfg_log-StaysWellFormed :
    (env : Env) (host : Bytes) (port node : ℕ) (s : RaftServer)
    → StaysWellFormed env s (append_cfg_log env host port node s)
unfolding append_cfg_log
append_cfg_log-StaysWellFormed env host port node s = same_conns (ground arith) (ground arith)

del_logs_from_index-StaysWellFormed :
    (env : Env) (i : ℕ) (s : RaftServer) → StaysWellFormed env s (del_logs_from_index env i s)
unfolding del_logs_from_index
del_logs_from_index-StaysWellFormed env i s = same_conns (ground arith) (ground arith)

set_and_persist_term-StaysWellFormed :
    (env : Env) (term : ℕ) (s : RaftServer) {t : RaftServer}
    → set_and_persist_term env term s ≡ ok t
    → StaysWellFormed env s t
unfolding set_and_persist_term
set_and_persist_term-StaysWellFormed env term s h = same_conns (ground arith) (ground arith)

become_follower-StaysWellFormed :
    {env : Env} (s : RaftServer) → StaysWellFormed env s (become_follower s)
unfolding become_follower
become_follower-StaysWellFormed s = same_conns refl refl

become_candidate-StaysWellFormed :
    (env : Env) (s : RaftServer) → StaysWellFormed env s (become_candidate s)
unfolding become_candidate
become_candidate-StaysWellFormed env s = same_conns refl refl

StaysWellFormed-Operations : Operations StaysWellFormed
unfolding new_conn
StaysWellFormed-Operations = record {
  same = λ s. same_conns refl refl;
  next = λ p q. record { stays = λ w. q.stays (p.stays w) };
  frame = λ h. same_conns (cc (h)) (cc (h));
  quiet = λ q. fewer_conns (quiet-Subset q) (cc (q.frame));
  change = λ fd c c' s e a. fewer_conns (insert-Subset fd c c' s.conns e a) refl;
  drop = λ fd s. fewer_conns (erase-Subset fd s.conns) refl;
  accept = λ fd addr s. record {
    stays = insert-WellFormed fd (new_conn s.next_conn fd addr) s.next_conn s.conns refl refl refl;
  };
  append = append_cfg_log-StaysWellFormed;
  delete = del_logs_from_index-StaysWellFormed;
  persist = λ env term s newer h. set_and_persist_term-StaysWellFormed env term s h;
  follow = become_follower-StaysWellFormed;
}

-- The one connection with which a node begins that joins others.
pub join-WellFormed :
    (answer : Connect) (fd : ℕ) (timer_fd : Option ℕ) (addr : Bytes) (port node raft_port : ℕ)
    (s : RaftServer)
    → WellFormed s.next_conn s.conns
    → let t = join answer fd timer_fd addr port node raft_port s in WellFormed t.next_conn t.conns
unfolding connect_to_peer new_conn try_connect
join-WellFormed in_progress fd timer_fd addr port node raft_port s w =
    insert-WellFormed fd _ s.next_conn s.conns refl refl refl w
join-WellFormed Connect.connected fd timer_fd addr port node raft_port s w =
    insert-WellFormed fd _ s.next_conn s.conns refl refl refl w
join-WellFormed failed fd timer_fd addr port node raft_port s w =
    insert-WellFormed fd _ s.next_conn s.conns refl refl refl w

-- Whatever events the loop handles, every connection stays under its own fd, epoll watches exactly
-- what its channel says, and no two connections are the same object.
pub loop-WellFormed :
    (env : Env) (polls : List (List Event)) (s : RaftServer) {t : RaftServer}
    → loop env polls s ≡ ok t
    → WellFormed s.next_conn s.conns
    → WellFormed t.next_conn t.conns
loop-WellFormed env polls s h =
    let kept =
      loop_keeps StaysWellFormed (Operations-Kept StaysWellFormed StaysWellFormed-Operations)
        become_candidate-StaysWellFormed env polls s h in
    kept.stays
