-- ===== src/Mod/Api/Operations.antt =====
-- mod/ModApi.hpp: the operations through which the handlers change the server.
use raft_server.Prelude.{
  >>=-eq-ok, Bool-cases, Bytes, List, Option-cases, [], ap, arith, eq_ℤ, if◌then◌else◌, inl, inr,
  length, ltb, minus_one, not, ok, refl, some, subst, sym, to_int, to_uint32, u32, ℕ, ◌&&◌, ◌+◌,
  ◌<◌, ◌==◌, ◌||◌, ◌∷◌, ◌≡◌,
}
use raft_server.Eventloop.Channel.{disable_all}
use raft_server.Eventloop.Channel.Mirror.{no_events}
use raft_server.Map.{erase, find, insert}
use raft_server.Net.Connect.{new_conn}
use raft_server.Net.Alike.{Alike, Alike-channel, Alike-operate}
use raft_server.Net.Send.{lock_proxy}
use raft_server.Net.Send.Quiet.{IsQuiet}
use raft_server.Nanoraft.Peers.{add_proxy, get_proxy_by_id}
use raft_server.Nanoraft.Proxy.{Proxy}
use raft_server.Nanoraft.Broadcast.{become_follower, set_and_persist_term}
use raft_server.Easytimer.{fresh_time}
use raft_server.Protocol.{AppendEntriesQ, AppendEntriesR, Entry, is_cfgadd, is_cfgrem}
use raft_server.Nanoraft.Log.{append_cfg_log, del_logs_from_index, log_term_by_index}
use raft_server.State.{Conn, RaftServer, set_conn}
use raft_server.Env.{Env}
use raft_server.Mod.Api.{
  Verdict, append_entries, append_one, record_success, resolve_conflicts, take_entries,
}
use raft_server.Net.Server.{tie, close_through, offline_conn, on_proxy, server_close_conn}

-- The operations through which the handlers change the server, and what the relation does not look at.
pub record Operations (R : Env → RaftServer → RaftServer → Type 0) : Type 0 where
  pub same : {env : Env} (s : RaftServer) → R env s s
  pub next : {env : Env} {s t u : RaftServer} → R env s t → R env t u → R env s u
  pub frame :
      {env : Env} {s t : RaftServer}
      → t ≡ record s {
        net = t.net;
        timers = t.timers;
        proxies = t.proxies;
        commit_index = t.commit_index;
      }
      → R env s t
  pub quiet : {env : Env} {s t : RaftServer} → IsQuiet s t → R env s t
  pub change :
      {env : Env} (fd : ℕ) (c c' : Conn) (s : RaftServer)
      → find fd s.conns ≡ some c
      → Alike c c'
      → R env s (set_conn fd c' s)
  pub drop : {env : Env} (fd : ℕ) (s : RaftServer) → R env s (record s { conns = erase fd s.conns })
  pub accept :
      {env : Env} (fd : ℕ) (addr : Bytes) (s : RaftServer)
      → R env s (record s {
        conns = insert fd (new_conn s.next_conn fd addr) s.conns;
        next_conn = s.next_conn + 1;
      })
  pub append :
      (env : Env) (host : Bytes) (port node : ℕ) (s : RaftServer)
      → R env s (append_cfg_log env host port node s)
  pub delete : (env : Env) (i : ℕ) (s : RaftServer) → R env s (del_logs_from_index env i s)
  pub persist :
      (env : Env) (term : ℕ) (s : RaftServer) {t : RaftServer}
      → s.current_term < term
      → set_and_persist_term env term s ≡ ok t
      → R env s t
  pub follow : {env : Env} (s : RaftServer) → R env s (become_follower s)

module _ (R : Env → RaftServer → RaftServer → Type 0) (k : Operations R) where
  pub sending_keeps : {env : Env} {s t : RaftServer} → IsQuiet s t → R env s t
  sending_keeps q = k.quiet q

  resolve_conflicts_keeps :
      (env : Env) (prev i : ℕ) (es : List Entry) (s : RaftServer) {es' : List Entry}
      {s' : RaftServer}
      → resolve_conflicts env prev i es s ≡ ok (es', s')
      → R env s s'
  unfolding resolve_conflicts
  resolve_conflicts_keeps env prev i [] s h = subst (R env s) (ground arith) (k.same s)
  resolve_conflicts_keeps env prev i (e ∷ es) s {es'} {s'} h =
      let index = u32 (prev + 1 + i) in
      let (t, p, rest) = >>=-eq-ok (log_term_by_index index s) _ h in
      elim (Bool-cases
        (not (eq_ℤ t minus_one) && (not (eq_ℤ t (to_int e.term)) && ltb s.commit_index index))) [
          | inl conflict ↦
              let s1 = del_logs_from_index env (to_uint32 t) s in
              k.next (k.delete env (to_uint32 t) s) (
                resolve_conflicts_keeps env prev (i + 1) es s1 {es' = es'} (
                  rw
                    (sym (
                      ap
                        (λ b.
                          if b then resolve_conflicts env prev (i + 1) es s1 else ok (e ∷ es, s))
                        conflict))
                    rest))
          | inr none_left ↦ subst (R env s) (ground arith) (k.same s)
        ]

  pub add_proxy_keeps :
      {env : Env} (id : ℕ) (s : RaftServer) {t : RaftServer} → add_proxy id s ≡ ok t → R env s t
  unfolding add_proxy
  add_proxy_keeps id s h = k.frame (ground arith)

  pub tie_keeps : {env : Env} (id fd : ℕ) (s : RaftServer) → R env s (tie id fd s)
  unfolding tie get_proxy_by_id lock_proxy
  tie_keeps id fd s = elim (Option-cases (find fd s.conns)) [
    | inl e ↦ rw (e, tie) (k.same s)
    | inr (c, e) ↦
        let c' = record c { proxy = (get_proxy_by_id id s).0 } in
        k.next (k.change fd c c' s e (Alike-channel refl refl refl))
          (k.frame {s = set_conn fd c' s} {t = tie id fd s} (ground arith))
  ]

  on_proxy_keeps :
      {env : Env} (f : Proxy → Proxy) (fd : ℕ) (s : RaftServer) → R env s (on_proxy f fd s)
  unfolding on_proxy lock_proxy
  on_proxy_keeps f fd s = k.frame (ground arith)

  pub record_success_keeps :
      {env : Env} (fd : ℕ) (r : AppendEntriesR) (s : RaftServer) → R env s (record_success fd r s)
  unfolding on_proxy lock_proxy
  record_success_keeps fd r s = k.frame (ground arith)

  close_through_keeps :
      {env : Env} (own : ℕ) (c : Conn) (fd : ℕ) (s : RaftServer) {t : RaftServer}
      → find own s.conns ≡ some c
      → close_through own c fd s ≡ ok t
      → R env s t
  unfolding close_through offline_conn
  close_through_keeps own c fd s {t} e h =
      let c' = record c { channel = disable_all c.channel } in
      let s1 = set_conn own c' s in
      let s2 = record s1 { conns = erase fd s1.conns } in
      k.next (k.change own c c' s e (Alike-operate no_events c))
        (k.next (k.drop fd s1) (k.frame {s = s2} {t = t} (ground arith)))

  pub server_close_conn_keeps :
      {env : Env} (own fd : ℕ) (s : RaftServer) {t : RaftServer}
      → server_close_conn own fd s ≡ ok t
      → R env s t
  unfolding server_close_conn
  server_close_conn_keeps {env} own fd s {t} h = elim (Option-cases (find own s.conns)) [
    | inl e ↦ subst (R env s) (ground arith) (k.same s)
    | inr (c, e) ↦ close_through_keeps own c fd s e (ground arith)
  ]

  append_one_keeps : (env : Env) (e : Entry) (s : RaftServer) → R env s (append_one env e s)
  unfolding append_one
  append_one_keeps env e s = elim (Bool-cases (is_cfgadd e.type || is_cfgrem e.type)) [
    | inl change ↦ rw change (k.append env e.host e.port e.nodeid s)
    | inr plain ↦ rw plain (k.same s)
  ]

  append_entries_keeps :
      (env : Env) (es : List Entry) (s : RaftServer) → R env s (append_entries env es s)
  unfolding append_entries
  append_entries_keeps env [] s = k.same s
  append_entries_keeps env (e ∷ es) s =
      k.next (append_one_keeps env e s) (append_entries_keeps env es (append_one env e s))

  pub take_entries_keeps :
      (env : Env) (q : AppendEntriesQ) (s : RaftServer) {v : Verdict} {s' : RaftServer}
      → take_entries env q s ≡ ok (v, s')
      → R env s s'
  unfolding take_entries fresh_time
  take_entries_keeps env q s {v} {s'} h = elim (Bool-cases (length q.entries == 0)) [
    | inl without ↦ k.frame (ground arith)
    | inr with_entries ↦
        let ((es, s1), p, rest) =
          >>=-eq-ok (resolve_conflicts env q.prelogindex 0 q.entries s) _ (rw with_entries at h) in
        subst (R env s) (ground arith) (
          k.next (resolve_conflicts_keeps env q.prelogindex 0 q.entries s p)
            (append_entries_keeps env es s1))
  ]
