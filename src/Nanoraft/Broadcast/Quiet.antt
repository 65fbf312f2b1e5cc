-- ===== src/Nanoraft/Broadcast/Quiet.antt =====
-- nanoraft/RaftServer.cpp: a broadcast changes what a send changes, and no more.
use raft_server.Prelude.{
  >>=-eq-ok, Bool, Bool-cases, List, Option-cases, Result, [], arith, false, inl, inr, ok, subst, ℕ,
  ◌∷◌, ◌≡◌,
}
use raft_server.Env.{Env}
use raft_server.State.{RaftServer, lock_conn}
use raft_server.Nanoraft.Peers.{read_proxy}
use raft_server.Net.Send.Quiet.{IsQuiet, IsQuiet-refl, IsQuiet-trans, send_append_entries-IsQuiet}
use raft_server.Nanoraft.Proxy.{Proxy, is_inactive}
use raft_server.Nanoraft.Broadcast.{
  broadcast_append_entries, broadcast_one, for_proxies, proxy_send_append_entries,
}
use raft_server.Map.{find, keys}

pub proxy_send_append_entries-IsQuiet :
    (env : Env) (is_heart : Bool) (p : Proxy) (s : RaftServer) {t : RaftServer}
    → proxy_send_append_entries env is_heart p s ≡ ok t
    → IsQuiet s t
unfolding proxy_send_append_entries
proxy_send_append_entries-IsQuiet env is_heart p s {t} h = elim (Option-cases p.conn) [
  | inl e ↦ subst (IsQuiet s) (ground arith) (IsQuiet-refl s)
  | inr (id, e) ↦ elim (Option-cases (lock_conn id s.conns)) [
    | inl f ↦ subst (IsQuiet s) (ground arith) (IsQuiet-refl s)
    | inr (fd, f) ↦ send_append_entries-IsQuiet env is_heart false fd s (ground arith)
  ]
]

pub broadcast_one-IsQuiet :
    (env : Env) (is_heart : Bool) (id : ℕ) (s : RaftServer) {t : RaftServer}
    → broadcast_one env is_heart id s ≡ ok t
    → IsQuiet s t
unfolding broadcast_one
broadcast_one-IsQuiet env is_heart id s {t} h =
    let (p, e, h1) = >>=-eq-ok (read_proxy (find id s.proxies)) _ h in
    elim (Bool-cases (is_inactive p.state)) [
      | inl down ↦ subst (IsQuiet s) (ground arith) (IsQuiet-refl s)
      | inr up ↦ proxy_send_append_entries-IsQuiet env is_heart p s (ground arith)
    ]

for_proxies-IsQuiet :
    (body : ℕ → RaftServer → Result RaftServer)
    → ((id : ℕ) (s t : RaftServer) → body id s ≡ ok t → IsQuiet s t)
    → (ids : List ℕ) (s : RaftServer) {t : RaftServer} → for_proxies body ids s ≡ ok t
    → IsQuiet s t
unfolding for_proxies
for_proxies-IsQuiet body quiet [] s {t} h = subst (IsQuiet s) (ground arith) (IsQuiet-refl s)
for_proxies-IsQuiet body quiet (id ∷ ids) s {t} h =
    let (s1, e, h1) = >>=-eq-ok (body id s) _ h in
    IsQuiet-trans (quiet id s s1 e) (for_proxies-IsQuiet body quiet ids s1 h1)

-- A broadcast leaves the term, the log, the proxies and all the rest of the server as they are.
pub broadcast_append_entries-IsQuiet :
    (env : Env) (is_heart : Bool) (s : RaftServer) {t : RaftServer}
    → broadcast_append_entries env is_heart s ≡ ok t
    → IsQuiet s t
unfolding broadcast_append_entries
broadcast_append_entries-IsQuiet env is_heart s h =
    for_proxies-IsQuiet (broadcast_one env is_heart)
      (λ id s t e. broadcast_one-IsQuiet env is_heart id s e) (keys s.proxies) s h
