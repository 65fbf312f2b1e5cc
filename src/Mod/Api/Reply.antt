-- ===== src/Mod/Api/Reply.antt =====
-- mod/ModApi.hpp, `AppendEntriesR`: what a leader does with a reply.
use raft_server.Prelude.{
  [], arith, if◌then◌else◌, not, ok, some, to_string, u64, ℕ, ◌&&◌, ◌++◌, ◌+◌, ◌<◌, ◌==◌, ◌>>=◌,
  ◌∷◌, ◌≡◌, ◌≤◌,
}
use raft_server.Map.{find, find-insert}
use raft_server.Net.Server.{on_proxy}
use raft_server.Nanoraft.Proxy.{Proxy, follower}
use raft_server.Protocol.{AppendEntriesR}
use raft_server.Mod.Api.{append_reply_on, record_success}
use raft_server.State.{Conn, RaftServer, set_proxy}
use raft_server.Net.Send.{lock_proxy}
use raft_server.Nanoraft.Commit.{change_commit_index}
use raft_server.Nanoraft.Broadcast.{become_follower, set_and_persist_term, term_key}
use raft_server.Env.{Env, put}

-- A reply of a newer term makes the server a follower of that term and changes nothing else; the term
-- is stored first.
pub append_reply_on_newer :
    (env : Env) (fd : ℕ) (r : AppendEntriesR) (s : RaftServer) {t : RaftServer}
    → s.current_term < r.term
    → append_reply_on env fd r s ≡ ok t
    → (t ≡ record s { current_term = r.term; role = follower; state_db = t.state_db })
      × (t.state_db ≡ s.state_db ++ (put term_key (to_string r.term) ∷ []))
unfolding append_reply_on become_follower set_and_persist_term
append_reply_on_newer env fd r s h e = (ground arith, ground arith)

on_proxy_lem :
    (f : Proxy → Proxy) (fd id : ℕ) (c : Conn) (p : Proxy) (s : RaftServer)
    → find fd s.conns ≡ some c
    → c.proxy ≡ some id
    → find id s.proxies ≡ some (some p)
    → on_proxy f fd s ≡ set_proxy id (f p) s
unfolding on_proxy lock_proxy
on_proxy_lem f fd id c p s there tied known = ground arith

-- the proxy of a connection behind a reply
abbrev pub counted_up : AppendEntriesR → Proxy → Proxy
counted_up r p =
    if r.success && not r.isheartbeat
    then record p { match_index = u64 (p.match_index + 1); next_index = u64 (p.next_index + 1) }
    else p

-- A reply of the server's own term or an older one counts the proxy of its connection up by one if
-- it is a success and no heartbeat, touches no other proxy, and then tries to commit.
pub append_reply_on_counts :
    (env : Env) (fd id : ℕ) (c : Conn) (p : Proxy) (r : AppendEntriesR) (s : RaftServer)
    → r.term ≤ s.current_term
    → find fd s.conns ≡ some c
    → c.proxy ≡ some id
    → find id s.proxies ≡ some (some p)
    → (u : RaftServer) × (append_reply_on env fd r s
        ≡ (change_commit_index u >>= λ done. ok done.1))
      × ((i : ℕ)
          → find i u.proxies ≡ (if i == id then some (some (counted_up r p)) else find i s.proxies))
      × (u ≡ record s { proxies = u.proxies })
unfolding append_reply_on on_proxy lock_proxy
append_reply_on_counts env fd id c p r s le there tied known =
    let matched = record p { match_index = u64 (p.match_index + 1) } in
    let s1 = set_proxy id matched s in
    let first =
      on_proxy_lem (λ p. record p { match_index = u64 (p.match_index + 1) }) fd id c p s there tied
        known in
    let second =
      on_proxy_lem (λ p. record p { next_index = u64 (p.next_index + 1) }) fd id c matched s1 there
        tied (ground (arith, find-insert id id (some matched) s.proxies)) in
    (
      record_success fd r s,
      ground arith,
      λ i. ground (
        arith,
        first,
        second,
        find-insert id i (some matched) s.proxies,
        find-insert id i (some (record matched { next_index = u64 (p.next_index + 1) })) s1.proxies,
      ),
      ground (arith, first, second),
    )
