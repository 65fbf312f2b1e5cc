-- ===== src/Nanoraft/Broadcast.antt =====
-- nanoraft/RaftServer.cpp and RaftProxy.cpp: what the server sends to its proxies, roles and terms.
pub mod Quiet
use raft_server.Prelude.{
  Bool, Bytes, List, Option, Result, [], exited, false, fault, if◌then◌else◌, none, not, ok, some,
  to_string, true, u32, u64, ℕ, ◌+◌, ◌>>=◌, ◌∷◌,
}
use raft_server.Map.{find, keys}
use raft_server.Nanoraft.Proxy.{Proxy, leader, follower, is_inactive}
use raft_server.Nanoraft.Log.{last_log_index}
use raft_server.Nanoraft.Peers.{read_proxy}
use raft_server.Net.Send.{send_append_entries}
use raft_server.Env.{Env, put, write}
use raft_server.State.{RaftServer, set_proxy, lock_conn}

-- RaftProxy::SendAppendEntries
unfoldable pub proxy_send_append_entries : Env → Bool → Proxy → RaftServer → Result RaftServer
unfolding lock_conn
proxy_send_append_entries env is_heart p s = elim p.conn [
  | none ↦ ok s
  | some id ↦ elim (lock_conn id s.conns) [
    | none ↦ ok s
    | some fd ↦ send_append_entries env is_heart false fd s
  ]
]

-- RaftProxy::ConnHost
unfoldable pub conn_host : Proxy → RaftServer → Bytes
unfolding lock_conn
conn_host p s = elim p.conn [
  | none ↦ []
  | some id ↦ elim (lock_conn id s.conns) [
    | none ↦ []
    | some fd ↦ elim (find fd s.conns) [ none ↦ [] | some c ↦ c.addr ]
  ]
]

-- `for(auto& it : m_stProxys_)`: the body runs once for each key, in ascending order
unfoldable pub for_proxies :
    (ℕ → RaftServer → Result RaftServer) → List ℕ → RaftServer → Result RaftServer
for_proxies body [] s = ok s
for_proxies body (id ∷ ids) s = body id s >>= for_proxies body ids

-- the body of `BecomeLeader`'s loop
unfoldable pub lead_one : Env → ℕ → RaftServer → Result RaftServer
unfolding read_proxy
lead_one env id s = do
  p ← read_proxy (find id s.proxies)
  let p' = record p { next_index = u64 (last_log_index s + 1); match_index = 0 }
  if not (is_inactive p.state)
      then ok s
      else proxy_send_append_entries env true p' (set_proxy id p' s)

-- RaftServer::BecomeLeader
unfoldable pub become_leader : Env → RaftServer → Result RaftServer
unfolding for_proxies
become_leader env s = for_proxies (lead_one env) (keys s.proxies) (record s { role = leader })

-- RaftServer::BecomeFollower
unfoldable pub become_follower : RaftServer → RaftServer
become_follower s = record s { role = follower }

-- RaftServer::BecomeCandidate. The random time is printed and not used.
unfoldable pub become_candidate : RaftServer → RaftServer
become_candidate s = record s { current_term = u32 (s.current_term + 1) }

-- the body of `BroadCastAppendEntries`' loop
unfoldable pub broadcast_one : Env → Bool → ℕ → RaftServer → Result RaftServer
unfolding read_proxy
broadcast_one env is_heart id s = do
  p ← read_proxy (find id s.proxies)
  if is_inactive p.state then ok s else proxy_send_append_entries env is_heart p s

-- RaftServer::BroadCastAppendEntries
unfoldable pub broadcast_append_entries : Env → Bool → RaftServer → Result RaftServer
unfolding for_proxies
broadcast_append_entries env is_heart s =
    for_proxies (broadcast_one env is_heart) (keys s.proxies) s

-- "term"
abbrev pub term_key : Bytes
term_key = 116 ∷ 101 ∷ 114 ∷ 109 ∷ []

-- RaftServer::SetAndPersistTerm
unfoldable pub set_and_persist_term : Env → ℕ → RaftServer → Result RaftServer
set_and_persist_term env term s =
    let (stored, db) = write env s.state_db (put term_key (to_string term)) in
    if stored then ok (record s { state_db = db; current_term = term }) else fault exited

-- RaftServer::SetLeader
abbrev pub set_leader : Option ℕ → RaftServer → RaftServer
set_leader id s = record s { leader = id }

-- RaftServer::LeaderHost
unfoldable pub leader_host : RaftServer → Bytes
unfolding conn_host
leader_host s = elim s.leader [
  | none ↦ []
  | some id ↦ elim (find id s.proxies) [
    | none ↦ []
    | some p ↦ elim p [ none ↦ [] | some q ↦ conn_host q s ]
  ]
]
