-- ===== src/Nanoraft/Proxy.antt =====
-- nanoraft/RaftProxy.h, and the constructor and `Tie` of RaftProxy.cpp.
use raft_server.Prelude.{Bool, Option, false, none, some, true, ℕ}

pub data Role : Type 0 where
  none_role candidate follower leader : Role

pub data ProxyState : Type 0 where
  is_voting sufficient_log inactive : ProxyState

abbrev pub is_candidate : Role → Bool
is_candidate candidate = true
is_candidate _ = false

abbrev pub is_leader : Role → Bool
is_leader leader = true
is_leader _ = false

abbrev pub is_inactive : ProxyState → Bool
is_inactive inactive = true
is_inactive _ = false

-- `conn_fd` is none for -1. `conn` is the weak pointer: the identity of a connection object.
pub record Proxy : Type 0 where
  pub role : Role
  pub state : ProxyState
  pub id : ℕ
  pub next_index : ℕ
  pub match_index : ℕ
  pub conn_fd : Option ℕ
  pub conn : Option ℕ

-- RaftProxy::RaftProxy, with the id that `AddProxy` sets next
abbrev pub new_proxy : ℕ → Proxy
new_proxy id = record {
  role = candidate;
  state = is_voting;
  id = id;
  next_index = 1;
  match_index = 0;
  conn_fd = none;
  conn = none;
}

-- RaftProxy::Tie, with the connection's identity and its fd
abbrev pub tie : ℕ → ℕ → Proxy → Proxy
tie conn fd p = record p { conn = some conn; conn_fd = some fd }
