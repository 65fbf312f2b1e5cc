-- ===== src/Nanoraft/Peers.antt =====
-- nanoraft/RaftServer.cpp: the proxies of the other nodes, and the reload of the log, which adds some.
use raft_server.Prelude.{
  Bytes, List, Option, Result, [], exited, fault, if◌then◌else◌, none, null_pointer, ok, some, take,
  ℕ, ◌++◌, ◌>>=◌, ◌∷◌,
}
use raft_server.Map.{find, insert}
use raft_server.Protocol.{Entry, is_cfgadd}
use raft_server.Nanoraft.Proxy.{Proxy, is_voting, new_proxy}
use raft_server.Env.{Env}
use raft_server.State.{RaftServer, set_proxy}

-- `it->second->…`: the value under a key, read through its pointer
unfoldable pub read_proxy : Option (Option Proxy) → Result Proxy
read_proxy (some (some p)) = ok p
read_proxy _ = fault null_pointer

-- RaftServer::GetProxyByID. `[]` puts a null pointer under a key that is not there.
abbrev get_proxy_found : Option (Option Proxy) → ℕ → RaftServer → Option ℕ × RaftServer
get_proxy_found none id s = (none, record s { proxies = insert id none s.proxies })
get_proxy_found (some none) id s = (none, s)
get_proxy_found (some (some p)) id s = (some id, s)

unfoldable pub get_proxy_by_id : ℕ → RaftServer → Option ℕ × RaftServer
get_proxy_by_id id s = get_proxy_found (find id s.proxies) id s

abbrev conn_fd_found : Option (Option Proxy) → Result (Option ℕ)
conn_fd_found none = ok none
conn_fd_found (some none) = fault null_pointer
conn_fd_found (some (some p)) = ok p.conn_fd

-- RaftServer::ProxyConnFd; none is -1
unfoldable pub proxy_conn_fd : ℕ → RaftServer → Result (Option ℕ)
proxy_conn_fd id s = conn_fd_found (find id s.proxies)

abbrev add_proxy_found : Option (Option Proxy) → ℕ → RaftServer → Result RaftServer
add_proxy_found none id s = ok (set_proxy id (new_proxy id) s)
add_proxy_found (some none) id s = fault null_pointer
add_proxy_found (some (some p)) id s = ok (set_proxy id (record p { state = is_voting }) s)

-- RaftServer::AddProxy
unfoldable pub add_proxy : ℕ → RaftServer → Result RaftServer
add_proxy id s = add_proxy_found (find id s.proxies) id s

-- what `LoadEntries` reads of one value: 128 bytes, whatever the value's length
abbrev pub load_entry : Env → Bytes → Entry
load_entry env value = env.decode_entry (take 128 (value ++ env.memory_after value))

unfoldable pub load_one : Entry → RaftServer → Result RaftServer
unfolding add_proxy
load_one e s = do
  s' ← if is_cfgadd e.type then add_proxy e.nodeid s else ok s
  ok (record s' { entries = s'.entries ++ (e ∷ []) })

-- the loop of `LoadEntries` over the iterator
unfoldable pub load_all : Env → List (Bytes × Bytes) → RaftServer → Result RaftServer
load_all env [] s = ok s
load_all env ((key, value) ∷ rest) s = load_one (load_entry env value) s >>= load_all env rest

-- RaftServer::LoadEntries
unfoldable pub load_entries : Env → RaftServer → Result RaftServer
load_entries env s = do
  s' ← load_all env (env.scan s.entries_db) (record s { entries = [] })
  if env.scan_ok s.entries_db then ok s' else fault exited
