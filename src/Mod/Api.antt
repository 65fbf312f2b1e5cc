-- ===== src/Mod/Api.antt =====
-- mod/ModApi.hpp: the handlers of the messages. `fd` is the connection that a message came over.
pub mod Term
pub mod Entries
pub mod Follower
pub mod Input
pub mod Accept
pub mod Redeliver
pub mod Reply
pub mod Agree
pub mod Handshake
pub mod Reconnect
pub mod Operations
pub mod Kept
use raft_server.Prelude.{
  Bool, List, Option, Result, [], bad_index, eq_ℤ, false, fault, if◌then◌else◌, length, ltb, min,
  minus_one, none, not, null_pointer, ok, some, suc, to_int, to_uint32, true, u32, zero, ℕ, ◌&&◌,
  ◌+◌, ◌==◌, ◌>>=◌, ◌||◌, ◌∷◌,
}
use raft_server.Net.Calls.{
  server_add_proxy, server_append_cfg_log, server_become_follower, server_broadcast_append_entries,
  server_change_commit_index, server_commit_index, server_current_term, server_del_logs_from_index,
  server_entry_term_by_index, server_fresh_time, server_log_term_by_index, server_proxy_conn_fd,
  server_set_commit_index, server_set_term,
}
use raft_server.Map.{find}
use raft_server.Protocol.{
  Entry, Message, HandshakeQ, HandshakeR, AppendEntriesQ, AppendEntriesR, is_cfgadd, is_cfgrem,
}
use raft_server.Nanoraft.Log.{
  entry_term_by_index, log_term_by_index, del_logs_from_index, append_cfg_log,
}
use raft_server.Nanoraft.Peers.{proxy_conn_fd, add_proxy}
use raft_server.Nanoraft.Broadcast.{become_follower, set_and_persist_term, broadcast_append_entries}
use raft_server.Nanoraft.Commit.{set_commit_index, change_commit_index}
use raft_server.Net.Send.{handle_pre_send_msg}
use raft_server.Net.Server.{
  server_close_conn, tie, server_is_candidate, server_is_leader, proxy_incr_match_index,
  proxy_incr_next_index,
}
use raft_server.Easytimer.{fresh_time, follower_heartbeat_timer}
use raft_server.Env.{Env}
use raft_server.State.{Conn, RaftServer, set_conn}

-- the part of `HandshakeQ` for a node that has, or does not have, a connection already
unfoldable pub welcome : Env → ℕ → Conn → HandshakeQ → Option ℕ → RaftServer → Result RaftServer
unfolding server_close_conn add_proxy append_cfg_log
welcome env fd c q (some old) s = do
  s' ← if old == c.fd then ok s else server_close_conn fd old s
  ok (tie q.nodeid fd s')
welcome env fd c q none s = do
  s' ← server_add_proxy q.nodeid s
  server_broadcast_append_entries env
      (server_append_cfg_log env c.addr q.raftport q.nodeid (tie q.nodeid fd s'))

-- the reply of `HandshakeQ`, whose other fields stay unset
abbrev pub handshake_reply : Bool → Message
handshake_reply result =
    Message.handshake_r (record { result = result; leaderhost = []; leaderraftport = 0 })

-- `HandshakeQ` behind the lock of its connection
unfoldable pub handshake_on : Env → ℕ → Conn → HandshakeQ → RaftServer → Result RaftServer
unfolding welcome
handshake_on env fd c q s =
    if server_is_leader s
    then (do
      old ← server_proxy_conn_fd q.nodeid s
      s' ← welcome env fd c q old (set_conn fd (record c { raft_port = q.raftport }) s)
      handle_pre_send_msg env fd 258 (handshake_reply true) s')
    else handle_pre_send_msg env fd 258 (handshake_reply false) s

-- ModApi::HandshakeQ
unfoldable pub handshake_q : Env → ℕ → HandshakeQ → RaftServer → Result RaftServer
unfolding handshake_on
handshake_q env fd q s = elim (find fd s.conns) [ none ↦ ok s | some c ↦ handshake_on env fd c q s ]

-- Step 1 of `AppendEntriesQ`: the term. The flag says whether to go on.
unfoldable pub check_term : Env → AppendEntriesQ → RaftServer → Result (Bool × RaftServer)
unfolding become_follower set_and_persist_term
check_term env q s =
    if server_is_candidate s && server_current_term s == q.term
    then ok (true, server_become_follower s)
    else if ltb (server_current_term s) q.term
    then (do s' ← server_set_term env q.term s; ok (true, server_become_follower s'))
    else ok (not (ltb q.term (server_current_term s)), s)

-- The previous entry, which is looked up unless its index is 0.
unfoldable pub check_previous : AppendEntriesQ → RaftServer → Result Bool
unfolding entry_term_by_index
check_previous q s =
    if ltb 0 q.prelogindex
    then (do
      t ← server_entry_term_by_index q.prelogindex s
      ok (not (eq_ℤ t minus_one) && to_uint32 t == q.prelogterm))
    else ok true

-- Step 3: the entries from number i on, without those whose conflicts were resolved. The deletion is
-- given the term that it found.
unfoldable pub resolve_conflicts :
    Env → ℕ → ℕ → List Entry → RaftServer → Result (List Entry × RaftServer)
resolve_conflicts env prev i [] s = ok ([], s)
resolve_conflicts env prev i (e ∷ es) s =
    let index = u32 (prev + 1 + i) in
    server_log_term_by_index index s >>= λ t.
    if not (eq_ℤ t minus_one) && (not (eq_ℤ t (to_int e.term)) && ltb (server_commit_index s) index)
    then resolve_conflicts env prev (i + 1) es (server_del_logs_from_index env (to_uint32 t) s)
    else ok (e ∷ es, s)

-- one entry of step 4
unfoldable pub append_one : Env → Entry → RaftServer → RaftServer
append_one env e s =
    if is_cfgadd e.type || is_cfgrem e.type
    then server_append_cfg_log env e.host e.port e.nodeid s
    else s

-- Step 4
unfoldable pub append_entries : Env → List Entry → RaftServer → RaftServer
append_entries env [] s = s
append_entries env (e ∷ es) s = append_entries env es (append_one env e s)

-- what stands behind the label `sendreponse`, but for the reply
unfoldable pub update_commit : AppendEntriesQ → RaftServer → RaftServer
update_commit q s =
    if ltb (server_commit_index s) q.leadercommit
    then server_set_commit_index (min q.leadercommit (u32 (q.prelogindex + length q.entries))) s
    else s

-- `success` and `isheartbeat` of the reply
pub record Verdict : Type 0 where
  pub success : Bool
  pub heartbeat : Bool

abbrev pub refused : Verdict
refused = record { success = false; heartbeat = false }

-- Steps 2 to 4, behind a matching previous entry.
unfoldable pub take_entries : Env → AppendEntriesQ → RaftServer → Result (Verdict × RaftServer)
unfolding resolve_conflicts append_entries
take_entries env q s =
    if length q.entries == 0
    then ok
        (record { success = true; heartbeat = true }, server_fresh_time follower_heartbeat_timer s)
    else do
      (es, s') ← resolve_conflicts env q.prelogindex 0 q.entries s
      ok (record { success = true; heartbeat = false }, append_entries env es s')

-- Everything before the label `sendreponse`.
unfoldable pub judge : Env → AppendEntriesQ → RaftServer → Result (Verdict × RaftServer)
unfolding check_term check_previous take_entries
judge env q s = do
  (current, s') ← check_term env q s
  matching ← if current then check_previous q s' else ok false
  if matching then take_entries env q s' else ok (refused, s')

-- `AppendEntriesQ` behind the lock of its connection
unfoldable pub append_entries_on : Env → ℕ → AppendEntriesQ → RaftServer → Result RaftServer
unfolding judge update_commit
append_entries_on env fd q s = do
  (v, s') ← judge env q s
  let s'' = update_commit q s'
  handle_pre_send_msg env fd 260
      (Message.appendentries_r
        (record { term = server_current_term s''; success = v.success; isheartbeat = v.heartbeat }))
      s''

-- ModApi::AppendEntriesQ
unfoldable pub append_entries_q : Env → ℕ → AppendEntriesQ → RaftServer → Result RaftServer
unfolding append_entries_on
append_entries_q env fd q s = elim (find fd s.conns) [
  | none ↦ ok s
  | some c ↦ append_entries_on env fd q s
]

-- what `AppendEntriesR` does with the flags of a reply of the current term
abbrev pub record_success : ℕ → AppendEntriesR → RaftServer → RaftServer
record_success fd r s =
    if r.success && not r.isheartbeat
    then proxy_incr_next_index fd (proxy_incr_match_index fd s)
    else s

-- `AppendEntriesR` behind the lock of its connection
unfoldable pub append_reply_on : Env → ℕ → AppendEntriesR → RaftServer → Result RaftServer
unfolding set_and_persist_term become_follower
append_reply_on env fd r s =
    if ltb (server_current_term s) r.term
    then (do s' ← server_set_term env r.term s; ok (server_become_follower s'))
    else do done ← server_change_commit_index (record_success fd r s); ok done.1

-- ModApi::AppendEntriesR
unfoldable pub append_entries_r : Env → ℕ → AppendEntriesR → RaftServer → Result RaftServer
unfolding append_reply_on
append_entries_r env fd r s = elim (find fd s.conns) [
  | none ↦ ok s
  | some c ↦ append_reply_on env fd r s
]

-- ModApi::HandshakeR, which prints, and ModApi::RequestVoteQ, which is empty
abbrev pub handshake_r : HandshakeR → RaftServer → RaftServer
handshake_r r s = s

abbrev pub request_vote_q : RaftServer → RaftServer
request_vote_q s = s

-- ModApi::Proc. A message of another class than the handler's is a null pointer after the cast; the
-- table has five handlers.
unfoldable pub proc : Env → ℕ → ℕ → Message → RaftServer → Result RaftServer
proc env fd zero (Message.handshake_q q) s = handshake_q env fd q s
proc env fd (suc zero) (Message.handshake_r r) s = ok (handshake_r r s)
proc env fd (suc (suc zero)) (Message.appendentries_q q) s = append_entries_q env fd q s
proc env fd (suc (suc (suc zero))) (Message.appendentries_r r) s = append_entries_r env fd r s
proc env fd (suc (suc (suc (suc zero)))) m s = ok (request_vote_q s)
proc env fd (suc (suc (suc (suc (suc i))))) m s = fault bad_index
proc env fd i m s = fault null_pointer
