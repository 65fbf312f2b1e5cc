-- ===== src/Nanoraft/Commit.antt =====
-- nanoraft/RaftServer.cpp: the commit index, and the application of entries.
pub mod Majority
use raft_server.Prelude.{
  Bool, Option, Result, [], bad_index, false, fault, get_elem?, if◌then◌else◌, leb, length, ltb,
  none, null_pointer, ok, or_fault, some, true, u32, ℕ, ◌+◌, ◌/◌, ◌==◌, ◌>>=◌, ◌∷◌,
}
use raft_server.Map.{Map}
use raft_server.Nanoraft.Proxy.{Proxy}
use raft_server.State.{RaftServer}

-- RaftServer::SetCommitIndex
abbrev pub set_commit_index : ℕ → RaftServer → RaftServer
set_commit_index i s = record s { commit_index = i }

-- the loop of `ChangeCommitIndex`: how many proxies hold the entry
unfoldable pub count_matching : ℕ → Map (Option Proxy) → Result ℕ
count_matching i [] = ok 0
count_matching i ((id, none) ∷ m) = fault null_pointer
count_matching i ((id, some p) ∷ m) = do
  n ← count_matching i m
  ok (if leb i p.match_index then n + 1 else n)

-- RaftServer::ChangeCommitIndex
unfoldable pub change_commit_index : RaftServer → Result (Bool × RaftServer)
unfolding count_matching
change_commit_index s = do
  let next = u32 (s.commit_index + 1)
  curr ← count_matching next s.proxies
  if leb (length s.proxies / 2 + 1) curr
      then (do
        e ← or_fault (get_elem? s.entries next) bad_index
        ok (
            if e.term == s.current_term
            then (true, record s { commit_index = next })
            else (false, s)))
      else ok (false, s)

-- RaftServer::TryApplyLogToFSM. An entry in the deque is never a null pointer.
unfoldable pub try_apply_log_to_fsm : RaftServer → Result (Bool × RaftServer)
try_apply_log_to_fsm s =
    if ltb s.commit_index s.last_applied
    then (if length s.entries == 0 then ok (false, s) else do
      e ← or_fault (get_elem? s.entries s.last_applied) bad_index
      ok (true, record s { last_applied = u32 (s.last_applied + 1) }))
    else ok (false, s)
