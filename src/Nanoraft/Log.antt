-- ===== src/Nanoraft/Log.antt =====
-- nanoraft/RaftServer.cpp and .h: the log of a server, in memory and in leveldb.
use raft_server.Prelude.{
  Bool, Bytes, List, Result, [], bad_index, get_elem?, if◌then◌else◌, length, ltb, minus_one, ok,
  or_fault, pop_back, suc, to_int, to_string, u32, u64, zero, ℕ, ℤ, ◌++◌, ◌+◌, ◌-◌, ◌==◌, ◌>>=◌,
  ◌∷◌,
}
use raft_server.Protocol.{Entry, cfgadd}
use raft_server.Nanoraft.LogEntry.{LogEntry, new_log_entry}
use raft_server.Env.{Env, Db, put, delete, write}
use raft_server.State.{RaftServer}

-- RaftServer::LastLogIndex
abbrev pub last_log_index : RaftServer → ℕ
last_log_index s = u64 (length s.logs + s.log_base)

-- RaftServer::LastEntryIndex
abbrev pub last_entry_index : RaftServer → ℕ
last_entry_index s = if length s.entries == 0 then 0 else length s.entries - 1

-- RaftServer::LogTermByIndex. `dwIndex + 1` wraps.
unfoldable pub log_term_by_index : ℕ → RaftServer → Result ℤ
log_term_by_index i s =
    if ltb (length s.logs) (u32 (i + 1))
    then ok minus_one
    else do e ← or_fault (get_elem? s.logs i) bad_index; ok (to_int e.term)

-- RaftServer::EntryTermByIndex. `dwIndex + 1` wraps.
unfoldable pub entry_term_by_index : ℕ → RaftServer → Result ℤ
entry_term_by_index i s =
    if ltb (length s.entries) (u32 (i + 1))
    then ok minus_one
    else do e ← or_fault (get_elem? s.entries i) bad_index; ok (to_int e.term)

-- RaftServer::EntryByIndex
unfoldable pub entry_by_index : ℕ → RaftServer → Result Entry
entry_by_index i s = or_fault (get_elem? s.entries i) bad_index

-- RaftServer::PreLogTerm
unfoldable pub pre_log_term : List LogEntry → ℕ
pre_log_term [] = 0
pre_log_term (e ∷ []) = e.term
pre_log_term (e ∷ f ∷ l) = pre_log_term (f ∷ l)

-- the loop of `DelLogsFromIndex` over the iterator, whose keys do not change under the deletions
unfoldable pub del_logs : Env → List (Bytes × Bytes) → Db → List LogEntry → Db × List LogEntry
del_logs env [] db logs = (db, logs)
del_logs env ((key, value) ∷ rest) db logs =
    del_logs env rest (write env db (delete key)).1 (pop_back logs)

-- RaftServer::DelLogsFromIndex
unfoldable pub del_logs_from_index : Env → ℕ → RaftServer → RaftServer
unfolding del_logs
del_logs_from_index env i s =
    if ltb (length s.logs) (u32 (i + 1))
    then s
    else let done = del_logs env (env.seek s.entries_db (to_string i)) s.entries_db s.logs in
      record s { entries_db = done.0; logs = done.1 }

-- RaftServer::AppendLog
unfoldable pub append_log : ℕ → ℕ → ℕ → RaftServer → RaftServer
append_log index term write_it s =
    if length s.logs == index
    then record s { logs = s.logs ++ (new_log_entry index term write_it ∷ []) }
    else s

-- `Slice(const char*)`: the bytes before the first zero byte
unfoldable pub c_string : Bytes → Bytes
c_string [] = []
c_string (zero ∷ rest) = []
c_string (suc b ∷ rest) = suc b ∷ c_string rest

-- the entry that `AppendCfgLog` makes
abbrev pub cfg_entry : ℕ → Bytes → ℕ → ℕ → Entry
cfg_entry term host port node = record {
  type = cfgadd;
  term = term;
  nodeid = node;
  port = port;
  host = host;
  write_it = 0;
}

-- the value that `AppendCfgLog` stores: a C string over a block that has no terminator of its own
abbrev pub stored : Env → Entry → Bytes
stored env e = let block = env.encode_entry e in c_string (block ++ env.memory_after block)

-- the database after `AppendCfgLog` has tried to store an entry
abbrev pub put_entry : Env → Entry → RaftServer → Bool × Db
put_entry env e s = write env s.entries_db (put (to_string (u32 (length s.entries))) (stored env e))

-- RaftServer::AppendCfgLog
unfoldable pub append_cfg_log : Env → Bytes → ℕ → ℕ → RaftServer → RaftServer
append_cfg_log env host port node s =
    let e = cfg_entry s.current_term host port node in
    let (stored, db) = put_entry env e s in
    if stored then record s { entries_db = db; entries = s.entries ++ (e ∷ []) } else s
