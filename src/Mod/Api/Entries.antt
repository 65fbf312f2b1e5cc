-- ===== src/Mod/Api/Entries.antt =====
-- mod/ModApi.hpp, `AppendEntriesQ`: what steps 3 and 4 do to the log.
use raft_server.Prelude.{
  Bytes, Extends, Extends-append, Extends-refl, Extends-trans, List, [], append-nil, append_assoc,
  arith, if◌then◌else◌, length, ok, refl, sym, to_string, true, u32, ℕ, ◌++◌, ◌+◌, ◌<◌, ◌^◌, ◌||◌,
  ◌∷◌, ◌≡◌,
}
use raft_server.Protocol.{Entry, is_cfgadd, is_cfgrem}
use raft_server.Nanoraft.Log.{append_cfg_log, log_term_by_index, cfg_entry, stored}
use raft_server.Mod.Api.{resolve_conflicts, append_one, append_entries}
use raft_server.Env.{Env, Db, Write, put}
use raft_server.State.{RaftServer}

-- The entries of a message that are configuration changes, as the follower stores them: of its own
-- term, and all of them additions.
unfoldable pub cfg_part : ℕ → Entry → List Entry
cfg_part term e =
    if is_cfgadd e.type || is_cfgrem e.type then cfg_entry term e.host e.port e.nodeid ∷ [] else []

unfoldable pub cfg_entries : ℕ → List Entry → List Entry
unfolding cfg_part
cfg_entries term [] = []
cfg_entries term (e ∷ es) = cfg_part term e ++ cfg_entries term es

abbrev pub Stores : Env → Type 0
Stores env = (db : Db) (w : Write) → env.write_ok db w ≡ true

append_one-frame :
    (env : Env) (e : Entry) (s : RaftServer)
    → append_one env e s ≡ record s {
      entries = (append_one env e s).entries;
      entries_db = (append_one env e s).entries_db;
    }
unfolding append_one append_cfg_log
append_one-frame env e s = ground arith

-- Step 4 changes nothing but the entries, in memory and in leveldb.
pub append_entries-frame :
    (env : Env) (es : List Entry) (s : RaftServer)
    → append_entries env es s ≡ record s {
      entries = (append_entries env es s).entries;
      entries_db = (append_entries env es s).entries_db;
    }
unfolding append_entries
append_entries-frame env [] s = refl
append_entries-frame env (e ∷ es) s =
    cc (append_entries-frame env es (append_one env e s), append_one-frame env e s)

entries-append_one :
    (env : Env) (e : Entry) (s : RaftServer)
    → Stores env
    → (append_one env e s).entries ≡ s.entries ++ cfg_part s.current_term e
unfolding append_one cfg_part append_cfg_log
entries-append_one env e s stores =
    let e' = cfg_entry s.current_term e.host e.port e.nodeid in
    ground (
      arith,
      stores s.entries_db (put (to_string (u32 (length s.entries))) (stored env e')),
      append-nil s.entries,
    )

-- Where every write is stored, step 4 appends the configuration changes, in order, and nothing else.
pub entries-append_entries :
    (env : Env) (es : List Entry) (s : RaftServer)
    → Stores env
    → (append_entries env es s).entries ≡ s.entries ++ cfg_entries s.current_term es
unfolding append_entries cfg_entries
entries-append_entries env [] s stores = sym (append-nil s.entries)
entries-append_entries env (e ∷ es) s stores = cc (
  entries-append_entries env es (append_one env e s) stores,
  entries-append_one env e s stores,
  append_one-frame env e s,
  append_assoc s.entries (cfg_part s.current_term e) (cfg_entries s.current_term es),
)

append_one-Extends :
    (env : Env) (e : Entry) (s : RaftServer) → Extends s.entries (append_one env e s).entries
unfolding append_one append_cfg_log
append_one-Extends env e s =
    let e' = cfg_entry s.current_term e.host e.port e.nodeid in
    ground (arith, Extends-refl s.entries, Extends-append s.entries (e' ∷ []))

-- Whatever is stored, step 4 keeps the entries that are there, and the new ones follow them.
pub append_entries-Extends :
    (env : Env) (es : List Entry) (s : RaftServer)
    → Extends s.entries (append_entries env es s).entries
unfolding append_entries
append_entries-Extends env [] s = Extends-refl s.entries
append_entries-Extends env (e ∷ es) s =
    Extends-trans s.entries (append_one env e s).entries (append_entries env (e ∷ es) s).entries
      (append_one-Extends env e s) (append_entries-Extends env es (append_one env e s))

-- While the deque `m_stLogs_` is empty, step 3 finds no conflict.
pub resolve_conflicts_no_logs :
    (env : Env) (prev i : ℕ) (es : List Entry) (s : RaftServer)
    → s.logs ≡ []
    → prev + 1 + i + 1 < 2 ^ 32
    → resolve_conflicts env prev i es s ≡ ok (es, s)
unfolding resolve_conflicts log_term_by_index
resolve_conflicts_no_logs env prev i [] s h b = refl
resolve_conflicts_no_logs env prev i (e ∷ es) s h b = ground arith

-- Where the write is stored, `AppendCfgLog` appends its entry and changes nothing else in memory.
pub append_cfg_log_lem :
    (env : Env) (host : Bytes) (port node : ℕ) (s : RaftServer)
    → Stores env
    → append_cfg_log env host port node s ≡ record s {
      entries = s.entries ++ (cfg_entry s.current_term host port node ∷ []);
      entries_db = (append_cfg_log env host port node s).entries_db;
    }
unfolding append_cfg_log
append_cfg_log_lem env host port node s stores =
    let e = cfg_entry s.current_term host port node in
    ground (arith, stores s.entries_db (put (to_string (u32 (length s.entries))) (stored env e)))
