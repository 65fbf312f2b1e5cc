-- ===== src/Recovery.antt =====
-- nanoraft/RaftServer.cpp: the log that `AppendCfgLog` stores, and that `LoadEntries` reads again.
pub mod Events
pub mod Proxies
use raft_server.Prelude.{
  Bool-cases, Bytes, List, Option, [], ap, append-nil, append_assoc, arith, inl, inr, length,
  length-append, none, ok, refl, some, sym, to_string, true, u32, ℕ, ◌++◌, ◌+◌, ◌<◌, ◌∙◌, ◌∷◌, ◌≡◌,
  ◌≢◌, ◌≤◌,
}
use raft_server.Nanoraft.Proxy.{Proxy, is_voting, new_proxy}
use raft_server.State.{RaftServer, set_proxy}
use raft_server.Protocol.{Entry, is_cfgadd}
use raft_server.Nanoraft.Comparator.{int_max}
use raft_server.Mod.Api.{append_entries, append_one}
use raft_server.Nanoraft.Peers.{add_proxy, load_all, load_entries, load_entry, load_one}
use raft_server.Nanoraft.Log.{append_cfg_log, cfg_entry, stored}
use raft_server.Map.{find, find-insert}
use raft_server.Env.{Db, Env, put}

-- the keys of a log that has these values, in the order of the comparator
abbrev pub numbered : ℕ → List Bytes → List (Bytes × Bytes)
numbered i [] = []
numbered i (v ∷ vs) = (to_string i, v) ∷ numbered (i + 1) vs

-- An iterator over an empty database finds nothing, one over a database to which a later index was
-- added finds it at the end, no key stands behind the last index, and no iterator fails.
pub record Ordered (env : Env) : Type 0 where
  pub empty : env.scan [] ≡ []
  pub behind :
      (db : Db) (vs : List Bytes) (v : Bytes)
      → env.scan db ≡ numbered 0 vs
      → length vs < int_max
      → env.scan (db ++ (put (to_string (length vs)) v ∷ [])) ≡ numbered 0 (vs ++ (v ∷ []))
  pub past :
      (db : Db) (vs : List Bytes) (i : ℕ)
      → env.scan db ≡ numbered 0 vs
      → length vs < int_max
      → length vs ≤ i
      → env.seek db (to_string i) ≡ []
  pub complete : (db : Db) → env.scan_ok db ≡ true

abbrev pub stored_all : Env → List Entry → List Bytes
stored_all env [] = []
stored_all env (e ∷ es) = stored env e ∷ stored_all env es

-- what is read again of what was stored
abbrev pub reload_all : Env → List Entry → List Entry
reload_all env [] = []
reload_all env (e ∷ es) = load_entry env (stored env e) ∷ reload_all env es

-- What leveldb goes through is what the entries in memory were stored as.
abbrev pub IsLogged : Env → RaftServer → Type 0
IsLogged env s = env.scan s.entries_db ≡ numbered 0 (stored_all env s.entries)

stored_all-append :
    (env : Env) (es : List Entry) (e : Entry)
    → stored_all env (es ++ (e ∷ [])) ≡ stored_all env es ++ (stored env e ∷ [])
stored_all-append env [] e = refl
stored_all-append env (x ∷ es) e = ap (λ l. stored env x ∷ l) (stored_all-append env es e)

pub length-stored_all : (env : Env) (es : List Entry) → length (stored_all env es) ≡ length es
length-stored_all env [] = refl
length-stored_all env (e ∷ es) = omega (arith, length-stored_all env es)

pub append_cfg_log-IsLogged :
    (env : Env) (host : Bytes) (port node : ℕ) (s : RaftServer)
    → Ordered env
    → length s.entries < int_max
    → IsLogged env s
    → IsLogged env (append_cfg_log env host port node s)
unfolding append_cfg_log
append_cfg_log-IsLogged env host port node s o b h =
    let e = cfg_entry s.current_term host port node in
    let key : length (stored_all env s.entries) ≡ u32 (length s.entries) =
      omega (arith, length-stored_all env s.entries) in
    let longer =
      o.behind s.entries_db (stored_all env s.entries) (stored env e) h
        (omega (arith, length-stored_all env s.entries)) in
    ground (arith, key, longer, stored_all-append env s.entries e)

append_one-IsLogged :
    (env : Env) (e : Entry) (s : RaftServer)
    → Ordered env
    → length s.entries < int_max
    → IsLogged env s
    → IsLogged env (append_one env e s)
unfolding append_one
append_one-IsLogged env e s o b h =
    ground (arith, append_cfg_log-IsLogged env e.host e.port e.nodeid s o b h)

length-append_one :
    (env : Env) (e : Entry) (s : RaftServer)
    → length (append_one env e s).entries ≤ length s.entries + 1
unfolding append_one append_cfg_log
length-append_one env e s =
    let e' = cfg_entry s.current_term e.host e.port e.nodeid in
    ground (arith, length-append s.entries (e' ∷ []))

append_entries-IsLogged :
    (env : Env) (es : List Entry) (s : RaftServer)
    → Ordered env
    → length s.entries + length es < int_max
    → IsLogged env s
    → IsLogged env (append_entries env es s)
unfolding append_entries
append_entries-IsLogged env [] s o b h = h
append_entries-IsLogged env (e ∷ es) s o b h =
    append_entries-IsLogged env es (append_one env e s) o (omega (arith, length-append_one env e s))
      (append_one-IsLogged env e s o (omega arith) h)

-- no key with a null pointer
abbrev NoNull : RaftServer → Type 0
NoNull s = (id : ℕ) → find id s.proxies ≢ some none

set_proxy-NoNull : (id : ℕ) (p : Proxy) (s : RaftServer) → NoNull s → NoNull (set_proxy id p s)
set_proxy-NoNull id p s h k =
    let found = find-insert id k (some p) s.proxies in
    let others = h k in λ e. ground (arith, found, others, e)

add_proxy-NoNull :
    (id : ℕ) (s : RaftServer) (p : Option (Option Proxy))
    → find id s.proxies ≡ p
    → NoNull s
    → (t : RaftServer) × (add_proxy id s ≡ ok t) × (t.entries ≡ s.entries) × NoNull t
unfolding add_proxy
add_proxy-NoNull id s none e h =
    (set_proxy id (new_proxy id) s, rw e refl, refl, set_proxy-NoNull id (new_proxy id) s h)
add_proxy-NoNull id s (some none) e h = absurd (h id e)
add_proxy-NoNull id s (some (some p)) e h =
    let q = record p { state = is_voting } in
    (set_proxy id q s, rw e refl, refl, set_proxy-NoNull id q s h)

load_one-NoNull :
    (e : Entry) (s : RaftServer)
    → NoNull s
    → (t : RaftServer) × (load_one e s ≡ ok t) × (t.entries ≡ s.entries ++ (e ∷ [])) × NoNull t
unfolding load_one
load_one-NoNull e s h = elim (Bool-cases (is_cfgadd e.type)) [
  | inl adds ↦
      let (t, p, q, n) = add_proxy-NoNull e.nodeid s (find e.nodeid s.proxies) refl h in
      (
        record t { entries = t.entries ++ (e ∷ []) },
        rw (adds, p) refl,
        ap (λ l. l ++ (e ∷ [])) q,
        n,
      )
  | inr other ↦ (record s { entries = s.entries ++ (e ∷ []) }, rw other refl, refl, h)
]

load_all-NoNull :
    (env : Env) (i : ℕ) (es : List Entry) (s : RaftServer)
    → NoNull s
    → (t : RaftServer) × (load_all env (numbered i (stored_all env es)) s ≡ ok t)
      × (t.entries ≡ s.entries ++ reload_all env es)
unfolding load_all
load_all-NoNull env i [] s h = (s, refl, sym (append-nil s.entries))
load_all-NoNull env i (e ∷ es) s h =
    let e' = load_entry env (stored env e) in
    let (t, p, q, n) = load_one-NoNull e' s h in
    let (u, r, w) = load_all-NoNull env (i + 1) es t n in
    (
      u,
      rw p r,
      w ∙ ap (λ l. l ++ reload_all env es) q ∙ append_assoc s.entries (e' ∷ []) (reload_all env es),
    )

nothing_null : (id : ℕ) → find {V = Option Proxy} id [] ≢ some none
unfolding find
nothing_null id = λ e. ground arith

-- A server that has just opened the database reads the log again.
pub load_entries-IsLogged :
    (env : Env) (s fresh : RaftServer)
    → Ordered env
    → IsLogged env s
    → fresh.proxies ≡ []
    → fresh.entries_db ≡ s.entries_db
    → (t : RaftServer) × (load_entries env fresh ≡ ok t) × (t.entries ≡ reload_all env s.entries)
unfolding load_entries
load_entries-IsLogged env s fresh o h none_yet same =
    let blank = record fresh { entries = [] } in
    let (t, p, q) =
      load_all-NoNull env 0 s.entries blank
        (λ id e. nothing_null id (sym (ap (λ m. find id m) none_yet) ∙ e)) in
    let read : env.scan fresh.entries_db ≡ numbered 0 (stored_all env s.entries) =
      ap (λ db. env.scan db) same ∙ h in
    (t, rw (read, p, o.complete fresh.entries_db) refl, q)

-- A follower whose stored log is the one in memory is sent entries, and stops after it has appended
-- them: a restart reads as many entries as were in memory, in the same order, each as it was stored.
pub load_entries-append_entries :
    (env : Env) (es : List Entry) (s fresh : RaftServer)
    → Ordered env
    → IsLogged env s
    → length s.entries + length es < int_max
    → fresh.proxies ≡ []
    → fresh.entries_db ≡ (append_entries env es s).entries_db
    → (t : RaftServer) × (load_entries env fresh ≡ ok t)
      × (t.entries ≡ reload_all env (append_entries env es s).entries)
load_entries-append_entries env es s fresh o h b =
    load_entries-IsLogged env (append_entries env es s) fresh o
      (append_entries-IsLogged env es s o b h)
