-- ===== src/Recovery/Proxies.antt =====
-- nanoraft/RaftServer.cpp: the nodes that a server knows when it has read its log.
use raft_server.Prelude.{
  >>=-eq-ok, Bool, Bool-cases, Bytes, List, Option-cases, [], arith, false, inl, inr, none, ok,
  refl, some, subst, true, ℕ, ◌&&◌, ◌++◌, ◌==◌, ◌||◌, ◌∷◌, ◌≡◌,
}
use raft_server.Nanoraft.Proxy.{Proxy, is_voting, new_proxy}
use raft_server.Protocol.{Entry, is_cfgadd}
use raft_server.State.{RaftServer, set_proxy}
use raft_server.Map.{find, find-insert}
use raft_server.Env.{Env}
use raft_server.Nanoraft.Peers.{add_proxy, load_all, load_entries, load_entry, load_one}

-- There is a proxy of this node.
abbrev pub known : ℕ → RaftServer → Bool
known id s = elim (find id s.proxies) [
  | none ↦ false
  | some m ↦ elim m [ none ↦ false | some p ↦ true ]
]

-- A log adds this node.
abbrev pub adds : ℕ → List Entry → Bool
adds id [] = false
adds id (e ∷ es) = (is_cfgadd e.type && id == e.nodeid) || adds id es

adds-append :
    (id : ℕ) (es : List Entry) (e : Entry)
    → adds id (es ++ (e ∷ [])) ≡ (adds id es || (is_cfgadd e.type && id == e.nodeid))
adds-append id [] e = ground arith
adds-append id (x ∷ es) e = ground (arith, adds-append id es e)

-- The nodes that the server knows are those that its log adds.
abbrev pub KnowsAdded : RaftServer → Type 0
KnowsAdded s = (id : ℕ) → known id s ≡ adds id s.entries

known-set_proxy :
    (id n : ℕ) (p : Proxy) (s : RaftServer) → known id (set_proxy n p s) ≡ (known id s || id == n)
known-set_proxy id n p s = ground (arith, find-insert n id (some p) s.proxies)

known-add_proxy :
    (n : ℕ) (s : RaftServer) {t : RaftServer}
    → add_proxy n s ≡ ok t
    → ((id : ℕ) → known id t ≡ (known id s || id == n)) × (t.entries ≡ s.entries)
unfolding add_proxy
known-add_proxy n s {t} h = elim (Option-cases (find n s.proxies)) [
  | inl e ↦
      let same : set_proxy n (new_proxy n) s ≡ t = ground arith in
      subst (λ u. ((id : ℕ) → known id u ≡ (known id s || id == n)) × (u.entries ≡ s.entries)) same
        (λ id. known-set_proxy id n (new_proxy n) s, refl)
  | inr (none, e) ↦ absurd (ground arith)
  | inr (some p, e) ↦
      let q = record p { state = is_voting } in
      let same : set_proxy n q s ≡ t = ground arith in
      subst (λ u. ((id : ℕ) → known id u ≡ (known id s || id == n)) × (u.entries ≡ s.entries)) same
        (λ id. known-set_proxy id n q s, refl)
]

load_one-KnowsAdded :
    (e : Entry) (s : RaftServer) {t : RaftServer}
    → load_one e s ≡ ok t
    → KnowsAdded s
    → KnowsAdded t
unfolding load_one
load_one-KnowsAdded e s {t} h k id = elim (Bool-cases (is_cfgadd e.type)) [
  | inl adding ↦
      let (u, p, h1) =
        >>=-eq-ok (add_proxy e.nodeid s) (λ s'. ok (record s' { entries = s'.entries ++ (e ∷ []) }))
          (rw adding at h) in
      let (more, same) = known-add_proxy e.nodeid s p in
      ground (arith, more id, same, k id, adds-append id s.entries e)
  | inr other ↦ ground (arith, k id, adds-append id s.entries e)
]

load_all-KnowsAdded :
    (env : Env) (rows : List (Bytes × Bytes)) (s : RaftServer) {t : RaftServer}
    → load_all env rows s ≡ ok t
    → KnowsAdded s
    → KnowsAdded t
unfolding load_all
load_all-KnowsAdded env [] s {t} h k = let same : s ≡ t = ground arith in subst KnowsAdded same k
load_all-KnowsAdded env ((key, value) ∷ rows) s h k =
    let (u, p, h1) = >>=-eq-ok (load_one (load_entry env value) s) _ h in
    load_all-KnowsAdded env rows u h1 (load_one-KnowsAdded (load_entry env value) s p k)

-- Whatever a database holds, a server that reads it without a fault knows the nodes that were added.
pub load_entries-KnowsAdded :
    (env : Env) (s : RaftServer) {t : RaftServer}
    → s.proxies ≡ []
    → load_entries env s ≡ ok t
    → KnowsAdded t
unfolding load_entries find
load_entries-KnowsAdded env s {t} empty h =
    let blank = record s { entries = [] } in
    let (u, p, h1) = >>=-eq-ok (load_all env (env.scan s.entries_db) blank) _ h in
    let same : u ≡ t = ground (arith, h1) in
    let start : KnowsAdded blank = λ id. rw empty refl in
    subst KnowsAdded same (load_all-KnowsAdded env (env.scan s.entries_db) blank p start)
