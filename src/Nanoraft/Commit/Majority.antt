-- ===== src/Nanoraft/Commit/Majority.antt =====
-- nanoraft/RaftServer.cpp, `ChangeCommitIndex`: when the commit index moves.
use raft_server.Prelude.{
  List, Option, Option-cases, [], arith, bad_index, fault, get_elem?, if◌then◌else◌, inl, inr, leb,
  length, none, ok, refl, some, true, ℕ, ◌*◌, ◌+◌, ◌<◌, ◌^◌, ◌↔◌, ◌∷◌, ◌≡◌,
}
use raft_server.Map.{Map}
use raft_server.State.{RaftServer}
use raft_server.Nanoraft.Commit.{change_commit_index, count_matching}
use raft_server.Nanoraft.Proxy.{Proxy}
use raft_server.Protocol.{Entry}

-- A server without a null pointer under a node's id.
abbrev pub AllThere : Map (Option Proxy) → Type 0
AllThere [] = Unit {0}
AllThere ((id, none) ∷ m) = ⊥
AllThere ((id, some p) ∷ m) = AllThere m

-- The nodes that are known to hold entry i.
abbrev pub holders : ℕ → Map (Option Proxy) → List ℕ
holders i [] = []
holders i ((id, none) ∷ m) = holders i m
holders i ((id, some p) ∷ m) = if leb i p.match_index then id ∷ holders i m else holders i m

pub count_matching-holders :
    (i : ℕ) (m : Map (Option Proxy)) → AllThere m → count_matching i m ≡ ok (length (holders i m))
unfolding count_matching
count_matching-holders i [] there = refl
count_matching-holders i ((id, none) ∷ m) there = absurd there
count_matching-holders i ((id, some p) ∷ m) there = ground (arith, count_matching-holders i m there)

-- Entry `next` of the log is of the server's own term, and more than half of the proxies hold it.
pub record CanCommit (next : ℕ) (e : Entry) (s : RaftServer) : Type 0 where
  pub majority : length s.proxies < 2 * length (holders next s.proxies)
  pub stored : get_elem? s.entries next ≡ some e
  pub current : e.term ≡ s.current_term

-- The commit index moves by one, and only to an entry of the current term that a majority of the
-- proxies holds.
pub change_commit_index_sound :
    (s : RaftServer) {t : RaftServer}
    → s.commit_index + 1 < 2 ^ 32
    → AllThere s.proxies
    → change_commit_index s ≡ ok (true, t)
    → (t ≡ record s { commit_index = s.commit_index + 1 })
      × (e : Entry) × CanCommit (s.commit_index + 1) e s
unfolding change_commit_index
change_commit_index_sound s {t} b there h =
    let next = s.commit_index + 1 in
    let counted = count_matching-holders next s.proxies there in
    elim (Option-cases (get_elem? s.entries next)) [
      | inl e ↦ absurd (ground (arith, counted))
      | inr (e, p) ↦ (
        ground (arith, counted),
        e,
        record {
          majority = ground (arith, counted);
          stored = p;
          current = ground (arith, counted);
        },
      )
    ]

-- It does move there.
pub change_commit_index_complete :
    (e : Entry) (s : RaftServer)
    → s.commit_index + 1 < 2 ^ 32
    → AllThere s.proxies
    → CanCommit (s.commit_index + 1) e s
    → change_commit_index s ≡ ok (true, record s { commit_index = s.commit_index + 1 })
unfolding change_commit_index
change_commit_index_complete e s b there can =
    ground (arith, count_matching-holders (s.commit_index + 1) s.proxies there)

-- It fails exactly where a majority is said to hold an entry that the log does not have.
pub change_commit_index-eq-fault :
    (s : RaftServer)
    → s.commit_index + 1 < 2 ^ 32
    → AllThere s.proxies
    → (change_commit_index s ≡ fault bad_index) ↔ (
        (length s.proxies < 2 * length (holders (s.commit_index + 1) s.proxies))
        × (get_elem? s.entries (s.commit_index + 1) ≡ none))
unfolding change_commit_index
change_commit_index-eq-fault s b there =
    let counted = count_matching-holders (s.commit_index + 1) s.proxies there in
    (λ h. (ground (arith, counted), ground (arith, counted)), λ h. ground (arith, counted))
