-- ===== src/Mod/Api/Accept.antt =====
-- mod/ModApi.hpp, `AppendEntriesQ`: what a follower stores, and how it answers.
use raft_server.Prelude.{
  Bool-cases, Fault, List, Result-cases, [], append-nil, arith, fault, inl, inr, length, ok, refl,
  subst, sym, to_string, true, ℕ, ◌++◌, ◌+◌, ◌<◌, ◌==◌, ◌^◌, ◌∷◌, ◌≡◌, ◌≢◌, ◌≤◌,
}
use raft_server.Mod.Api.Term.{TermChecked, check_term-TermChecked}
use raft_server.Nanoraft.Broadcast.{set_and_persist_term, term_key}
use raft_server.Easytimer.{follower_heartbeat_timer, fresh_time}
use raft_server.Protocol.{AppendEntriesQ, Entry}
use raft_server.Mod.Api.Entries.{
  cfg_entries, Stores, append_entries-frame, entries-append_entries, resolve_conflicts_no_logs,
}
use raft_server.Mod.Api.Follower.{Matches, entry_term_by_index_lem, fresh_time-frame}
use raft_server.State.{RaftServer}
use raft_server.Env.{Env, put}
use raft_server.Mod.Api.{Verdict, judge, take_entries, append_entries, check_previous, check_term}

abbrev pub acceptance : AppendEntriesQ → Verdict
acceptance q = record { success = true; heartbeat = length q.entries == 0 }

-- The follower's side of an accepted message.
pub record Stored (q : AppendEntriesQ) (s t : RaftServer) : Type 0 where
  pub entries : t.entries ≡ s.entries ++ cfg_entries q.term q.entries
  pub logs : t.logs ≡ []
  pub term : t.current_term ≡ q.term

cfg_entries_none : (term : ℕ) (es : List Entry) → (length es == 0) ≡ true → cfg_entries term es ≡ []
unfolding cfg_entries
cfg_entries_none term [] h = refl
cfg_entries_none term (e ∷ es) h = ground arith

take_entries-Stored :
    (env : Env) (q : AppendEntriesQ) (s : RaftServer)
    → Stores env
    → s.logs ≡ []
    → q.prelogindex + 2 < 2 ^ 32
    → s.current_term ≡ q.term
    → (t : RaftServer) × (take_entries env q s ≡ ok (acceptance q, t)) × Stored q s t
unfolding take_entries cfg_entries
take_entries-Stored env q s stores logs b same = elim (Bool-cases (length q.entries == 0)) [
  | inl without ↦
      let fresh = fresh_time-frame follower_heartbeat_timer s in
      let nothing = cfg_entries_none q.term q.entries without in
      (
        fresh_time follower_heartbeat_timer s,
        ground arith,
        record {
          entries = ground (arith, fresh, nothing, append-nil s.entries);
          logs = ground (arith, fresh);
          term = ground (arith, fresh);
        },
      )
  | inr with_entries ↦
      let unchanged =
        resolve_conflicts_no_logs env q.prelogindex 0 q.entries s logs (omega arith) in
      let frame = append_entries-frame env q.entries s in
      (
        append_entries env q.entries s,
        rw (with_entries, unchanged) refl,
        record {
          entries = ground (arith, entries-append_entries env q.entries s stores);
          logs = cc;
          term = cc;
        },
      )
]

check_previous_complete :
    (q : AppendEntriesQ) (s : RaftServer)
    → q.prelogindex + 1 < 2 ^ 32
    → q.prelogterm + 1 < 2 ^ 32
    → Matches q s.entries
    → check_previous q s ≡ ok true
unfolding check_previous
check_previous_complete q s b c (inl zero_index) = ground arith
check_previous_complete q s b c (inr (e, p, same)) =
    ground (arith, entry_term_by_index_lem q.prelogindex s b)

check_term_ends :
    (env : Env) (q : AppendEntriesQ) (s : RaftServer) {x : Fault}
    → Stores env
    → check_term env q s ≢ fault x
unfolding check_term set_and_persist_term
check_term_ends env q s {x} stores h =
    ground (arith, stores s.state_db (put term_key (to_string q.term)))

-- A message that is not of an older term gets through step 1.
check_term_current :
    (env : Env) (q : AppendEntriesQ) (s : RaftServer)
    → Stores env
    → s.current_term ≤ q.term
    → (t : RaftServer) × (check_term env q s ≡ ok (true, t)) × TermChecked q s true t
check_term_current env q s stores le = elim (Result-cases (check_term env q s)) [
  | inl ((go, t), e) ↦
      let checked = check_term-TermChecked env q s e in
      let goes : go ≡ true = ground (arith, checked.go_on) in
      (t, rw (sym goes) e, subst (λ b. TermChecked q s b t) goes checked)
  | inr (x, e) ↦ absurd (check_term_ends env q s stores e)
]

pub judge_accepts :
    (env : Env) (q : AppendEntriesQ) (s : RaftServer)
    → Stores env
    → s.logs ≡ []
    → q.prelogindex + 2 < 2 ^ 32
    → q.prelogterm + 1 < 2 ^ 32
    → s.current_term ≤ q.term
    → Matches q s.entries
    → (t : RaftServer) × (judge env q s ≡ ok (acceptance q, t)) × Stored q s t
unfolding judge
judge_accepts env q s stores logs b c le match =
    let (s1, p, checked) = check_term_current env q s stores le in
    let frame = checked.frame in
    let (t, p2, st) = take_entries-Stored env q s1 stores (cc) b (ground (arith, checked.term)) in
    let matching = check_previous_complete q s1 (omega arith) c (subst (Matches q) (cc) match) in
    (
      t,
      rw (p, matching, p2) refl,
      record { entries = cc (st.entries); logs = st.logs; term = st.term },
    )
