-- ===== src/Mod/Api/Follower.antt =====
-- mod/ModApi.hpp, `AppendEntriesQ`: the handler as a whole, up to its reply.
use raft_server.Prelude.{
  >>=-eq-ok, Bool, Bool-cases, Extends, Extends-refl, List, Option-cases, [], arith, dec_lt, false,
  get_elem?, get_elem?-none_of_ge, get_elem?-some_of_lt, if◌then◌else◌, inl, inr, length, max,
  minus_one, none, ok, refl, some, to_int, to_uint32, true, u32, ℕ, ◌+◌, ◌<◌, ◌==◌, ◌^◌, ◌∷◌, ◌≡◌,
  ◌≤◌, ◌⊎◌,
}
use raft_server.Mod.Api.Term.{check_term-TermChecked, TermChecked}
use raft_server.Mod.Api.Entries.{append_entries-Extends, append_entries-frame}
use raft_server.Easytimer.{fresh_time, follower_heartbeat_timer}
use raft_server.Protocol.{AppendEntriesQ, Entry}
use raft_server.Nanoraft.Log.{entry_term_by_index, log_term_by_index, del_logs_from_index}
use raft_server.Mod.Api.{
  check_previous, resolve_conflicts, Verdict, take_entries, check_term, judge, refused,
}
use raft_server.Env.{Env}
use raft_server.State.{RaftServer}

-- The previous entry of a message is the start of the log, or is there with the term that it says.
abbrev pub Matches : AppendEntriesQ → List Entry → Type 0
Matches q es =
    (q.prelogindex ≡ 0)
    ⊎ ((e : Entry) × (get_elem? es q.prelogindex ≡ some e) × (e.term ≡ q.prelogterm))

abbrev pub Terms32 : List Entry → Type 0
Terms32 es = (i : ℕ) (e : Entry) → get_elem? es i ≡ some e → e.term < 2 ^ 32

-- `EntryTermByIndex`, for an index whose successor does not wrap
pub entry_term_by_index_lem :
    (i : ℕ) (s : RaftServer)
    → i + 1 < 2 ^ 32
    → entry_term_by_index i s
      ≡ elim (get_elem? s.entries i) [ none ↦ ok minus_one | some e ↦ ok (to_int e.term) ]
unfolding entry_term_by_index
entry_term_by_index_lem i s b = elim (dec_lt i (length s.entries)) [
  | yes p ↦ ground (arith, get_elem?-some_of_lt s.entries i p)
  | no p ↦ ground (arith, get_elem?-none_of_ge s.entries i (omega arith))
]

to_uint32-to_int : (w : ℕ) → w < 2 ^ 32 → to_uint32 (to_int w) ≡ w
to_uint32-to_int w h = ground arith

-- The test of the previous entry passes only on a match.
pub check_previous_sound :
    (q : AppendEntriesQ) (s : RaftServer)
    → q.prelogindex + 1 < 2 ^ 32
    → Terms32 s.entries
    → check_previous q s ≡ ok true
    → Matches q s.entries
unfolding check_previous
check_previous_sound q s b t h = elim (Option-cases (get_elem? s.entries q.prelogindex)) [
  | inl e ↦ ground (arith, entry_term_by_index_lem q.prelogindex s b)
  | inr (e, p) ↦ ground (
    arith,
    entry_term_by_index_lem q.prelogindex s b,
    to_uint32-to_int e.term (t q.prelogindex e p),
  )
]

del_logs_from_index-frame :
    (env : Env) (i : ℕ) (s : RaftServer)
    → del_logs_from_index env i s ≡ record s {
      entries_db = (del_logs_from_index env i s).entries_db;
      logs = (del_logs_from_index env i s).logs;
    }
unfolding del_logs_from_index
del_logs_from_index-frame env i s = ground arith

-- Step 3 changes the database and `m_stLogs_` only, and drops entries from the front of the message.
pub resolve_conflicts-frame :
    (env : Env) (prev i : ℕ) (es : List Entry) (s : RaftServer) {es' : List Entry} {s' : RaftServer}
    → resolve_conflicts env prev i es s ≡ ok (es', s')
    → (length es' ≤ length es) × (s' ≡ record s { entries_db = s'.entries_db; logs = s'.logs })
unfolding resolve_conflicts
resolve_conflicts-frame env prev i [] s h = ground arith
resolve_conflicts-frame env prev i (e ∷ es) s {es'} {s'} h =
    let (t, p, rest) = >>=-eq-ok (log_term_by_index (u32 (prev + 1 + i)) s) _ h in
    ground (
      arith,
      resolve_conflicts-frame env prev (i + 1) es (del_logs_from_index env (to_uint32 t) s)
          {es' = es'} {s' = s'},
      del_logs_from_index-frame env (to_uint32 t) s,
    )

pub fresh_time-frame :
    (i : ℕ) (s : RaftServer) → fresh_time i s ≡ record s { timers = (fresh_time i s).timers }
unfolding fresh_time
fresh_time-frame i s = ground arith

-- What the handler's steps leave alone: all but the term and the role, the log and the timers.
abbrev pub KeepsRest : RaftServer → RaftServer → Type 0
KeepsRest s s' = s' ≡ record s {
  current_term = s'.current_term;
  role = s'.role;
  state_db = s'.state_db;
  entries = s'.entries;
  entries_db = s'.entries_db;
  logs = s'.logs;
  timers = s'.timers;
}

-- What steps 2 to 4 do to the server.
record Taken (q : AppendEntriesQ) (s : RaftServer) (v : Verdict) (s' : RaftServer) : Type 0 where
  success : v.success ≡ true
  heartbeat : v.heartbeat ≡ true → s'.entries ≡ s.entries
  term : s'.current_term ≡ s.current_term
  rest : KeepsRest s s'
  extends : Extends s.entries s'.entries

take_entries-Taken :
    (env : Env) (q : AppendEntriesQ) (s : RaftServer) {v : Verdict} {s' : RaftServer}
    → take_entries env q s ≡ ok (v, s')
    → Taken q s v s'
unfolding take_entries
take_entries-Taken env q s {v} {s'} h = elim (Bool-cases (length q.entries == 0)) [
  | inl without ↦
      ground (arith, fresh_time-frame follower_heartbeat_timer s, Extends-refl s.entries)
  | inr with_entries ↦
      let ((es, s1), p, rest) =
        >>=-eq-ok (resolve_conflicts env q.prelogindex 0 q.entries s) _ (rw with_entries at h) in
      ground (
        arith,
        resolve_conflicts-frame env q.prelogindex 0 q.entries s p,
        append_entries-frame env es s1,
        append_entries-Extends env es s1,
      )
]

-- What the handler has done when it comes to its reply.
pub record Judged (q : AppendEntriesQ) (s : RaftServer) (v : Verdict) (s' : RaftServer)
    : Type 0 where
  pub term : s'.current_term ≡ max s.current_term q.term
  pub rest : KeepsRest s s'
  pub extends : Extends s.entries s'.entries
  pub kept : v.success ≡ false → s'.entries ≡ s.entries
  pub current : v.success ≡ true → s'.current_term ≡ q.term
  pub matches : v.success ≡ true → check_previous q s ≡ ok true
  pub heartbeat : v.heartbeat ≡ true → s'.entries ≡ s.entries

check_previous-entries :
    (q : AppendEntriesQ) (s t : RaftServer)
    → s.entries ≡ t.entries
    → check_previous q s ≡ check_previous q t
unfolding check_previous entry_term_by_index
check_previous-entries q s t e = rw e refl

-- behind step 1
judge_rest :
    (env : Env) (q : AppendEntriesQ) (s : RaftServer) (go m : Bool) (s1 : RaftServer) (v : Verdict)
    (s' : RaftServer)
    → TermChecked q s go s1
    → (if go then check_previous q s1 else ok false) ≡ ok m
    → (if m then take_entries env q s1 else ok (refused, s1)) ≡ ok (v, s')
    → Judged q s v s'
judge_rest env q s true true s1 v s' c p h =
    ground (arith, take_entries-Taken env q s1 h, check_previous-entries q s s1)
judge_rest env q s true false s1 v s' c p h = ground (arith, Extends-refl s.entries)
judge_rest env q s false true s1 v s' c p h = cc
judge_rest env q s false false s1 v s' c p h = ground (arith, Extends-refl s.entries)

pub judge-Judged :
    (env : Env) (q : AppendEntriesQ) (s : RaftServer) {v : Verdict} {s' : RaftServer}
    → judge env q s ≡ ok (v, s')
    → Judged q s v s'
unfolding judge
judge-Judged env q s {v} {s'} h =
    let ((go, s1), p, h1) = >>=-eq-ok (check_term env q s) _ h in
    let (m, p2, h2) = >>=-eq-ok (if go then check_previous q s1 else ok false) _ h1 in
    judge_rest env q s go m s1 v s' (check_term-TermChecked env q s p) p2 h2
