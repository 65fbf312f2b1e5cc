-- ===== src/NullFree/Dispatch.antt =====
-- mod/ModApi.hpp, `Proc`: a message of the class that its id stands for reads through no null pointer.
use raft_server.Prelude.{
  Bool-cases, Bytes, List, Option, Option-cases, Result, Result-cases, [], ap, arith, false, fault,
  inl, inr, ltb, none, not, null_pointer, ok, some, subst, suc, sym, to_uint32, true, u32, u64,
  zero, ℕ, ◌&&◌, ◌+◌, ◌>>=◌, ◌∷◌, ◌≡◌, ◌≢◌,
}
use raft_server.Mod.Arrived.{kind_of}
use raft_server.Nanoraft.Broadcast.{become_follower, set_and_persist_term}
use raft_server.Mod.Api.Follower.{judge-Judged}
use raft_server.Net.Send.{handle_pre_send_msg, lock_proxy}
use raft_server.Net.Server.{on_proxy, server_is_leader}
use raft_server.Env.{Env}
use raft_server.Map.{Map, find, insert}
use raft_server.Nanoraft.Peers.{proxy_conn_fd}
use raft_server.NullFree.{>>=-Sound, NoNull, Sound, Sound-intro, insert-NoNull}
use raft_server.Nanoraft.Commit.{change_commit_index, count_matching}
use raft_server.State.{Conn, RaftServer, set_conn}
use raft_server.Nanoraft.Log.{del_logs_from_index, entry_term_by_index, log_term_by_index}
use raft_server.Nanoraft.Proxy.{Proxy}
use raft_server.Protocol.{AppendEntriesQ, AppendEntriesR, Entry, HandshakeQ, Kind, Message}
use raft_server.NullFree.Handlers.{Intact, post-Sound, proxy_conn_fd-Sound, welcome-Sound}
use raft_server.Mod.Api.{
  Verdict, append_entries_on, append_reply_on, check_previous, check_term, handshake_on,
  handshake_reply, judge, resolve_conflicts, take_entries, update_commit, welcome, append_entries_q,
  append_entries_r, handshake_q, proc, record_success,
}

-- the class of a message
abbrev pub class_of : Message → Kind
class_of (Message.handshake_q q) = Kind.handshake_q
class_of (Message.handshake_r r) = Kind.handshake_r
class_of (Message.appendentries_q q) = Kind.appendentries_q
class_of (Message.appendentries_r r) = Kind.appendentries_r
class_of (Message.requestvote_q q) = Kind.requestvote_q
class_of (Message.requestvote_r r) = Kind.requestvote_r

-- ParseFromArray fills in the object that `NewMessage` has made, which is of the class asked for.
abbrev pub Classed : Env → Type 0
Classed env = (k : Kind) (b : Bytes) → class_of (env.decode k b) ≡ k

handshake_on-Sound :
    (env : Env) (fd : ℕ) (c : Conn) (q : HandshakeQ) (s : RaftServer)
    → Intact s
    → Sound Intact (handshake_on env fd c q s)
unfolding handshake_on
handshake_on-Sound env fd c q s intact = elim (Bool-cases (server_is_leader s)) [
  | inr follows ↦ rw follows (post-Sound env fd 258 (handshake_reply false) s intact)
  | inl leads ↦
      let s0 = set_conn fd (record c { raft_port = q.raftport }) s in
      let Known : Option ℕ → Type 0 =
        λ old. (g : ℕ) → old ≡ some g → (p : Proxy) × (find q.nodeid s.proxies ≡ some (some p)) in
      rw leads (
        >>=-Sound Known Intact (proxy_conn_fd q.nodeid s)
          (λ old. welcome env fd c q old s0 >>= λ s'.
            handle_pre_send_msg env fd 258 (handshake_reply true) s')
          (proxy_conn_fd-Sound q.nodeid s intact)
          (λ old e known.
            >>=-Sound Intact Intact (welcome env fd c q old s0)
              (λ s'. handle_pre_send_msg env fd 258 (handshake_reply true) s')
              (welcome-Sound env fd c q old s0 intact known)
              (λ t f. post-Sound env fd 258 (handshake_reply true) t)))
]

resolve_conflicts-null_pointer :
    (env : Env) (prev i : ℕ) (es : List Entry) (s : RaftServer)
    → resolve_conflicts env prev i es s ≢ fault null_pointer
unfolding resolve_conflicts log_term_by_index
resolve_conflicts-null_pointer env prev i [] s h = cc
resolve_conflicts-null_pointer env prev i (e ∷ es) s h =
    elim (Result-cases (log_term_by_index (u32 (prev + 1 + i)) s)) [
      | inl (t, p) ↦ ground (
        arith,
        resolve_conflicts-null_pointer env prev (i + 1) es
            (del_logs_from_index env (to_uint32 t) s),
      )
      | inr (x, p) ↦ ground arith
    ]

check_term-null_pointer :
    (env : Env) (q : AppendEntriesQ) (s : RaftServer) → check_term env q s ≢ fault null_pointer
unfolding check_term set_and_persist_term
check_term-null_pointer env q s h = ground arith

check_previous-null_pointer :
    (q : AppendEntriesQ) (s : RaftServer) → check_previous q s ≢ fault null_pointer
unfolding check_previous entry_term_by_index
check_previous-null_pointer q s h = ground arith

take_entries-null_pointer :
    (env : Env) (q : AppendEntriesQ) (s : RaftServer) → take_entries env q s ≢ fault null_pointer
unfolding take_entries
take_entries-null_pointer env q s h =
    ground (arith, resolve_conflicts-null_pointer env q.prelogindex 0 q.entries s)

judge-null_pointer :
    (env : Env) (q : AppendEntriesQ) (s : RaftServer) → judge env q s ≢ fault null_pointer
unfolding judge
judge-null_pointer env q s h = elim (Result-cases (check_term env q s)) [
  | inr (x, p) ↦ ground (arith, check_term-null_pointer env q s)
  | inl ((go, s1), p) ↦
      ground (arith, check_previous-null_pointer q s1, take_entries-null_pointer env q s1)
]

append_entries_on-Sound :
    (env : Env) (fd : ℕ) (q : AppendEntriesQ) (s : RaftServer)
    → Intact s
    → Sound Intact (append_entries_on env fd q s)
unfolding append_entries_on update_commit
append_entries_on-Sound env fd q s intact =
    let Same : Verdict × RaftServer → Type 0 = λ r. r.1.proxies ≡ s.proxies in
    >>=-Sound Same Intact (judge env q s) _
      (Sound-intro Same (judge env q s) (λ r e. ap (λ x. x.proxies) (judge-Judged env q s e).rest)
        (judge-null_pointer env q s))
      (λ r e same.
        let after : (update_commit q r.1).proxies ≡ s.proxies = ground arith in
        post-Sound env fd 260 _ (update_commit q r.1) (subst NoNull (sym after) intact))

count_matching-null_pointer :
    (i : ℕ) (m : Map (Option Proxy)) → NoNull m → count_matching i m ≢ fault null_pointer
unfolding count_matching
count_matching-null_pointer i [] intact h = cc
count_matching-null_pointer i ((id, none) ∷ m) intact h = absurd intact
count_matching-null_pointer i ((id, some p) ∷ m) intact h =
    ground (arith, count_matching-null_pointer i m intact)

on_proxy-Intact :
    (f : Proxy → Proxy) (fd : ℕ) (s : RaftServer) → Intact s → Intact (on_proxy f fd s)
unfolding on_proxy lock_proxy
on_proxy-Intact f fd s intact = elim (Option-cases (find fd s.conns)) [
  | inl e ↦ rw (e, on_proxy) intact
  | inr (c, e) ↦ elim (Option-cases c.proxy) [
    | inl g ↦
        let same : (on_proxy f fd s).proxies ≡ s.proxies = ground arith in
        subst NoNull (sym same) intact
    | inr (id, g) ↦ elim (Option-cases (lock_proxy (some id) s.proxies)) [
      | inl k ↦
          let same : (on_proxy f fd s).proxies ≡ s.proxies = ground arith in
          subst NoNull (sym same) intact
      | inr (p, k) ↦
          let put : (on_proxy f fd s).proxies ≡ insert id (some (f p)) s.proxies = ground arith in
          subst NoNull (sym put) (insert-NoNull id (f p) s.proxies intact)
    ]
  ]
]

record_success-Intact :
    (fd : ℕ) (r : AppendEntriesR) (s : RaftServer) → Intact s → Intact (record_success fd r s)
record_success-Intact fd r s intact = elim (Bool-cases (r.success && not r.isheartbeat)) [
  | inl counts ↦ rw counts (
      on_proxy-Intact (λ p. record p { next_index = u64 (p.next_index + 1) }) fd _
        (on_proxy-Intact (λ p. record p { match_index = u64 (p.match_index + 1) }) fd s intact))
  | inr other ↦ rw other intact
]

change_commit_index-Sound :
    (s : RaftServer) → Intact s → Sound (λ d. Intact d.1) (change_commit_index s)
unfolding change_commit_index
change_commit_index-Sound s intact =
    Sound-intro (λ d. Intact d.1) (change_commit_index s)
      (λ d e. let same : d.1.proxies ≡ s.proxies = ground arith in subst NoNull (sym same) intact)
      (λ e. ground (arith, count_matching-null_pointer (u32 (s.commit_index + 1)) s.proxies intact))

set_and_persist_term-Sound :
    (env : Env) (term : ℕ) (s : RaftServer)
    → Intact s
    → Sound Intact (set_and_persist_term env term s)
unfolding set_and_persist_term
set_and_persist_term-Sound env term s intact =
    Sound-intro Intact (set_and_persist_term env term s)
      (λ u e. let same : u.proxies ≡ s.proxies = ground arith in subst NoNull (sym same) intact)
      (λ e. ground arith)

append_reply_on-Sound :
    (env : Env) (fd : ℕ) (r : AppendEntriesR) (s : RaftServer)
    → Intact s
    → Sound Intact (append_reply_on env fd r s)
unfolding append_reply_on set_and_persist_term become_follower change_commit_index
append_reply_on-Sound env fd r s intact = elim (Bool-cases (ltb s.current_term r.term)) [
  | inl newer ↦ rw newer (
      >>=-Sound Intact Intact (set_and_persist_term env r.term s) (λ s'. ok (become_follower s'))
        (set_and_persist_term-Sound env r.term s intact) (λ u e stored. stored))
  | inr current ↦ rw current (
      >>=-Sound (λ d. Intact d.1) Intact (change_commit_index (record_success fd r s)) (λ d. ok d.1)
        (change_commit_index-Sound (record_success fd r s) (record_success-Intact fd r s intact))
        (λ d e done. done))
]

-- a handler behind the lock of its connection
found-Sound :
    (f : Conn → Result RaftServer) (fd : ℕ) (s : RaftServer)
    → Intact s
    → ((c : Conn) → Sound Intact (f c))
    → Sound Intact (elim (find fd s.conns) [ none ↦ ok s | some c ↦ f c ])
found-Sound f fd s intact each = elim (Option-cases (find fd s.conns)) [
  | inl e ↦ rw e intact
  | inr (c, e) ↦ rw e (each c)
]

pub proc-Sound :
    (env : Env) (fd i : ℕ) (k : Kind) (m : Message) (s : RaftServer)
    → kind_of i ≡ some k
    → class_of m ≡ k
    → Intact s
    → Sound Intact (proc env fd i m s)
unfolding proc handshake_q append_entries_q append_entries_r kind_of
proc-Sound env fd zero k (Message.handshake_q q) s e c intact =
    found-Sound (λ c. handshake_on env fd c q s) fd s intact
      (λ c. handshake_on-Sound env fd c q s intact)
proc-Sound env fd (suc zero) k (Message.handshake_r r) s e c intact = intact
proc-Sound env fd (suc (suc zero)) k (Message.appendentries_q q) s e c intact =
    found-Sound (λ c. append_entries_on env fd q s) fd s intact
      (λ c. append_entries_on-Sound env fd q s intact)
proc-Sound env fd (suc (suc (suc zero))) k (Message.appendentries_r r) s e c intact =
    found-Sound (λ c. append_reply_on env fd r s) fd s intact
      (λ c. append_reply_on-Sound env fd r s intact)
proc-Sound env fd (suc (suc (suc (suc zero)))) k m s e c intact = intact
proc-Sound env fd (suc (suc (suc (suc (suc i))))) k m s e c intact = λ h. cc
proc-Sound env fd i k m s e c intact = absurd (ground arith)
