-- ===== src/Mod/Api/Agree.antt =====
-- net/Conn.cpp, `SendAppendEntries`, against mod/ModApi.hpp, `AppendEntriesQ`: what a leader sends,
-- and what a follower makes of it.
use raft_server.Prelude.{
  List, Option-cases, [], arith, dec64, dec_lt, drop, eq_ℤ, get_elem?, get_elem?-some_of_lt,
  if◌then◌else◌, inl, inr, length, ltb, minus_one, none, ok, refl, some, subst, suc, take, to_int,
  to_uint32, u32, zero, ℕ, ℕ_discrete, ℤ, ◌++◌, ◌+◌, ◌-◌, ◌<◌, ◌==◌, ◌^◌, ◌∷◌, ◌≡◌, ◌≤◌, ◌⊎◌,
}
use raft_server.Mod.Api.{judge}
use raft_server.Env.{Env}
use raft_server.Mod.Api.Entries.{Stores, cfg_entries}
use raft_server.Mod.Api.Accept.{acceptance, judge_accepts}
use raft_server.Mod.Api.Follower.{Matches, entry_term_by_index_lem}
use raft_server.Nanoraft.Proxy.{Proxy}
use raft_server.Net.Send.{next_entries, append_entries_message}
use raft_server.State.{RaftServer}
use raft_server.Protocol.{Entry, AppendEntriesQ}
use raft_server.Nanoraft.Log.{entry_by_index, entry_term_by_index}

-- What a leader sends from index `next` on: one entry, and the first two of the log together.
abbrev pub sent : ℕ → List Entry → List Entry
sent next es =
    if ltb next (length es) then (if next == 1 then take 2 es else take 1 (drop next es)) else []

take-drop-get_elem? :
    (es : List Entry) (i : ℕ) (e : Entry) → get_elem? es i ≡ some e → take 1 (drop i es) ≡ e ∷ []
take-drop-get_elem? [] i e h = ground arith
take-drop-get_elem? (x ∷ es) zero e h = ground arith
take-drop-get_elem? (x ∷ es) (suc i) e h = take-drop-get_elem? es i e h

take_two :
    (es : List Entry) (d e : Entry)
    → get_elem? es 0 ≡ some d
    → get_elem? es 1 ≡ some e
    → take 2 es ≡ d ∷ e ∷ []
take_two [] d e h g = ground arith
take_two (x ∷ []) d e h g = ground arith
take_two (x ∷ y ∷ es) d e h g = ground arith

next_entries-sent :
    (next : ℕ) (s : RaftServer)
    → 0 < next
    → next < 2 ^ 32
    → next_entries next s ≡ ok (sent next s.entries)
unfolding next_entries entry_by_index
next_entries-sent next s p b = elim (dec_lt next (length s.entries)) [
  | yes q ↦
      let (e, g) = get_elem?-some_of_lt s.entries next q in
      let (d, h) = get_elem?-some_of_lt s.entries 0 (omega arith) in
      elim (ℕ_discrete next 1) [
        | yes one ↦ ground (
          arith,
          g,
          h,
          one,
          take_two s.entries d e h (subst (λ i. get_elem? s.entries i ≡ some e) one g),
        )
        | no more ↦ ground (arith, g, take-drop-get_elem? s.entries next e g)
      ]
  | no q ↦ ground arith
]

-- the term of the entry before `next`
abbrev pub term_before : ℕ → List Entry → ℕ
term_before next es = elim (get_elem? es (next - 1)) [ none ↦ 0 | some e ↦ e.term ]

prelogterm-term_before :
    (next : ℕ) (s : RaftServer)
    → 0 < next
    → next < 2 ^ 32
    → term_before next s.entries + 1 < 2 ^ 32
    → (r : ℤ) × (entry_term_by_index (next - 1) s ≡ ok r)
      × ((if eq_ℤ r minus_one then 0 else to_uint32 r) ≡ term_before next s.entries)
prelogterm-term_before next s h b small = elim (Option-cases (get_elem? s.entries (next - 1))) [
  | inl e ↦
      (minus_one, ground (arith, entry_term_by_index_lem (next - 1) s (omega arith)), ground arith)
  | inr (x, e) ↦ (
    to_int x.term,
    ground (arith, entry_term_by_index_lem (next - 1) s (omega arith)),
    ground arith,
  )
]

prev-index : (next : ℕ) → 0 < next → next < 2 ^ 32 → u32 (dec64 next) ≡ next - 1
prev-index next h b = ground arith

-- What `SendAppendEntries` sends to a node, said over the log.
pub append_entries_message_lem :
    (p : Proxy) (s : RaftServer)
    → 0 < p.next_index
    → p.next_index < 2 ^ 32
    → term_before p.next_index s.entries + 1 < 2 ^ 32
    → append_entries_message p s
      ≡ ok (record {
        term = s.current_term;
        prelogindex = p.next_index - 1;
        prelogterm = term_before p.next_index s.entries;
        leadercommit = s.commit_index;
        entries = sent p.next_index s.entries;
      })
unfolding append_entries_message
append_entries_message_lem p s h b small =
    let (r, e, before) = prelogterm-term_before p.next_index s h b small in
    rw (prev-index p.next_index h b, e, next_entries-sent p.next_index s h b, before) refl

-- The log of a follower agrees with the leader's before `next`.
abbrev pub AgreesBefore : ℕ → List Entry → List Entry → Type 0
AgreesBefore next leads follows =
    (next ≡ 1)
    ⊎ ((e : Entry) × (get_elem? leads (next - 1) ≡ some e)
        × (get_elem? follows (next - 1) ≡ some e))

-- What a leader sends to a follower whose log agrees with its own before `next` is accepted, and the
-- follower then has the configuration changes that were sent.
pub sent_accepted :
    (env : Env) (p : Proxy) (s f : RaftServer)
    → 0 < p.next_index
    → p.next_index + 1 < 2 ^ 32
    → term_before p.next_index s.entries + 1 < 2 ^ 32
    → Stores env
    → f.logs ≡ []
    → f.current_term ≤ s.current_term
    → AgreesBefore p.next_index s.entries f.entries
    → (q : AppendEntriesQ) × (append_entries_message p s ≡ ok q)
      × (t : RaftServer) × (judge env q f ≡ ok (acceptance q, t))
      × (t.current_term ≡ s.current_term)
      × (t.entries ≡ f.entries ++ cfg_entries s.current_term (sent p.next_index s.entries))
sent_accepted env p s f h b small stores logs le agrees =
    let message = append_entries_message_lem p s h (omega arith) small in
    let (t, e, st) = judge_accepts env _ f stores logs (omega arith) small le (agreed agrees) in
    (_, message, t, e, st.term, st.entries)
  where
    agreed :
        AgreesBefore p.next_index s.entries f.entries
        → Matches
            (record {
              term = s.current_term;
              prelogindex = p.next_index - 1;
              prelogterm = term_before p.next_index s.entries;
              leadercommit = s.commit_index;
              entries = sent p.next_index s.entries;
            })
            f.entries
    agreed (inl one) = inl (ground arith)
    agreed (inr (e, leads, follows)) = inr (e, follows, ground arith)
