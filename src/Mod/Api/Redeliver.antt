-- ===== src/Mod/Api/Redeliver.antt =====
-- mod/ModApi.hpp, `AppendEntriesQ`: the same message again, and messages of an older term.
use raft_server.Prelude.{
  List, Result, [], append_assoc, arith, dec_lt, get_elem?, get_elem?-append_left,
  get_elem?-none_of_ge, inl, inr, length, ok, some, subst, sym, ℕ, ◌++◌, ◌+◌, ◌<◌, ◌^◌, ◌↔◌, ◌∙◌,
  ◌≡◌, ◌≤◌,
}
use raft_server.Env.{Env}
use raft_server.State.{RaftServer}
use raft_server.Mod.Api.Accept.{acceptance, judge_accepts}
use raft_server.Mod.Api.Follower.{Matches}
use raft_server.Net.Send.{handle_pre_send_msg}
use raft_server.Main.{start}
use raft_server.Mod.Api.{Verdict, judge, update_commit}
use raft_server.Mod.Api.Entries.{Stores, cfg_entries}
use raft_server.Protocol.{AppendEntriesQ, Entry, Message}

get_elem?-append :
    (es more : List Entry) (i : ℕ) (e : Entry)
    → get_elem? es i ≡ some e
    → get_elem? (es ++ more) i ≡ some e
get_elem?-append es more i e h = elim (dec_lt i (length es)) [
  | yes p ↦ get_elem?-append_left es more i p ∙ h
  | no p ↦ absurd (ground (arith, get_elem?-none_of_ge es i (omega arith)))
]

Matches-append : (q : AppendEntriesQ) (es more : List Entry) → Matches q es → Matches q (es ++ more)
Matches-append q es more (inl start) = inl start
Matches-append q es more (inr (e, there, same)) =
    inr (e, get_elem?-append es more q.prelogindex e there, same)

-- A message that is accepted and comes a second time is accepted a second time, and its configuration
-- changes are then in the log twice.
pub judge_twice :
    (env : Env) (q : AppendEntriesQ) (s : RaftServer)
    → Stores env
    → s.logs ≡ []
    → q.prelogindex + 2 < 2 ^ 32
    → q.prelogterm + 1 < 2 ^ 32
    → s.current_term ≤ q.term
    → Matches q s.entries
    → (t : RaftServer) × (u : RaftServer) × (judge env q s ≡ ok (acceptance q, t))
      × (judge env q t ≡ ok (acceptance q, u))
      × (u.entries ≡ s.entries ++ (cfg_entries q.term q.entries ++ cfg_entries q.term q.entries))
judge_twice env q s stores logs b c le match =
    let (t, p, first) = judge_accepts env q s stores logs b c le match in
    let still = Matches-append q s.entries (cfg_entries q.term q.entries) match in
    let (u, p2, second) =
      judge_accepts env q t stores first.logs b c (ground (arith, first.term))
        (subst (Matches q) (sym first.entries) still) in
    (
      t,
      u,
      p,
      p2,
      cc (
        first.entries,
        second.entries,
        append_assoc s.entries (cfg_entries q.term q.entries) (cfg_entries q.term q.entries),
      ),
    )

-- the answer of `AppendEntriesQ`
abbrev pub answer : Env → ℕ → Verdict → RaftServer → Result RaftServer
answer env fd v s =
    handle_pre_send_msg env fd 260
      (Message.appendentries_r
        (record { term = s.current_term; success = v.success; isheartbeat = v.heartbeat }))
      s

-- The commit index goes back exactly where the message's leader is ahead of it, and what the message
-- reaches is behind it.
pub update_commit_back :
    (q : AppendEntriesQ) (s : RaftServer)
    → q.prelogindex + length q.entries < 2 ^ 32
    → ((update_commit q s).commit_index < s.commit_index)
      ↔ ((s.commit_index < q.leadercommit) × (q.prelogindex + length q.entries < s.commit_index))
unfolding update_commit
update_commit_back q s b = (λ h. (ground arith, ground arith), λ h. ground arith)
