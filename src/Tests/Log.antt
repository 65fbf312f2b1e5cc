-- ===== src/Tests/Log.antt =====
-- Runs of the theorems on the log and the commit index.
use raft_server.Prelude.{
  [], arith, false, fault, if◌then◌else◌, inl, ok, refl, some, to_string, true, ℕ, ◌+◌, ◌<◌, ◌==◌,
  ◌>>=◌, ◌↔◌, ◌∷◌, ◌≡◌,
}
use raft_server.Nanoraft.Log.{stored}
use raft_server.Map.{find}
use raft_server.Mod.Api.{append_reply_on, judge, update_commit}
use raft_server.Nanoraft.Broadcast.{term_key}
use raft_server.State.{RaftServer}
use raft_server.Env.{put}
use raft_server.Mod.Api.Reply.{append_reply_on_counts, append_reply_on_newer, counted_up}
use raft_server.Mod.Api.Accept.{acceptance}
use raft_server.Nanoraft.Commit.Majority.{
  CanCommit, change_commit_index_complete, change_commit_index_sound,
}
use raft_server.Nanoraft.Commit.{change_commit_index}
use raft_server.Mod.Api.Redeliver.{judge_twice, update_commit_back}
use raft_server.Nanoraft.Proxy.{follower}
use raft_server.Tests.{
  added, append_two, conn_on, following, leading, proxy_on, state_of, test_env, test_env-Stores,
}
use raft_server.Protocol.{AppendEntriesQ, AppendEntriesR, Entry}

-- the server behind `append_two`
abbrev appended : RaftServer
appended = elim (judge test_env append_two following) [ ok r ↦ r.1 | fault e ↦ following ]

-- one entry behind entry 0, whose term is 1
abbrev append_next : AppendEntriesQ
append_next = record {
  term = 3;
  prelogindex = 0;
  prelogterm = 1;
  leadercommit = 2;
  entries = added 3 7 ∷ [];
}

judge_twice_example :
    (t : RaftServer) × (u : RaftServer) × (judge test_env append_two following
      ≡ ok (acceptance append_two, t))
    × (judge test_env append_two t ≡ ok (acceptance append_two, u))
    × (u.entries ≡ added 1 1 ∷ added 3 7 ∷ added 3 8 ∷ added 3 7 ∷ added 3 8 ∷ [])
unfolding raft_server.Mod.Api.Entries.cfg_entries
judge_twice_example =
    judge_twice test_env append_two following test_env-Stores refl (ground arith) (ground arith)
      (ground arith) (inl refl)

-- Node 7 holds entry 1, and node 8 does.
abbrev matched : RaftServer
matched = record leading {
  proxies =
      (7, some (record (proxy_on 7 1 5) { match_index = 1 }))
      ∷ (8, some (record (proxy_on 8 2 6) { match_index = 2 }))
      ∷ (9, some (proxy_on 9 3 8))
      ∷ [];
}

abbrev committed : RaftServer
committed = record matched { commit_index = 1 }

change_commit_index_sound_example :
    (committed ≡ record matched { commit_index = matched.commit_index + 1 })
    × (e : Entry) × CanCommit (matched.commit_index + 1) e matched
unfolding change_commit_index
change_commit_index_sound_example =
    change_commit_index_sound matched {t = committed} (ground arith) tt refl

change_commit_index_complete_example : change_commit_index matched ≡ ok (true, committed)
change_commit_index_complete_example =
    change_commit_index_complete (added 3 2) matched (ground arith) tt
      (record { majority = ground arith; stored = refl; current = refl })

-- the log of the same server is gone
abbrev short : RaftServer
short = record matched { entries = [] }

-- a message of term 1 that reaches less than what is committed
abbrev old_message : AppendEntriesQ
old_message = record append_two { term = 1; leadercommit = 9; entries = [] }

update_commit_back_example :
    ((update_commit old_message committed).commit_index < 1) ↔ ((1 < 9) × (0 + 0 < 1))
update_commit_back_example = update_commit_back old_message committed (ground arith)

abbrev newer_reply : AppendEntriesR
newer_reply = record { term = 4; success = false; isheartbeat = false }

abbrev stepped_down : RaftServer
stepped_down = state_of leading (append_reply_on test_env 5 newer_reply leading)

append_reply_on_newer_example :
    (stepped_down
      ≡ record leading { current_term = 4; role = follower; state_db = stepped_down.state_db })
    × (stepped_down.state_db ≡ put term_key (to_string 4) ∷ [])
unfolding append_reply_on
append_reply_on_newer_example =
    append_reply_on_newer test_env 5 newer_reply leading {t = stepped_down} (ground arith) refl

abbrev success : AppendEntriesR
success = record { term = 3; success = true; isheartbeat = false }

append_reply_on_counts_example :
    (u : RaftServer) × (append_reply_on test_env 5 success leading
      ≡ (change_commit_index u >>= λ done. ok done.1))
    × ((i : ℕ)
        → find i u.proxies ≡ (
            if i == 7
            then some (some (counted_up success (proxy_on 7 1 5)))
            else find i leading.proxies))
    × (u ≡ record leading { proxies = u.proxies })
unfolding find
append_reply_on_counts_example =
    append_reply_on_counts test_env 5 7 (record (conn_on 1 5) { proxy = some 7 }) (proxy_on 7 1 5)
      success leading (ground arith) refl refl refl
