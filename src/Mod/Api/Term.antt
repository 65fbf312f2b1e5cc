-- ===== src/Mod/Api/Term.antt =====
-- mod/ModApi.hpp, `AppendEntriesQ`: the term of the message against the server's.
use raft_server.Prelude.{Bool, arith, ltb, max, not, ok, ◌<◌, ◌≡◌}
use raft_server.Protocol.{AppendEntriesQ}
use raft_server.Mod.Api.{check_term, judge, refused}
use raft_server.Env.{Env}
use raft_server.State.{RaftServer}

-- What step 1 of the handler leaves alone, and what it does to the term.
pub record TermChecked (q : AppendEntriesQ) (s : RaftServer) (go : Bool) (s' : RaftServer)
    : Type 0 where
  pub term : s'.current_term ≡ max s.current_term q.term
  pub go_on : go ≡ not (ltb q.term s.current_term)
  pub frame :
      s' ≡ record s { current_term = s'.current_term; state_db = s'.state_db; role = s'.role }

pub check_term-TermChecked :
    (env : Env) (q : AppendEntriesQ) (s : RaftServer) {go : Bool} {s' : RaftServer}
    → check_term env q s ≡ ok (go, s')
    → TermChecked q s go s'
unfolding check_term
check_term-TermChecked env q s h = ground arith

-- A message of an older term is refused, and the handler's steps leave the server as it was.
pub judge_stale :
    (env : Env) (q : AppendEntriesQ) (s : RaftServer)
    → q.term < s.current_term
    → judge env q s ≡ ok (refused, s)
unfolding judge
judge_stale env q s h = ground arith
