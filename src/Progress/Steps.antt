-- ===== src/Progress/Steps.antt =====
-- eventloop/EventLoop.cpp: every event makes progress.
use raft_server.Prelude.{List, arith, ok, ◌≡◌}
use raft_server.Mod.Api.Kept.{Operations-Kept}
use raft_server.Env.{Env}
use raft_server.Progress.Handlers.{Progress-Operations}
use raft_server.Nanoraft.Broadcast.{become_candidate}
use raft_server.Net.Events.{Event, loop}
use raft_server.Net.Events.Elections.{loop_keeps}
use raft_server.State.{RaftServer}
use raft_server.Progress.{Progress, Progress-frame}

become_candidate-Progress : (s : RaftServer) → Progress s (become_candidate s)
unfolding become_candidate
become_candidate-Progress s = Progress-frame (ground arith)

-- Whatever events the loop handles, in whatever order, they take nothing back: the log only grows at
-- its end, `m_stLogs_` is never filled, no entry is applied, no vote is given, and a server that is
-- no candidate never becomes one.
pub loop-Progress :
    (env : Env) (polls : List (List Event)) (s : RaftServer) {t : RaftServer}
    → loop env polls s ≡ ok t
    → Progress s t
loop-Progress env polls s h =
    loop_keeps (λ env. Progress) (Operations-Kept (λ env. Progress) Progress-Operations)
      (λ env. become_candidate-Progress) env polls s h
