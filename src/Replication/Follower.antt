-- ===== src/Replication/Follower.antt =====
-- mod/ModApi.hpp, `AppendEntriesQ`, and mod/Mod.cpp: the round in which a follower handles one message.
use raft_server.Prelude.{
  Bytes, [], ap, append-nil, arith, length, ok, refl, some, suc, sym, ℕ, ◌++◌, ◌+◌, ◌≡◌, ◌≤◌,
}
use raft_server.Mod.Arrived.Frames.{cut-frame}
use raft_server.Mod.Api.Input.{in_of}
use raft_server.Mod.Arrived.{Arrived, arrive, cut, handle_one, message_kind, watch_output}
use raft_server.Mod.Arrived.Loop.{arrive_one-cut, conn_in_of, handle_one-in_of}
use raft_server.Mod.Api.{Verdict, append_entries_on, judge, update_commit, append_entries_q, proc}
use raft_server.Mod.Api.Follower.{judge-Judged}
use raft_server.Env.{Env}
use raft_server.Map.{find, find-insert}
use raft_server.Protocol.{AppendEntriesQ, AppendEntriesR, Kind, Message}
use raft_server.Net.Send.Stream.{post_on-frame}
use raft_server.State.{Conn, RaftServer, set_conn}
use raft_server.Net.Send.{
  buffer_size, frame, post_on, put_frame, drop_sent, handle_pre_send_msg, kernel_send,
}

-- protobuf gives back the message that was put in.
abbrev pub Decodes : Env → AppendEntriesQ → Type 0
Decodes env q =
    env.decode Kind.appendentries_q (env.encode (Message.appendentries_q q))
    ≡ Message.appendentries_q q

-- Any reply to such a message fits into what is left of an output buffer.
abbrev pub HasRoom : Env → Conn → Type 0
HasRoom env c =
    (r : AppendEntriesR)
    → length c.out_buffer + 6 + length (env.encode (Message.appendentries_r r)) ≤ buffer_size

-- a post for which there is room
post_on_ends :
    (c : Conn) (fd id : ℕ) (body : Bytes) (s : RaftServer)
    → length c.out_buffer + 6 + length body ≤ buffer_size
    → (t : RaftServer) × (post_on c fd id body s ≡ ok t)
unfolding post_on put_frame
post_on_ends c fd id body s room =
    let called = kernel_send c.fd (c.out_buffer ++ frame id body) s.net in
    let c' = record c { out_buffer = drop_sent called.0 (c.out_buffer ++ frame id body) } in
    (set_conn fd c' (record s { net = called.1 }), ground arith)

-- The log and the term are those of another server.
pub record SameLog (s t : RaftServer) : Type 0 where
  pub entries : t.entries ≡ s.entries
  pub term : t.current_term ≡ s.current_term

update_commit-SameLog :
    (q : AppendEntriesQ) (s : RaftServer)
    → SameLog s (update_commit q s) × ((update_commit q s).conns ≡ s.conns)
unfolding update_commit
update_commit-SameLog q s = (record { entries = ground arith; term = ground arith }, ground arith)

handle_pre_send_msg_ends :
    (env : Env) (fd id : ℕ) (msg : Message) (c : Conn) (s : RaftServer)
    → find fd s.conns ≡ some c
    → length c.out_buffer + 6 + length (env.encode msg) ≤ buffer_size
    → (t : RaftServer) × (handle_pre_send_msg env fd id msg s ≡ ok t) × SameLog s t
unfolding handle_pre_send_msg
handle_pre_send_msg_ends env fd id msg c s there room =
    let (t, e) = post_on_ends c fd id (env.encode msg) s room in
    let frame = post_on-frame c fd id (env.encode msg) s e in
    (
      t,
      ground arith,
      record { entries = ap (λ x. x.entries) frame; term = ap (λ x. x.current_term) frame },
    )

-- Where the judgement ends, and the reply fits, the handler ends with the log that was judged.
append_entries_on-SameLog :
    (env : Env) (fd : ℕ) (c : Conn) (q : AppendEntriesQ) (v : Verdict) (s t : RaftServer)
    → find fd s.conns ≡ some c
    → HasRoom env c
    → judge env q s ≡ ok (v, t)
    → (u : RaftServer) × (append_entries_on env fd q s ≡ ok u) × SameLog t u
unfolding append_entries_on
append_entries_on-SameLog env fd c q v s t there room judged =
    let (same, conns) = update_commit-SameLog q t in
    let reply : AppendEntriesR = record {
      term = (update_commit q t).current_term;
      success = v.success;
      isheartbeat = v.heartbeat;
    } in
    let (u, e, still) =
      handle_pre_send_msg_ends env fd 260 (Message.appendentries_r reply) c (update_commit q t)
        (ground (arith, (judge-Judged env q s judged).rest)) (room reply) in
    (
      u,
      rw judged e,
      record { entries = cc (still.entries, same.entries); term = cc (still.term, same.term) },
    )

watch_output-SameLog : (fd : ℕ) (s : RaftServer) → SameLog s (watch_output fd s)
unfolding watch_output
watch_output-SameLog fd s = record { entries = ground arith; term = ground arith }

-- the message that a frame is cut into
abbrev whole : Bytes → Arrived
whole body = record { id = 259; body = body; rest = [] }

-- a connection whose input is handled
abbrev pub emptied : ℕ → Conn → RaftServer → RaftServer
emptied fd c s = set_conn fd (record c { in_buffer = [] }) s

-- `Proc` on a message of this kind, over a connection that is there
proc-append_entries_on :
    (env : Env) (fd : ℕ) (c : Conn) (q : AppendEntriesQ) (s : RaftServer)
    → find fd s.conns ≡ some c
    → proc env fd 2 (Message.appendentries_q q) s ≡ append_entries_on env fd q s
unfolding proc append_entries_q
proc-append_entries_on env fd c q s there = rw (there, append_entries_q) refl

-- The round that hands the message to its handler.
handle_one-SameLog :
    (env : Env) (fd : ℕ) (c : Conn) (q : AppendEntriesQ) (v : Verdict) (s t : RaftServer)
    → Decodes env q
    → HasRoom env c
    → find fd s.conns ≡ some c
    → judge env q (emptied fd c s) ≡ ok (v, t)
    → (u : RaftServer) × (handle_one env fd c (whole (env.encode (Message.appendentries_q q))) s
        ≡ ok u)
      × SameLog t u
unfolding handle_one message_kind
handle_one-SameLog env fd c q v s t decodes room there judged =
    let c' = record c { in_buffer = [] } in
    let put_back : find fd (emptied fd c s).conns ≡ some c' =
      ground (arith, find-insert fd fd c' s.conns) in
    let (u, e, same) =
      append_entries_on-SameLog env fd c' q v (emptied fd c s) t put_back room judged in
    let watched = watch_output-SameLog fd u in
    (
      watch_output fd u,
      rw (decodes, proc-append_entries_on env fd c' q (emptied fd c s) put_back, e) refl,
      record { entries = cc (same.entries, watched.entries); term = cc (same.term, watched.term) },
    )

-- The loop returns where the input is handled.
arrive_stops :
    (env : Env) (fd n : ℕ) (s : RaftServer)
    → in_of fd s ≡ some (fd, [])
    → arrive env fd (suc n) s ≡ ok s
unfolding arrive cut
arrive_stops env fd n s empty =
    let (c, there, own, has) = conn_in_of fd s [] empty in
    rw (arrive_one-cut env fd c s there, has) refl

pub arrive-SameLog :
    (env : Env) (fd n : ℕ) (c : Conn) (q : AppendEntriesQ) (v : Verdict) (s t : RaftServer)
    → Decodes env q
    → HasRoom env c
    → find fd s.conns ≡ some c
    → c.fd ≡ fd
    → c.in_buffer ≡ frame 259 (env.encode (Message.appendentries_q q))
    → length (env.encode (Message.appendentries_q q)) ≤ buffer_size
    → judge env q (emptied fd c s) ≡ ok (v, t)
    → (u : RaftServer) × (arrive env fd (suc (suc n)) s ≡ ok u) × SameLog t u
unfolding arrive
arrive-SameLog env fd n c q v s t decodes room there own has short judged =
    let body = env.encode (Message.appendentries_q q) in
    let (u, e, same) = handle_one-SameLog env fd c q v s t decodes room there judged in
    let cut_off =
      cut-frame 259 body [] (record { id_fits = ground arith; body_fits = ground arith }) in
    let left = handle_one-in_of env fd c (whole body) s there own e in
    let first : cut c.in_buffer ≡ ok (some (whole body)) =
      rw (has, sym (append-nil (frame 259 body))) cut_off in
    (u, rw (arrive_one-cut env fd c s there, first, e) (arrive_stops env fd n u left), same)
