-- ===== src/Tests/Restart.antt =====
-- A run of the reload of a log that was stored.
use raft_server.Prelude.{
  Bool, Bytes, List, [], ap, arith, false, length, ok, refl, some, to_string, true, ℕ, ◌++◌, ◌+◌,
  ◌<◌, ◌∙◌, ◌∷◌, ◌≡◌,
}
use raft_server.Eventloop.Poll.{Waited, conn_source, event_loop, happened, server_source, timed_out}
use raft_server.Nanoraft.Comparator.{int_max}
use raft_server.Net.Send.{frame}
use raft_server.Recovery.Events.{load_entries-event_loop}
use raft_server.Protocol.{Message}
use raft_server.Recovery.Proxies.{KnowsAdded}
use raft_server.Main.{new_server, restart, start}
use raft_server.Net.Connect.{accepted, failed}
use raft_server.Net.Events.{Event, conn_event, loop, received, recv_error, server_event}
use raft_server.Tests.{test_env, leading, state_of}
use raft_server.Env.{Db, Env, delete, put}
use raft_server.Recovery.{Ordered, numbered, reload_all}
use raft_server.State.{RaftServer}

-- a database that only takes writes
abbrev written : Db → List (Bytes × Bytes)
written [] = []
written (put key value ∷ db) = (key, value) ∷ written db
written (delete key ∷ db) = written db

abbrev scanning : Env
scanning = record test_env { scan = written; encode_entry = λ e. e.nodeid ∷ [] }

written-append :
    (db : Db) (key value : Bytes)
    → written (db ++ (put key value ∷ [])) ≡ written db ++ ((key, value) ∷ [])
written-append [] key value = refl
written-append (put k v ∷ db) key value = ap (λ l. (k, v) ∷ l) (written-append db key value)
written-append (delete k ∷ db) key value = written-append db key value

numbered-append :
    (i n : ℕ) (vs : List Bytes) (v : Bytes)
    → n ≡ i + length vs
    → numbered i vs ++ ((to_string n, v) ∷ []) ≡ numbered i (vs ++ (v ∷ []))
numbered-append i n [] v e =
    let same : n ≡ i = omega (arith, e) in ap (λ k. (to_string k, v) ∷ []) same
numbered-append i n (x ∷ vs) v e =
    ap (λ l. (to_string i, x) ∷ l) (numbered-append (i + 1) n vs v (omega (arith, e)))

scanning-Ordered : Ordered scanning
scanning-Ordered = record {
  empty = refl;
  behind = λ db vs v h b.
      written-append db (to_string (length vs)) v
      ∙ ap (λ l. l ++ ((to_string (length vs), v) ∷ [])) h
      ∙ numbered-append 0 (length vs) vs v (omega arith);
  past = λ db vs i h b c. refl;
  complete = λ db. refl;
}

-- every message that comes is the handshake of node 9
abbrev joining : Env
joining = record scanning {
  decode = λ k b. Message.handshake_q (record { raftport = 80; httpport = 0; nodeid = 9 });
}

joining-Ordered : Ordered joining
joining-Ordered = record {
  empty = refl;
  behind = scanning-Ordered.behind;
  past = λ db vs i h b c. refl;
  complete = λ db. refl;
}

abbrev begun : RaftServer
begun =
    state_of leading (start joining (49 ∷ []) 80 1 (some 3) (new_server [] [] 4 (λ n. some 400)))

-- A connection is accepted, and a node joins over it.
abbrev arrivals : List (Waited × Bool)
arrivals =
    (
      happened (
          record {
            source = server_source;
            mask = 1;
            answers = record {
              recv = recv_error;
              connect = failed;
              accepts = accepted 5 (50 ∷ []) ∷ [];
            };
          }
          ∷ []),
      false,
    )
    ∷ (timed_out, false)
    ∷ (
      happened (
          record {
            source = conn_source 0 5;
            mask = 1;
            answers = record {
              recv = received (frame 257 (7 ∷ []));
              connect = failed;
              accepts = [];
            };
          }
          ∷ []),
      true,
    )
    ∷ []

abbrev joined_by_9 : RaftServer
joined_by_9 = state_of leading (event_loop joining arrivals begun)

begun_runs : start joining (49 ∷ []) 80 1 (some 3) (new_server [] [] 4 (λ n. some 400)) ≡ ok begun
unfolding start new_server
begun_runs = refl

joined_by_9_runs : event_loop joining arrivals begun ≡ ok joined_by_9
unfolding start new_server event_loop raft_server.Eventloop.Poll.poll
    raft_server.Net.Events.handle_events raft_server.Net.Events.handle_event raft_server.Map.find
    raft_server.Net.Connect.tcp_accept raft_server.Map.insert raft_server.Net.Events.recv_callback
    raft_server.Mod.Arrived.handle_arrived_msg raft_server.Mod.Arrived.arrive_one
    raft_server.Mod.Arrived.handle_one raft_server.Mod.Api.proc raft_server.Mod.Api.handshake_q
    raft_server.Nanoraft.Peers.proxy_conn_fd raft_server.Nanoraft.Broadcast.broadcast_append_entries
    raft_server.Net.Server.tie raft_server.Nanoraft.Broadcast.broadcast_one
    raft_server.Nanoraft.Broadcast.proxy_send_append_entries
    raft_server.Net.Send.send_append_entries raft_server.Net.Send.handle_pre_send_msg
joined_by_9_runs = refl

length_joined : length joined_by_9.entries ≡ 2
unfolding start new_server event_loop raft_server.Eventloop.Poll.poll
    raft_server.Net.Events.handle_events raft_server.Net.Events.handle_event raft_server.Map.find
    raft_server.Net.Connect.tcp_accept raft_server.Map.insert raft_server.Net.Events.recv_callback
    raft_server.Mod.Arrived.handle_arrived_msg raft_server.Mod.Arrived.arrive_one
    raft_server.Mod.Arrived.handle_one raft_server.Mod.Api.proc raft_server.Mod.Api.handshake_q
    raft_server.Nanoraft.Peers.proxy_conn_fd raft_server.Nanoraft.Broadcast.broadcast_append_entries
    raft_server.Net.Server.tie raft_server.Nanoraft.Broadcast.broadcast_one
    raft_server.Nanoraft.Broadcast.proxy_send_append_entries
    raft_server.Net.Send.send_append_entries raft_server.Net.Send.handle_pre_send_msg
length_joined = refl

two_entries : length joined_by_9.entries < int_max
two_entries = omega (arith, length_joined)

load_entries-event_loop_example :
    (u : RaftServer) × (restart joining
        (new_server joined_by_9.state_db joined_by_9.entries_db 4 (λ n. some 400))
      ≡ ok u)
    × (u.entries ≡ reload_all joining joined_by_9.entries)
    × KnowsAdded u
load_entries-event_loop_example =
    load_entries-event_loop joining (49 ∷ []) 80 1 (some 3) [] 4 (λ n. some 400) arrivals
      {s = begun} {t = joined_by_9} joining-Ordered begun_runs joined_by_9_runs two_entries
