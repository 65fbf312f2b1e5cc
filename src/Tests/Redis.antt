-- ===== src/Tests/Redis.antt =====
-- Runs of the theorems on what is stored, and on the messages and users from redis.
use raft_server.Prelude.{
  Bytes, List, Result, [], arith, false, fault, minus_one, none, ok, pos, refl, some, to_string,
  true, ℕ, ◌++◌, ◌∷◌, ◌≡◌,
}
use raft_server.Map.{find}
use raft_server.Redis.Timer.Running.{redis_to_db_callback-round}
use raft_server.Protocol.{Message}
use raft_server.Net.Send.{frame}
use raft_server.Nanoraft.Comparator.Order.{compare_keys-to_string}
use raft_server.Net.Connect.{failed}
use raft_server.Nanoraft.Broadcast.{term_key}
use raft_server.Redis.Async.{Async, Replies, Reply}
use raft_server.Redis.Timer.Restart.{names, redis_result_callback-restore, taken_out}
use raft_server.Redis.HoldBack.Gapless.{
  IsGapless, fresh, numbers, take_all_msgs, take_all_msgs-IsGapless,
}
use raft_server.Nanoraft.Comparator.{compare_keys}
use raft_server.Redis.Message.{parse_msg}
use raft_server.Redis.HoldBack.Order.{AllSmall}
use raft_server.Redis.Message.Fields.{parse_msg-message}
use raft_server.Eventloop.Channel.{new_channel}
use raft_server.Tests.{leading, state_of, test_env, append_two}
use raft_server.State.{RaftServer}
use raft_server.Redis.HoldBack.{Msg, HoldBack}
use raft_server.Redis.Logger.Expired.{AllNoSpace}
use raft_server.Net.Events.{Answers, Revents, handle_conn_event, received}
use raft_server.Durable.{Durable, handle_conn_event-Durable}
use raft_server.Redis.Logger.{done, pre, restore}
use raft_server.Redis.Timer.{
  RedisTimer, redis_result_callback, sync_word, redis_to_db_callback, redis_zcount_callback,
  server_timeout,
}
use raft_server.Env.{put, Env}

compare_keys-to_string_example : compare_keys (to_string 9) (to_string 10) ≡ minus_one
compare_keys-to_string_example = compare_keys-to_string 9 10

-- a server that has stored its term
abbrev stored_term : RaftServer
stored_term = record leading { state_db = put term_key (to_string 3) ∷ [] }

abbrev readable : Revents
readable = record { hup = false; err = false; readable = true; writable = false }

-- every message that comes is one of a later term
abbrev later_env : Env
later_env = record test_env {
  decode = λ k b. Message.appendentries_q (record append_two { term = 9 });
}

abbrev later : Answers
later = record { recv = received (frame 259 (9 ∷ [])); connect = failed; accepts = [] }

abbrev handled : RaftServer
handled = state_of leading (handle_conn_event later_env later readable 1 5 stored_term)

handle_conn_event-Durable_example : Durable stored_term handled
unfolding handle_conn_event raft_server.Map.find raft_server.Net.Events.recv_callback
    raft_server.Mod.Arrived.handle_arrived_msg raft_server.Map.insert
    raft_server.Mod.Arrived.arrive_one raft_server.Mod.Arrived.handle_one raft_server.Mod.Api.proc
    raft_server.Mod.Api.append_entries_q raft_server.Nanoraft.Log.log_term_by_index
    raft_server.Net.Send.handle_pre_send_msg raft_server.Mod.Api.append_one
    raft_server.Nanoraft.Log.append_cfg_log
handle_conn_event-Durable_example =
    handle_conn_event-Durable later_env later readable 1 5 stored_term refl

abbrev numbered : ℕ → Msg
numbered n = record { openid = 117 ∷ []; expire_time = 9; msg_id = n }

-- message 1 comes last, and message 5 has no predecessor
abbrev out_of_order : List Msg
out_of_order = numbered 3 ∷ numbered 2 ∷ numbered 5 ∷ numbered 1 ∷ []

out_of_order-AllSmall : AllSmall (numbers out_of_order)
out_of_order-AllSmall i e = ground arith

take_all_msgs-IsGapless_example :
    IsGapless (3 ∷ 2 ∷ 5 ∷ 1 ∷ []) (take_all_msgs out_of_order fresh).seq
take_all_msgs-IsGapless_example = take_all_msgs-IsGapless out_of_order out_of_order-AllSmall

-- "12_ab_30"
parse_msg-message_example :
    parse_msg (49 ∷ 50 ∷ 95 ∷ 97 ∷ 98 ∷ 95 ∷ 51 ∷ 48 ∷ [])
    ≡ ok (record { openid = 97 ∷ 98 ∷ []; expire_time = 30; msg_id = 12 })
unfolding raft_server.Redis.Message.atoi_uint32 raft_server.Nanoraft.Comparator.skip_space
    raft_server.Nanoraft.Comparator.read_digits
parse_msg-message_example =
    parse_msg-message 49 (50 ∷ []) (97 ∷ 98 ∷ []) (51 ∷ 48 ∷ []) (ground arith) (ground arith)
      (ground arith) (ground arith) (ground arith) (ground arith)

-- a log of work that was done
abbrev earlier : List Bytes
earlier = (pre ++ sync_word) ∷ (done ++ sync_word) ∷ []

abbrev redis_conn : Async
redis_conn = record { fd = 8; err = false; accepts = λ n. true; calls = 0; sent = [] }

abbrev idle : RedisTimer
idle = record {
  is_run = true;
  openid = [];
  is_init = true;
  fd = 7;
  channel = new_channel 7 false;
  bound = true;
  redis = record {
    channel = new_channel 8 true;
    async = redis_conn;
    is_init = true;
    is_sub = false;
    bound = true;
    hold_back = fresh;
  };
  is_user = false;
  settime = [];
  expired = [];
  removed = [];
  printed = earlier;
}

one_user-AllNoSpace : AllNoSpace (names ((97 ∷ []) ∷ []))
unfolding raft_server.Nanoraft.Log.c_string
one_user-AllNoSpace = ground arith

redis_result_callback-restore_example :
    (u : RedisTimer) × (redis_result_callback (some (taken_out ((97 ∷ []) ∷ []) (pos 1))) idle
      ≡ ok u)
    × (restore u.printed ≡ ok (names ((97 ∷ []) ∷ [])))
unfolding raft_server.Redis.Logger.scan raft_server.Nanoraft.Log.c_string
redis_result_callback-restore_example =
    redis_result_callback-restore ((97 ∷ []) ∷ []) (pos 1) idle refl one_user-AllNoSpace
      (ground arith) refl

abbrev counted : RedisTimer
counted = redis_zcount_callback (some (Reply.integer (pos 1))) (server_timeout true 100 idle)

abbrev timer_of : RedisTimer → Result RedisTimer → RedisTimer
timer_of t (ok u) = u
timer_of t (fault e) = t

abbrev expiring : RedisTimer
expiring =
    timer_of counted (redis_result_callback (some (taken_out ((97 ∷ []) ∷ []) (pos 1))) counted)

redis_to_db_callback-round_example :
    (redis_to_db_callback (some (Reply.array Replies.no_more)) expiring).is_run ≡ true
unfolding redis_result_callback
redis_to_db_callback-round_example =
    redis_to_db_callback-round 100 (pos 1) (some (taken_out ((97 ∷ []) ∷ []) (pos 1)))
      (some (Reply.array Replies.no_more)) idle {u = expiring} (ground arith) refl

-- Message 5 waits, and message 2 has been looked for.
abbrev with_hole : HoldBack
with_hole = record { seq = 1; queue = (2, none) ∷ (5, some (numbered 5)) ∷ [] }
