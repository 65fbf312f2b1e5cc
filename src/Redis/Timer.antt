-- ===== src/Redis/Timer.antt =====
-- timer/Timer.h and Timer.cpp: the timer that takes expired users out of redis.
pub mod Restart
pub mod Running
use raft_server.Prelude.{
  Bool, Bytes, List, Option, Result, [], false, if◌then◌else◌, ltb, negsuc, none, null_pointer, ok,
  or_fault, pos, some, true, u32, u64, ℕ, ℤ, ◌++◌, ◌+◌, ◌-◌, ◌>>=◌, ◌^◌, ◌∷◌,
}
use raft_server.Nanoraft.Log.{c_string}
use raft_server.Eventloop.Channel.{Channel, disable_write, enable_read, new_channel}
use raft_server.Redis.Async.{
  Command, Replies, Reply, ReplyCallback, async_command, exec, expire, hgetall, hgetall_callback,
  multi, restore_to_db_callback, result_callback, str_of, to_db_callback, zcard, zcard_callback,
  zcount, zcount_callback, zrange, zrange_callback, zremrangebyrank,
}
use raft_server.Redis.Channel.{RedisChannel}
use raft_server.Redis.Logger.{done, pre, pre_expire, restore}

-- `printed` is the lines `pre:…` and `done:…` that the timer prints, which a restart reads as the log;
-- `expired` is the static queue, and `removed` the names that the owner's `RemoveTimer` is given.
pub record RedisTimer : Type 0 where
  pub is_run : Bool
  pub openid : Bytes
  pub is_init : Bool
  pub fd : ℕ
  pub channel : Channel
  pub bound : Bool
  pub redis : RedisChannel
  pub is_user : Bool
  pub settime : List (ℕ × ℕ)
  pub expired : List Bytes
  pub removed : List Bytes
  pub printed : List Bytes

-- one call of redisAsyncCommand; a failure is only printed
unfoldable pub issue : Option ReplyCallback → Command → RedisTimer → RedisTimer
unfolding async_command
issue callback command t = record t {
  redis = record t.redis { async = (async_command callback command t.redis.async).1 };
}

-- REDIS, DB, RSTOREDB
pub data ExecType : Type 0 where
  redis_exec_type db_exec_type restore_exec_type : ExecType

abbrev pub redis_hgetall : Bytes → RedisTimer → RedisTimer
redis_hgetall key = issue (some hgetall_callback) (hgetall key)

abbrev pub redis_zcard : Bytes → RedisTimer → RedisTimer
redis_zcard key = issue (some zcard_callback) (zcard key)

abbrev pub redis_zcount : Bytes → ℕ → RedisTimer → RedisTimer
redis_zcount key least = issue (some zcount_callback) (zcount key least)

abbrev pub redis_multi : RedisTimer → RedisTimer
redis_multi = issue none multi

abbrev pub exec_callback : ExecType → ReplyCallback
exec_callback db_exec_type = to_db_callback
exec_callback redis_exec_type = result_callback
exec_callback restore_exec_type = restore_to_db_callback

abbrev pub redis_exec : ExecType → RedisTimer → RedisTimer
redis_exec type = issue (some (exec_callback type)) exec

abbrev pub redis_zrange : Bytes → ℤ → ℤ → Bool → RedisTimer → RedisTimer
redis_zrange key start stop in_tran =
    issue (if in_tran then none else some zrange_callback) (zrange key start stop)

-- Outside of a transaction these two do nothing.
abbrev pub redis_zremrangebyrank : Bytes → ℤ → ℤ → Bool → RedisTimer → RedisTimer
redis_zremrangebyrank key start stop in_tran t =
    if in_tran then issue none (zremrangebyrank key start stop) t else t

abbrev pub redis_expire : Bytes → ℤ → Bool → RedisTimer → RedisTimer
redis_expire key seconds in_tran t = if in_tran then issue none (expire key seconds) t else t

-- the loop of the constructor over what the log leaves to do
unfoldable pub ask_again : List Bytes → RedisTimer → RedisTimer
unfolding issue
ask_again [] t = t
ask_again (openid ∷ openids) t = ask_again openids (redis_hgetall openid t)

unfoldable pub recover : List Bytes → RedisTimer → Result RedisTimer
unfolding ask_again
recover log t = do
  openids ← restore log
  ok (redis_exec restore_exec_type (ask_again openids (redis_multi t)))

-- Timer::Timer, and `Init`. `fd` is what timerfd_create gives, `set` whether timerfd_settime succeeds,
-- and `log` the lines of the log.
unfoldable pub new_redis_timer :
    Option ℕ → Bool → ℕ → Bytes → Bool → RedisChannel → List Bytes → Result RedisTimer
unfolding recover enable_read disable_write
new_redis_timer fd set expire_time openid is_user redis log =
    let blank : RedisTimer = record {
      is_run = false;
      openid = openid;
      is_init = true;
      fd = 0;
      channel = new_channel 0 false;
      bound = false;
      redis = redis;
      is_user = is_user;
      settime = [];
      expired = [];
      removed = [];
      printed = [];
    } in
    elim fd [
      | none ↦ ok (record blank { is_init = false })
      | some n ↦
          let t = record blank {
            fd = n;
            channel = record (new_channel n false) { tied = true };
            settime = (expire_time, if is_user then 0 else expire_time) ∷ [];
          } in
          let armed = record t { bound = true; channel = enable_read (disable_write t.channel) } in
          if set then (if is_user then ok armed else recover log armed) else ok t
    ]

-- Timer::ClientTimeoutCallback. `there` is whether the server that owns the timer is still there, and
-- `left` what its `RemoveTimer` leaves of the name that is moved into it.
unfoldable pub client_timeout : Bool → Bytes → RedisTimer → RedisTimer
client_timeout there left t =
    if there
    then record t {
      expired = t.expired ++ (t.openid ∷ []);
      removed = t.removed ++ (t.openid ∷ []);
      openid = left;
    }
    else t

-- "testkey"
abbrev pub test_key : Bytes
test_key = 116 ∷ 101 ∷ 115 ∷ 116 ∷ 107 ∷ 101 ∷ 121 ∷ []

-- Timer::ServerTimeoutCallback at a time in seconds
unfoldable pub server_timeout : Bool → ℕ → RedisTimer → RedisTimer
unfolding issue
server_timeout there now t =
    if there
    then redis_zcount test_key (u64 (now + 2 ^ 64 - 30)) (record t { is_run = true })
    else t

-- `static_cast<uint32_t>` of a `long long`
abbrev pub low_word : ℤ → ℕ
low_word (pos n) = u32 n
low_word (negsuc n) = u32 (2 ^ 32 - 1 - u32 n)

-- Timer::RedisZCOUNTCallback
unfoldable pub redis_zcount_callback : Option Reply → RedisTimer → RedisTimer
unfolding issue
redis_zcount_callback (some (Reply.integer n)) t =
    if ltb 0 (low_word n)
    then redis_exec redis_exec_type (
        redis_zremrangebyrank test_key (pos 0) (pos 5) true
          (redis_zrange test_key (pos 0) (pos 5) true (redis_multi t)))
    else record t { is_run = false }
redis_zcount_callback _ t = t

-- Timer::RedisZRANGECallback
unfoldable pub redis_zrange_callback : Option Reply → RedisTimer → RedisTimer
redis_zrange_callback none t = record t { is_run = false }
redis_zrange_callback (some (Reply.array rs)) t = record t { is_run = false }
redis_zrange_callback (some _) t = t

abbrev pub print : Bytes → RedisTimer → RedisTimer
print line t = record t { printed = t.printed ++ (line ∷ []) }

-- "EXPIRE", "sync"
abbrev pub expire_word : Bytes
expire_word = 69 ∷ 88 ∷ 80 ∷ 73 ∷ 82 ∷ 69 ∷ []

abbrev pub sync_word : Bytes
sync_word = 115 ∷ 121 ∷ 110 ∷ 99 ∷ []

abbrev pub print_sync : RedisTimer → RedisTimer
print_sync t = print (done ++ sync_word) (print (pre ++ sync_word) t)

-- Timer::RedisToDBCallback
unfoldable pub redis_to_db_callback : Option Reply → RedisTimer → RedisTimer
redis_to_db_callback none t = t
redis_to_db_callback (some (Reply.array rs)) t = print_sync (print (done ++ expire_word) t)
redis_to_db_callback (some _) t = print (done ++ expire_word) t

-- Timer::RedisRestoreToDBCallback
unfoldable pub redis_restore_to_db_callback : Option Reply → RedisTimer → RedisTimer
redis_restore_to_db_callback (some (Reply.array rs)) t = print_sync t
redis_restore_to_db_callback _ t = t

-- "hloginuser:"
abbrev pub user_prefix : Bytes
user_prefix = 104 ∷ 108 ∷ 111 ∷ 103 ∷ 105 ∷ 110 ∷ 117 ∷ 115 ∷ 101 ∷ 114 ∷ 58 ∷ []

-- The loop of `RedisResultCallback` over the names of a range: the timer, and the names with a space
-- behind each. A `std::string` is not made of a null pointer.
unfoldable pub expire_users : Replies → RedisTimer → Result (Bytes × RedisTimer)
unfolding issue
expire_users Replies.no_more t = ok ([], t)
expire_users (Replies.more r rs) t = do
  s ← or_fault (str_of r) null_pointer
  let openid = user_prefix ++ c_string s
  done ← expire_users rs (redis_expire openid (pos 20) true (redis_hgetall openid t))
  ok (openid ++ (32 ∷ done.0), done.1)

-- one element of the transaction's reply
unfoldable pub result_element : Reply → RedisTimer → Result RedisTimer
unfolding expire_users
result_element (Reply.array users) t = do
  done ← expire_users users (redis_multi t)
  ok (redis_exec db_exec_type (print (pre_expire ++ (32 ∷ done.0)) done.1))
result_element r t = ok t

unfoldable pub result_elements : Replies → RedisTimer → Result RedisTimer
unfolding result_element
result_elements Replies.no_more t = ok t
result_elements (Replies.more r rs) t = result_element r t >>= result_elements rs

-- Timer::RedisResultCallback
unfoldable pub redis_result_callback : Option Reply → RedisTimer → Result RedisTimer
unfolding result_elements
redis_result_callback (some (Reply.array rs)) t = result_elements rs t
redis_result_callback _ t = ok t
