-- ===== src/Redis/Channel.antt =====
-- eventloop/RedisChannel.h and .cpp: the channel of a connection to redis.
use raft_server.Prelude.{
  Bool, Bytes, Option, Result, [], bad_index, false, if◌then◌else◌, none, ok, or_fault, some, true,
  ◌>>=◌, ◌||◌, ◌∷◌,
}
use raft_server.Redis.Async.{
  Async, Reply, async_command, auth, auth_callback, element, str_of, sub_msg_callback, subscribe,
}
use raft_server.Redis.HoldBack.{HoldBack, take_msg}
use raft_server.Eventloop.Channel.{
  Channel, disable_all, disable_read, disable_write, enable_read, enable_write, new_channel,
}
use raft_server.Redis.Message.{parse_msg}

-- `bound` is whether the read and write callbacks are set.
pub record RedisChannel : Type 0 where
  pub channel : Channel
  pub async : Async
  pub is_init : Bool
  pub is_sub : Bool
  pub bound : Bool
  pub hold_back : HoldBack

-- RedisChannel::RedisTodoAuth
unfoldable pub redis_todo_auth : RedisChannel → RedisChannel
unfolding async_command
redis_todo_auth r = record r { async = (async_command (some auth_callback) auth r.async).1 }

-- RedisChannel::RedisChannel, over what redisAsyncConnect returns; `taken` is whether its `ev.data` is
-- set already.
unfoldable pub new_redis_channel : Async → Bool → Bool → RedisChannel
unfolding redis_todo_auth
new_redis_channel async taken is_sub =
    let r : RedisChannel = record {
      channel = record (new_channel 0 true) { fd = async.fd };
      async = async;
      is_init = true;
      is_sub = is_sub;
      bound = false;
      hold_back = record { seq = 0; queue = [] };
    } in
    if async.err || taken
    then record r { is_init = false }
    else redis_todo_auth (record r { bound = true })

-- RedisAddRead, RedisDelRead, RedisAddWrite, RedisDelWrite and RedisCleanup
unfoldable pub redis_add_read : RedisChannel → RedisChannel
unfolding enable_read
redis_add_read r = record r { channel = enable_read r.channel }

unfoldable pub redis_del_read : RedisChannel → RedisChannel
unfolding disable_read
redis_del_read r = record r { channel = disable_read r.channel }

unfoldable pub redis_add_write : RedisChannel → RedisChannel
unfolding enable_write
redis_add_write r = record r { channel = enable_write r.channel }

unfoldable pub redis_del_write : RedisChannel → RedisChannel
unfolding disable_write
redis_del_write r = record r { channel = disable_write r.channel }

unfoldable pub redis_cleanup : RedisChannel → RedisChannel
unfolding disable_all
redis_cleanup r = record r { channel = disable_all r.channel }

-- "dabyang"
abbrev pub topic : Bytes
topic = 100 ∷ 97 ∷ 98 ∷ 121 ∷ 97 ∷ 110 ∷ 103 ∷ []

-- RedisChannel::RedisAuthCallback
unfoldable pub redis_auth_callback : Option Reply → RedisChannel → RedisChannel
unfolding async_command
redis_auth_callback none r = r
redis_auth_callback (some reply) r =
    if r.is_sub
    then record r { async = (async_command (some sub_msg_callback) (subscribe topic) r.async).1 }
    else r

-- the third element of a reply to a subscription
unfoldable pub sub_msg_text : Option Bytes → RedisChannel → Result RedisChannel
unfolding take_msg
sub_msg_text none r = ok r
sub_msg_text (some s) r = do m ← parse_msg s; ok (record r { hold_back = take_msg m r.hold_back })

-- RedisChannel::RedisSubMsgCallback
unfoldable pub redis_sub_msg_callback : Option Reply → RedisChannel → Result RedisChannel
unfolding sub_msg_text element
redis_sub_msg_callback (some (Reply.array elements)) r = do
  e ← or_fault (element elements 2) bad_index
  sub_msg_text (str_of e) r
redis_sub_msg_callback _ r = ok r
