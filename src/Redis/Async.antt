-- ===== src/Redis/Async.antt =====
-- What hiredis keeps of an asynchronous connection, as far as the program sees it.
use raft_server.Prelude.{
  Bool, Bytes, List, Option, [], if◌then◌else◌, none, some, suc, zero, ℕ, ℤ, ◌++◌, ◌+◌, ◌∷◌,
}

-- the commands that the program sends
pub data Command : Type 0 where
  auth multi exec : Command
  subscribe : Bytes → Command
  hgetall : Bytes → Command
  zcard : Bytes → Command
  zcount : Bytes → ℕ → Command
  zrange : Bytes → ℤ → ℤ → Command
  zremrangebyrank : Bytes → ℤ → ℤ → Command
  expire : Bytes → ℤ → Command

-- the functions that take the replies
pub data ReplyCallback : Type 0 where
  auth_callback sub_msg_callback : ReplyCallback
  zcard_callback hgetall_callback zcount_callback zrange_callback : ReplyCallback
  to_db_callback restore_to_db_callback result_callback : ReplyCallback

-- `accepts n` is whether the call number n of redisAsyncCommand returns REDIS_OK; `sent` is the
-- commands that were taken, the first one first.
pub record Async : Type 0 where
  pub fd : ℕ
  pub err : Bool
  pub accepts : ℕ → Bool
  pub calls : ℕ
  pub sent : List (Command × Option ReplyCallback)

-- redisAsyncCommand
unfoldable pub async_command : Option ReplyCallback → Command → Async → Bool × Async
async_command callback command a = (
  a.accepts a.calls,
  record a {
    calls = a.calls + 1;
    sent = if a.accepts a.calls then a.sent ++ ((command, callback) ∷ []) else a.sent;
  },
)

-- A reply. Only strings, states and errors have a `str`.
mutual
  pub data Reply : Type 0 where
    integer : ℤ → Reply
    text : Bytes → Reply
    nil : Reply
    array : Replies → Reply

  pub data Replies : Type 0 where
    no_more : Replies
    more : Reply → Replies → Replies

abbrev pub str_of : Reply → Option Bytes
str_of (text s) = some s
str_of _ = none

unfoldable pub element : Replies → ℕ → Option Reply
element no_more i = none
element (more r rs) zero = some r
element (more r rs) (suc i) = element rs i
