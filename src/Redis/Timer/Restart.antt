-- ===== src/Redis/Timer/Restart.antt =====
-- timer/Timer.cpp against log/Logger.cpp: a crash while users expire.
use raft_server.Prelude.{
  Bytes, List, Option, [], ap, false, length, none, ok, pos, refl, some, true, ℤ, ◌++◌, ◌<◌, ◌∙◌,
  ◌∷◌, ◌≡◌,
}
use raft_server.Redis.Logger.{contains, done, restore, scan}
use raft_server.Redis.Timer.{
  RedisTimer, db_exec_type, expire_users, issue, print, redis_exec, redis_expire, redis_hgetall,
  redis_multi, redis_result_callback, user_prefix,
}
use raft_server.Redis.Logger.Expired.{AllNoSpace, each_and_space, expire_line, restore-expire_line}
use raft_server.Nanoraft.Log.{c_string}
use raft_server.Redis.Async.{Command, Replies, Reply, ReplyCallback}

-- the users of a range, as redis sends them
abbrev pub users : List Bytes → Replies
users [] = Replies.no_more
users (s ∷ ss) = Replies.more (Reply.text s) (users ss)

-- and as the timer asks for them
abbrev pub names : List Bytes → List Bytes
names [] = []
names (s ∷ ss) = (user_prefix ++ c_string s) ∷ names ss

issue-printed :
    (cb : Option ReplyCallback) (c : Command) (t : RedisTimer) → (issue cb c t).printed ≡ t.printed
unfolding issue
issue-printed cb c t = refl

expire_users-names :
    (ss : List Bytes) (t : RedisTimer)
    → (u : RedisTimer) × (expire_users (users ss) t ≡ ok (each_and_space (names ss), u))
      × (u.printed ≡ t.printed)
unfolding expire_users
expire_users-names [] t = (t, refl, refl)
expire_users-names (s ∷ ss) t =
    let name = user_prefix ++ c_string s in
    let (u, e, p) =
      expire_users-names ss (redis_expire name (pos 20) true (redis_hgetall name t)) in
    (u, rw e refl, p)

-- the reply to the transaction that takes a range of users out
abbrev pub taken_out : List Bytes → ℤ → Reply
taken_out ss n =
    Reply.array
      (Replies.more (Reply.array (users ss)) (Replies.more (Reply.integer n) Replies.no_more))

-- When the process stops between the reply that takes at most nine users out of redis and the one that
-- says that they are stored, and all that was begun before was done, a restart finds these users in
-- the log. Their names have no space and no line's end, and the line does not read as an end.
pub redis_result_callback-restore :
    (ss : List Bytes) (n : ℤ) (t : RedisTimer)
    → scan t.printed [] ≡ ok []
    → AllNoSpace (names ss)
    → length (names ss) < 10
    → contains done (expire_line (names ss)) ≡ false
    → (u : RedisTimer) × (redis_result_callback (some (taken_out ss n)) t ≡ ok u)
      × (restore u.printed ≡ ok (names ss))
unfolding redis_result_callback
redis_result_callback-restore ss n t closed words few begun =
    let (u, e, p) = expire_users-names ss (redis_multi t) in
    let v = redis_exec db_exec_type (print (expire_line (names ss)) u) in
    let printed : u.printed ≡ t.printed = p ∙ issue-printed none Command.multi t in
    let found = restore-expire_line t.printed (names ss) closed words few begun in
    (v, rw e refl, ap (λ l. restore (l ++ (expire_line (names ss) ∷ []))) printed ∙ found)
