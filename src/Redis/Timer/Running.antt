-- ===== src/Redis/Timer/Running.antt =====
-- timer/Timer.cpp: when `m_bIsRun_` is reset.
use raft_server.Prelude.{
  >>=-eq-ok, Bytes, Option, arith, none, null_pointer, ok, or_fault, refl, some, true, ℕ, ℤ, ◌<◌,
  ◌∙◌, ◌≡◌,
}
use raft_server.Redis.Timer.Restart.{users}
use raft_server.Redis.Timer.{
  RedisTimer, expire_users, issue, low_word, redis_multi, redis_result_callback,
  redis_to_db_callback, redis_zcount_callback, result_element, result_elements, server_timeout,
}
use raft_server.Redis.Async.{Replies, Reply, str_of}

expire_users-is_run :
    (rs : Replies) (t : RedisTimer) {done : Bytes × RedisTimer}
    → expire_users rs t ≡ ok done
    → done.1.is_run ≡ t.is_run
unfolding expire_users
expire_users-is_run Replies.no_more t h = ground arith
expire_users-is_run (Replies.more r rs) t h =
    let (s, p, h1) = >>=-eq-ok (or_fault (str_of r) null_pointer) _ h in
    let (later, q, h2) = >>=-eq-ok (expire_users rs _) _ h1 in
    let same = expire_users-is_run rs _ q in cc (h2, same)

result_element-is_run :
    (r : Reply) (t : RedisTimer) {u : RedisTimer} → result_element r t ≡ ok u → u.is_run ≡ t.is_run
unfolding result_element issue
result_element-is_run (Reply.array users) t h =
    let (done, p, h1) = >>=-eq-ok (expire_users users (redis_multi t)) _ h in
    let same = expire_users-is_run users (redis_multi t) p in ground (arith, h1, same)
result_element-is_run (Reply.integer n) t h = ground arith
result_element-is_run (Reply.text s) t h = ground arith
result_element-is_run Reply.nil t h = ground arith

result_elements-is_run :
    (rs : Replies) (t : RedisTimer) {u : RedisTimer}
    → result_elements rs t ≡ ok u
    → u.is_run ≡ t.is_run
unfolding result_elements
result_elements-is_run Replies.no_more t h = ground arith
result_elements-is_run (Replies.more r rs) t h =
    let (s, p, h1) = >>=-eq-ok (result_element r t) _ h in
    result_elements-is_run rs s h1 ∙ result_element-is_run r t p

redis_result_callback-is_run :
    (r : Option Reply) (t : RedisTimer) {u : RedisTimer}
    → redis_result_callback r t ≡ ok u
    → u.is_run ≡ t.is_run
unfolding redis_result_callback
redis_result_callback-is_run none t h = ground arith
redis_result_callback-is_run (some (Reply.array rs)) t h = result_elements-is_run rs t h
redis_result_callback-is_run (some (Reply.integer n)) t h = ground arith
redis_result_callback-is_run (some (Reply.text s)) t h = ground arith
redis_result_callback-is_run (some Reply.nil) t h = ground arith

redis_to_db_callback-is_run :
    (r : Option Reply) (t : RedisTimer) → (redis_to_db_callback r t).is_run ≡ t.is_run
unfolding redis_to_db_callback
redis_to_db_callback-is_run none t = refl
redis_to_db_callback-is_run (some (Reply.array rs)) t = refl
redis_to_db_callback-is_run (some (Reply.integer n)) t = refl
redis_to_db_callback-is_run (some (Reply.text s)) t = refl
redis_to_db_callback-is_run (some Reply.nil) t = refl

counted-is_run :
    (now : ℕ) (n : ℤ) (t : RedisTimer)
    → 0 < low_word n
    → (redis_zcount_callback (some (Reply.integer n)) (server_timeout true now t)).is_run ≡ true
unfolding redis_zcount_callback server_timeout issue
counted-is_run now n t above = ground arith

-- When a timeout finds users to expire, the timer still counts as running after all the replies of
-- that round, whatever they are.
pub redis_to_db_callback-round :
    (now : ℕ) (n : ℤ) (r r' : Option Reply) (t : RedisTimer) {u : RedisTimer}
    → 0 < low_word n
    → redis_result_callback r
        (redis_zcount_callback (some (Reply.integer n)) (server_timeout true now t))
      ≡ ok u
    → (redis_to_db_callback r' u).is_run ≡ true
redis_to_db_callback-round now n r r' t {u} above h =
    redis_to_db_callback-is_run r' u
    ∙ redis_result_callback-is_run r _ h
    ∙ counted-is_run now n t above
