-- ===== src/Redis.antt =====
-- timer/, eventloop/RedisChannel.cpp and log/Logger.cpp: the timer that moves expired users out of
-- redis, the channel that it talks through, and the log that a restart reads.
pub mod Async
pub mod HoldBack
pub mod Message
pub mod Channel
pub mod Logger
pub mod Timer
