-- ===== src/Eventloop.antt =====
-- eventloop/: the channels and their registration with epoll.
pub mod Channel
pub mod Poll
