-- ===== src/Redis/HoldBack/Hole.antt =====
-- eventloop/RedisChannel.h and .cpp: the null pointers that `HoldBackQueueMsgBy` leaves in the queue.
use raft_server.Prelude.{none, some, ℕ, ◌+◌, ◌≡◌, ◌≤◌}
use raft_server.Map.{find, Map}
use raft_server.Redis.HoldBack.{HoldBack, hold_back_queue_erase_by}

-- At the next number or before it, the queue has an entry without a message.
abbrev pub HasHole : HoldBack → Type 0
HasHole h = (k : ℕ) × (k ≤ h.seq + 1) × (find k h.queue ≡ some none)

-- what a round that goes on leaves
abbrev next_round : HoldBack → ℕ → HoldBack
next_round h ready = record (hold_back_queue_erase_by ready h) { seq = ready }

-- a hole, and a bound on the number
record Holed (n : ℕ) (h : HoldBack) : Type 0 where
  hole : HasHole h
  small : h.seq ≤ n
