-- ===== src/Redis/HoldBack.antt =====
-- eventloop/RedisChannel.h and .cpp: the messages of a subscription in the order of their numbers.
pub mod Order
pub mod Gapless
pub mod Hole
use raft_server.Prelude.{
  Bytes, Option, if◌then◌else◌, length, ltb, none, some, suc, u32, zero, ℕ, ◌+◌, ◌==◌,
}
use raft_server.Map.{Map, erase, find, insert}

-- eventloop::Msg
pub record Msg : Type 0 where
  pub openid : Bytes
  pub expire_time : ℕ
  pub msg_id : ℕ

-- `m_dwSeq_` and `m_stHoldBackQueue_`
pub record HoldBack : Type 0 where
  pub seq : ℕ
  pub queue : Map (Option Msg)

-- RedisChannel::HoldBackQueueMsgBy. `[]` puts a null pointer under a key that is not there.
abbrev msg_found : Option (Option Msg) → ℕ → HoldBack → Option Msg × HoldBack
msg_found none id h = (none, record h { queue = insert id none h.queue })
msg_found (some m) id h = (m, h)

unfoldable pub hold_back_queue_msg_by : ℕ → HoldBack → Option Msg × HoldBack
hold_back_queue_msg_by id h = msg_found (find id h.queue) id h

-- RedisChannel::AddToHoldBackQueue
abbrev pub add_to_hold_back_queue : ℕ → Msg → HoldBack → HoldBack
add_to_hold_back_queue id m h = record h { queue = insert id (some m) h.queue }

-- RedisChannel::HoldBackQueueEraseBy
abbrev pub hold_back_queue_erase_by : ℕ → HoldBack → HoldBack
hold_back_queue_erase_by id h = record h { queue = erase id h.queue }

-- A round of the loop over the queue: none where it breaks off. `iReady` is the number behind
-- `m_dwSeq_` in every round.
abbrev pub ready_round : Option Msg → ℕ → HoldBack → Option HoldBack
ready_round none ready h = none
ready_round (some m) ready h = some (record (hold_back_queue_erase_by ready h) { seq = ready })

-- the loop, on fuel; a round that does not break off takes an entry out
unfoldable pub catch_up : ℕ → HoldBack → HoldBack
unfolding hold_back_queue_msg_by
catch_up zero h = h
catch_up (suc n) h =
    if length h.queue == 0
    then h
    else let ready = u32 (h.seq + 1) in
      let looked = hold_back_queue_msg_by ready h in
      elim (ready_round looked.0 ready looked.1) [ none ↦ looked.1 | some h' ↦ catch_up n h' ]

-- A message that is ahead is held back, and one that is not is dropped.
unfoldable pub hold_or_drop : Msg → HoldBack → HoldBack
hold_or_drop m h = if ltb (u32 (h.seq + 1)) m.msg_id then add_to_hold_back_queue m.msg_id m h else h

-- What `RedisSubMsgCallback` does with a message that it has parsed.
unfoldable pub take_msg : Msg → HoldBack → HoldBack
unfolding catch_up hold_or_drop
take_msg m h =
    if u32 (h.seq + 1) == m.msg_id
    then (let h' = catch_up (suc (length h.queue)) (record h { seq = u32 (h.seq + 1) }) in
        if length h'.queue == 0 then h' else hold_or_drop m h')
    else hold_or_drop m h
