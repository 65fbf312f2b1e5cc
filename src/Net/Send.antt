-- ===== src/Net/Send.antt =====
-- net/Conn.cpp and mod/Mod.cpp: how a message goes into the output buffer and to send(2).
pub mod Stream
pub mod Quiet
use raft_server.Prelude.{
  Bool, Bytes, List, Option, Result, [], dec64, drop, eq_ℤ, fault, if◌then◌else◌, le16, le32, leb,
  length, ltb, min, minus_one, none, ok, overflow, some, suc, take, to_uint32, u32, zero, ℕ, ◌++◌,
  ◌+◌, ◌==◌, ◌>>=◌, ◌∷◌,
}
use raft_server.Map.{Map, find}
use raft_server.Protocol.{Entry, Message, AppendEntriesQ}
use raft_server.Nanoraft.Proxy.{Proxy}
use raft_server.Nanoraft.Log.{last_entry_index, entry_term_by_index, entry_by_index}
use raft_server.Eventloop.Channel.{disable_write}
use raft_server.Env.{Env}
use raft_server.State.{Conn, Net, RaftServer, set_conn}

-- the size of both buffers of a connection
abbrev pub buffer_size : ℕ
buffer_size = 1440

-- message id, length and body, as they stand in a buffer
abbrev pub frame : ℕ → Bytes → Bytes
frame id body = le16 id ++ (le32 (length body) ++ body)

-- The two memcpy and SerializeToArray behind the output bytes, and SetOutBufferSize.
unfoldable pub put_frame : ℕ → Bytes → Bytes → Result Bytes
put_frame id body out =
    if ltb buffer_size (length out + 6 + length body)
    then fault overflow
    else ok (out ++ frame id body)

-- one call of send(2) on an fd, and its result; none is -1
unfoldable pub kernel_send : ℕ → Bytes → Net → Option ℕ × Net
kernel_send fd buf net = elim (net.sends net.calls) [
  | none ↦ (none, record net { calls = net.calls + 1 })
  | some k ↦
      let n = min k (length buf) in
      (some n, record net { calls = net.calls + 1; wire = net.wire ++ ((fd, take n buf) ∷ []) })
]

-- What is left is moved to the front.
abbrev pub drop_sent : Option ℕ → Bytes → Bytes
drop_sent none out = out
drop_sent (some n) out = drop n out

-- the part that `SendHandShakeQ`, `SendAppendEntries` and `HandlePreSendMsg` share
unfoldable pub post_on : Conn → ℕ → ℕ → Bytes → RaftServer → Result RaftServer
unfolding put_frame kernel_send
post_on c fd id body s = do
  out ← put_frame id body c.out_buffer
  let called = kernel_send c.fd out s.net
  ok (set_conn fd (record c { out_buffer = drop_sent called.0 out }) (record s { net = called.1 }))

-- Mod::HandlePreSendMsg
unfoldable pub handle_pre_send_msg : Env → ℕ → ℕ → Message → RaftServer → Result RaftServer
unfolding post_on
handle_pre_send_msg env fd id msg s = elim (find fd s.conns) [
  | none ↦ ok s
  | some c ↦ post_on c fd id (env.encode msg) s
]

-- Conn::SendHandShakeQ
unfoldable pub send_handshake_q : Env → Conn → ℕ → RaftServer → Result RaftServer
unfolding post_on
send_handshake_q env c fd s =
    post_on c fd 257
      (env.encode
        (Message.handshake_q (record { raftport = c.raft_port; httpport = 0; nodeid = c.node_id })))
      s

-- `lock` on the weak pointer of a connection to its proxy
unfoldable pub lock_proxy : Option ℕ → Map (Option Proxy) → Option Proxy
lock_proxy none m = none
lock_proxy (some id) m = elim (find id m) [ none ↦ none | some p ↦ p ]

-- the entries that `SendAppendEntries` adds to its message
unfoldable pub next_entries : ℕ → RaftServer → Result (List Entry)
unfolding entry_by_index
next_entries next s =
    if leb next (last_entry_index s)
    then (do
      first ← if dec64 next == 0 then (do e ← entry_by_index 0 s; ok (e ∷ [])) else ok []
      e ← entry_by_index (u32 next) s
      ok (first ++ (e ∷ [])))
    else ok []

-- the message that `SendAppendEntries` fills in for a proxy
unfoldable pub append_entries_message : Proxy → RaftServer → Result AppendEntriesQ
unfolding entry_term_by_index next_entries
append_entries_message p s = do
  result ← entry_term_by_index (u32 (dec64 p.next_index)) s
  entries ← next_entries p.next_index s
  ok (record {
    term = s.current_term;
    prelogindex = u32 (dec64 p.next_index);
    prelogterm = if eq_ℤ result minus_one then 0 else to_uint32 result;
    leadercommit = s.commit_index;
    entries = entries;
  })

-- Conn::SendAppendEntries. Neither flag changes what it does.
unfoldable pub send_append_entries : Env → Bool → Bool → ℕ → RaftServer → Result RaftServer
unfolding append_entries_message post_on lock_proxy
send_append_entries env is_heart is_cfg fd s = elim (find fd s.conns) [
  | none ↦ ok s
  | some c ↦ elim (lock_proxy c.proxy s.proxies) [
    | none ↦ ok s
    | some p ↦ do
      msg ← append_entries_message p s
      post_on c fd 259 (env.encode (Message.appendentries_q msg)) s
  ]
]

-- the end of `SendCallback` when something was sent
abbrev after_send : ℕ → Conn → Conn
after_send zero c = c
after_send (suc n) c =
    let left = drop (suc n) c.out_buffer in
    if length left == 0
    then record c { out_buffer = left; channel = disable_write c.channel }
    else record c { out_buffer = left }

abbrev pub after_send_result : Option ℕ → Conn → Conn
after_send_result none c = c
after_send_result (some n) c = after_send n c

-- Conn::SendCallback
unfoldable pub send_callback : ℕ → RaftServer → RaftServer
unfolding kernel_send disable_write
send_callback fd s = elim (find fd s.conns) [
  | none ↦ s
  | some c ↦
      if length c.out_buffer == 0
      then s
      else let called = kernel_send c.fd c.out_buffer s.net in
        set_conn fd (after_send_result called.0 c) (record s { net = called.1 })
]
