-- ===== src/Mod/Arrived.antt =====
-- mod/Mod.cpp: the input buffer of a connection is cut into messages.
pub mod Frames
pub mod Loop
pub mod Unknown
use raft_server.Prelude.{
  Bytes, Option, Result, bad_index, drop, fault, if◌then◌else◌, leb, length, ltb, none, ok,
  or_fault, overflow, some, suc, take, zero, ℕ, ◌%◌, ◌&&◌, ◌*◌, ◌+◌, ◌-◌, ◌/◌, ◌==◌, ◌>>=◌, ◌^◌,
  ◌∷◌,
}
use raft_server.Net.Calls.{conn_disable_write, conn_enable_write}
use raft_server.Map.{find}
use raft_server.Protocol.{Kind}
use raft_server.Eventloop.Channel.{enable_write, disable_write}
use raft_server.Mod.Api.{proc}
use raft_server.Env.{Env}
use raft_server.State.{Conn, RaftServer, set_conn}

-- a message in the buffer, and the bytes behind it
pub record Arrived : Type 0 where
  pub id : ℕ
  pub body : Bytes
  pub rest : Bytes

-- `static_cast<int>(dwLen) + 6` is negative or overflows from 2^31 - 6 on; the buffer is then read and
-- moved out of its bounds.
abbrev pub length_limit : ℕ
length_limit = 2 ^ 31 - 6

-- behind the six bytes of a header
unfoldable pub cut_body : ℕ → ℕ → Bytes → Result (Option Arrived)
cut_body id len buf =
    if leb length_limit len
    then fault overflow
    else if ltb (length buf) len
    then ok none
    else ok (some (record { id = id; body = take len buf; rest = drop len buf }))

-- The first message of the buffer, or none where it is not complete.
unfoldable pub cut : Bytes → Result (Option Arrived)
unfolding cut_body
cut (a ∷ b ∷ c ∷ d ∷ e ∷ f ∷ buf) =
    cut_body (a + 256 * b) (c + 256 * d + 65536 * e + 16777216 * f) buf
cut _ = ok none

-- The table of `Mod::LoadMsg`: one row, ids 257 to 262. It is indexed by id / 256 - 1 and id % 256 - 1.
unfoldable pub kind_of : ℕ → Option Kind
kind_of zero = some Kind.handshake_q
kind_of (suc zero) = some Kind.handshake_r
kind_of (suc (suc zero)) = some Kind.appendentries_q
kind_of (suc (suc (suc zero))) = some Kind.appendentries_r
kind_of (suc (suc (suc (suc zero)))) = some Kind.requestvote_q
kind_of (suc (suc (suc (suc (suc zero))))) = some Kind.requestvote_r
kind_of (suc (suc (suc (suc (suc (suc i)))))) = none

unfoldable pub message_kind : ℕ → Result Kind
unfolding kind_of
message_kind id =
    if id / 256 == 1 && ltb 0 (id % 256)
    then or_fault (kind_of (id % 256 - 1)) bad_index
    else fault bad_index

-- the end of a round: the channel watches for writing while there is something to write
unfoldable pub watch_output : ℕ → RaftServer → RaftServer
unfolding enable_write disable_write
watch_output fd s = elim (find fd s.conns) [
  | none ↦ s
  | some c ↦
      let c' = if ltb 0 (length c.out_buffer) then conn_enable_write c else conn_disable_write c in
      set_conn fd c' s
]

-- a round on a complete message
unfoldable pub handle_one : Env → ℕ → Conn → Arrived → RaftServer → Result RaftServer
unfolding message_kind watch_output
handle_one env fd c m s = do
  kind ← message_kind m.id
  s' ←
      proc env fd (m.id % 256 - 1) (env.decode kind m.body)
        (set_conn fd (record c { in_buffer = m.rest }) s)
  ok (watch_output fd s')

-- A round of the loop; none where it returns.
unfoldable pub arrive_one : Env → ℕ → RaftServer → Result (Option RaftServer)
unfolding cut
arrive_one env fd s = elim (find fd s.conns) [
  | none ↦ ok none
  | some c ↦ cut c.in_buffer >>= λ r. elim r [
    | none ↦ ok none
    | some m ↦ handle_one env fd c m s >>= λ s'. ok (some s')
  ]
]

-- the loop, on fuel; a round takes six bytes at least
unfoldable pub arrive : Env → ℕ → ℕ → RaftServer → Result RaftServer
arrive env fd zero s = ok s
arrive env fd (suc n) s =
    arrive_one env fd s >>= λ r. elim r [ none ↦ ok s | some s' ↦ arrive env fd n s' ]

-- Mod::HandleArrivedMsg
unfoldable pub handle_arrived_msg : Env → ℕ → RaftServer → Result RaftServer
unfolding arrive
handle_arrived_msg env fd s = elim (find fd s.conns) [
  | none ↦ ok s
  | some c ↦ arrive env fd (suc (length c.in_buffer)) s
]
