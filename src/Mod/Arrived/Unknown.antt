-- ===== src/Mod/Arrived/Unknown.antt =====
-- mod/Mod.cpp: messages that the tables have no place for.
use raft_server.Prelude.{arith, bad_index, fault, inl, inr, refl, ℕ, ℕ_discrete, ◌<◌, ◌≡◌, ◌≢◌, ◌⊎◌}
use raft_server.Env.{Env}
use raft_server.Mod.Api.{proc}
use raft_server.Mod.Arrived.{Arrived, handle_one, message_kind}
use raft_server.State.{Conn, RaftServer}

message_kind_unknown : (id : ℕ) → (id < 257) ⊎ (262 < id) → message_kind id ≡ fault bad_index
unfolding message_kind
message_kind_unknown id h = ground arith

-- A message of an id other than 257 to 261 ends in an access past the end of a table: the first table
-- knows 257 to 262, the table of the handlers has five rows.
pub handle_one_unknown :
    (env : Env) (fd : ℕ) (c : Conn) (m : Arrived) (s : RaftServer)
    → (m.id < 257) ⊎ (261 < m.id)
    → handle_one env fd c m s ≡ fault bad_index
unfolding handle_one message_kind proc
handle_one_unknown env fd c m s h = elim (ℕ_discrete m.id 262) [
  | yes e ↦ rw (e, handle_one) refl
  | no e ↦ ground (arith, message_kind_unknown m.id (outside h e))
]
  where
    outside : (m.id < 257) ⊎ (261 < m.id) → m.id ≢ 262 → (m.id < 257) ⊎ (262 < m.id)
    outside (inl low) other = inl low
    outside (inr high) other = inr (omega arith)
