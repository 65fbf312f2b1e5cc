-- ===== src/Env.antt =====
-- What the program calls and does not implement: protobuf, leveldb, and what the memory behind a
-- buffer holds.
use raft_server.Prelude.{Bool, Bytes, List, [], false, if◌then◌else◌, true, ◌++◌, ◌∷◌}
use raft_server.Protocol.{Entry, Message, Kind}

-- A write that leveldb has accepted.
pub data Write : Type 0 where
  put : Bytes → Bytes → Write
  delete : Bytes → Write

-- A database is the writes that it has accepted, the first one first.
abbrev pub Db : Type 0
Db = List Write

-- `encode` is SerializeToArray, and its length ByteSize; `decode` is ParseFromArray, which leaves a
-- message also when it fails. `write_ok` is the status of the next write, `seek` and `scan` are what
-- an iterator goes through from a key and from the first key on, `scan_ok` its final status.
-- `memory_after` is what stands in memory behind a block of bytes.
pub record Env : Type 0 where
  pub encode : Message → Bytes
  pub decode : Kind → Bytes → Message
  pub encode_entry : Entry → Bytes
  pub decode_entry : Bytes → Entry
  pub write_ok : Db → Write → Bool
  pub seek : Db → Bytes → List (Bytes × Bytes)
  pub scan : Db → List (Bytes × Bytes)
  pub scan_ok : Db → Bool
  pub memory_after : Bytes → Bytes

-- A write as the program makes it: the status, and the database after it.
abbrev pub write : Env → Db → Write → Bool × Db
write env db w = if env.write_ok db w then (true, db ++ (w ∷ [])) else (false, db)
