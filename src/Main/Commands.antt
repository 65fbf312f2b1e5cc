-- ===== src/Main/Commands.antt =====
-- main.cpp: the arguments of the program, and what it prints when it has crashed.
use raft_server.Prelude.{
  Bool, Bytes, List, Option, Result, [], bad_index, false, fault, if◌then◌else◌, min, none,
  null_pointer, ok, some, suc, true, u32, zero, ℕ, ◌&&◌, ◌++◌, ◌-◌, ◌==◌, ◌>>=◌, ◌^◌, ◌||◌, ◌∷◌,
}
use raft_server.State.{RaftServer}
use raft_server.Net.Connect.{Connect, connect_to_peer}
use raft_server.Nanoraft.Comparator.{read_digits, skip_space}
use raft_server.Main.{join, restart, start}
use raft_server.Env.{Env}
use raft_server.Exception.{new_exception, stack_trace}
use raft_server.Nanoraft.Peers.{load_entries}

-- strtol of digits stops at the largest `long`, or at the smallest one behind a sign.
abbrev pub long_digits : ℕ → Bytes → ℕ
long_digits largest s = min (read_digits 0 s) largest

-- the 32 bits of the `int` that atoi gives
unfoldable pub atoi : Bytes → ℕ
unfolding read_digits skip_space
atoi s = behind_space (skip_space s)
  where
    behind_space : Bytes → ℕ
    behind_space [] = 0
    behind_space (c ∷ cs) =
        if c == 45
        then u32 (2 ^ 64 - long_digits (2 ^ 63) cs)
        else if c == 43
        then u32 (long_digits (2 ^ 63 - 1) cs)
        else u32 (long_digits (2 ^ 63 - 1) (c ∷ cs))

-- -1
abbrev pub unset : ℕ
unset = 2 ^ 32 - 1

-- `argv[i]`: behind the last argument there is a null pointer, and nothing behind that one
unfoldable pub argument : List Bytes → ℕ → Result Bytes
argument [] zero = fault null_pointer
argument [] (suc i) = fault bad_index
argument (a ∷ rest) zero = ok a
argument (a ∷ rest) (suc i) = argument rest i

-- "start", "join", "restart"
abbrev pub start_word : Bytes
start_word = 115 ∷ 116 ∷ 97 ∷ 114 ∷ 116 ∷ []

abbrev pub join_word : Bytes
join_word = 106 ∷ 111 ∷ 105 ∷ 110 ∷ []

abbrev pub restart_word : Bytes
restart_word = 114 ∷ 101 ∷ 115 ∷ 116 ∷ 97 ∷ 114 ∷ 116 ∷ []

abbrev pub same_bytes : Bytes → Bytes → Bool
same_bytes [] [] = true
same_bytes (a ∷ rest) (b ∷ bs) = a == b && same_bytes rest bs
same_bytes _ _ = false

-- what a process is to do: start(node, port), join(node, address, port to join, port), restart
pub data Command : Type 0 where
  start_command : ℕ → ℕ → Command
  join_command : ℕ → Bytes → ℕ → ℕ → Command
  restart_command : Command

abbrev start_arguments : List Bytes → ℕ → Result (Option Command)
start_arguments argv node = do
  port ← argument argv 3
  ok (if atoi port == unset then none else some (start_command node (atoi port)))

abbrev join_arguments : List Bytes → ℕ → Result (Option Command)
join_arguments argv node = do
  join_port ← argument argv 4
  address ← argument argv 3
  port ← argument argv 5
  ok (
      if atoi join_port == unset || atoi port == unset
      then none
      else some (join_command node address (atoi join_port) (atoi port)))

-- The tests of `main`; none where it ends at once.
unfoldable pub parse_arguments : List Bytes → Result (Option Command)
unfolding argument atoi
parse_arguments argv = do
  word ← argument argv 1
  if same_bytes word start_word || same_bytes word join_word
      then (do
        node ← argument argv 2
        if same_bytes word start_word
            then start_arguments argv (atoi node)
            else join_arguments argv (atoi node))
      else ok (if same_bytes word restart_word then some restart_command else none)

-- "192.168.1.46"
abbrev pub own_host : Bytes
own_host = 49 ∷ 57 ∷ 50 ∷ 46 ∷ 49 ∷ 54 ∷ 56 ∷ 46 ∷ 49 ∷ 46 ∷ 52 ∷ 54 ∷ []

-- what the kernel gives to a process that begins: the fd of the connection to another node and the
-- answer of its connect, and the fd of its timer
pub record Given : Type 0 where
  pub conn_fd : ℕ
  pub connect : Connect
  pub timer_fd : Option ℕ

-- The rest of `main`, up to the event loop, on the server that its constructor has made.
unfoldable pub run_command : Env → Given → Command → RaftServer → Result RaftServer
unfolding start connect_to_peer load_entries
run_command env g (start_command node port) s = start env own_host port node g.timer_fd s
run_command env g (join_command node address join_port port) s =
    ok (join g.connect g.conn_fd g.timer_fd address join_port node port s)
run_command env g restart_command s = restart env s

-- ErrorHandle: what it prints before the process ends
unfoldable pub error_handle : Option (List Bytes) → Bytes
unfolding new_exception stack_trace
error_handle symbols =
    stack_trace (new_exception (101 ∷ 114 ∷ 114 ∷ 111 ∷ 114 ∷ 58 ∷ []) symbols) ++ (10 ∷ [])
