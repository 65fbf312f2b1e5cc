-- ===== src/Net/Socket.antt =====
-- net/SocketWrapper.h and .cpp: a socket, and the loop over the addresses that getaddrinfo gives.
pub mod Rounds
use raft_server.Prelude.{
  Bool, Bytes, List, Option, [], false, if◌then◌else◌, negsuc, none, pos, some, suc, take,
  to_string, true, zero, ℕ, ℤ, ◌&&◌, ◌++◌, ◌+◌, ◌∷◌,
}

-- SSOCKET and CSOCKET; the source takes any other `int`, too
pub data SocketType : Type 0 where
  server_socket client_socket other_socket : SocketType

-- An address of getaddrinfo: the arguments of socket(2), and what bind(2) takes.
pub record AddrInfo : Type 0 where
  pub family : ℕ
  pub socktype : ℕ
  pub protocol : ℕ
  pub addr : Bytes

-- What the kernel answers in one round of the loop. A call that is not reached has no answer to give.
pub record Answer : Type 0 where
  pub socket : Option ℕ
  pub reuse_addr : Bool
  pub no_delay : Bool
  pub bind : Bool
  pub listen : Bool

-- `fd` is none for -1. `bound` and `closed` are the calls of bind(2) and close(2).
pub record SocketWrapper : Type 0 where
  pub port : ℤ
  pub type : SocketType
  pub fd : Option ℕ
  pub is_init : Bool
  pub bound : List (ℕ × Bytes)
  pub closed : List ℕ

-- "%d"
unfoldable pub print_int : ℤ → Bytes
print_int (pos n) = to_string n
print_int (negsuc n) = 45 ∷ to_string (n + 1)

-- snprintf into six bytes
abbrev pub port_text : ℤ → Bytes
port_text port = take 5 (print_int port)

abbrev pub close_socket : ℕ → SocketWrapper → SocketWrapper
close_socket fd w = record w { closed = w.closed ++ (fd ∷ []) }

abbrev pub opened : Bool → ℕ → SocketWrapper → SocketWrapper
opened fine fd w = if fine then record w { is_init = true } else close_socket fd w

-- A round for a server: the address that is bound is the first one in every round.
abbrev pub server_round : AddrInfo → Answer → SocketWrapper → SocketWrapper
server_round first a w = elim a.socket [
  | none ↦ record w { fd = none }
  | some fd ↦
      let bound =
        if a.reuse_addr && a.no_delay then w.bound ++ ((fd, first.addr) ∷ []) else w.bound in
      opened (a.reuse_addr && (a.no_delay && (a.bind && a.listen))) fd
        (record w { fd = some fd; bound = bound })
]

-- a round for a client
abbrev pub client_round : Answer → SocketWrapper → SocketWrapper
client_round a w = elim a.socket [
  | none ↦ record w { fd = none }
  | some fd ↦ opened (a.reuse_addr && a.no_delay) fd (record w { fd = some fd })
]

abbrev pub round : SocketType → AddrInfo → Answer → SocketWrapper → SocketWrapper
round server_socket first a w = server_round first a w
round client_socket first a w = client_round a w
round other_socket first a w = w

-- `pstResult->ai_next`
abbrev pub ai_next : List AddrInfo → Option AddrInfo
ai_next [] = none
ai_next (first ∷ []) = none
ai_next (first ∷ second ∷ rest) = some second

-- The loop, on fuel: none where the fuel runs out. Round `k` is for the address `curr`, and the next
-- one is for the address behind the first.
unfoldable pub rounds :
    SocketType
    → ℕ
    → ℕ
    → Option AddrInfo
    → AddrInfo
    → List AddrInfo
    → (AddrInfo → ℕ → Answer)
    → SocketWrapper
    → Option SocketWrapper
rounds type zero k curr first rest kernel w = none
rounds type (suc n) k none first rest kernel w = some w
rounds type (suc n) k (some addr) first rest kernel w =
    rounds type n (suc k) (ai_next (first ∷ rest)) first rest kernel
      (round type first (kernel addr k) w)

abbrev pub unopened : ℤ → SocketType → SocketWrapper
unopened port type = record {
  port = port;
  type = type;
  fd = none;
  is_init = false;
  bound = [];
  closed = [];
}

-- SocketWrapper::SocketWrapper. `lookup` is getaddrinfo, which gives one address at least where it
-- succeeds.
unfoldable pub new_socket_wrapper :
    SocketType
    → ℤ
    → (Bytes → Option (AddrInfo × List AddrInfo))
    → (AddrInfo → ℕ → Answer)
    → ℕ
    → Option SocketWrapper
unfolding rounds
new_socket_wrapper other_socket port lookup kernel fuel = some (unopened port other_socket)
new_socket_wrapper type port lookup kernel fuel = elim (lookup (port_text port)) [
  | none ↦ some (unopened port type)
  | some (first, rest) ↦ rounds type fuel 0 (some first) first rest kernel (unopened port type)
]

-- SocketWrapper::~SocketWrapper
unfoldable pub destroy_socket_wrapper : SocketWrapper → SocketWrapper
destroy_socket_wrapper w = record (elim w.fd [ none ↦ w | some fd ↦ close_socket fd w ]) {
  is_init = false;
}
