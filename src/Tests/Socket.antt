-- ===== src/Tests/Socket.antt =====
-- Runs of the theorems on sockets.
use raft_server.Prelude.{Bytes, List, Option, [], false, none, pos, refl, some, true, ℕ, ◌∷◌, ◌≡◌}
use raft_server.Net.Socket.Rounds.{destroy_socket_wrapper-closed, new_socket_wrapper-ends}
use raft_server.Net.Socket.{
  AddrInfo, Answer, SocketWrapper, destroy_socket_wrapper, new_socket_wrapper, server_socket,
}

abbrev address : ℕ → AddrInfo
address n = record { family = 2; socktype = 1; protocol = 0; addr = n ∷ [] }

-- one address, or two of them
abbrev one_address : Bytes → Option (AddrInfo × List AddrInfo)
one_address text = some (address 1, [])

abbrev two_addresses : Bytes → Option (AddrInfo × List AddrInfo)
two_addresses text = some (address 1, address 2 ∷ [])

-- The address cannot be bound.
abbrev in_use : AddrInfo → ℕ → Answer
in_use a k = record {
  socket = some 3;
  reuse_addr = true;
  no_delay = true;
  bind = false;
  listen = true;
}

new_socket_wrapper-ends_example :
    new_socket_wrapper server_socket (pos 7777) two_addresses in_use 12 ≡ none
new_socket_wrapper-ends_example =
    new_socket_wrapper-ends server_socket (pos 7777) two_addresses in_use 10 (address 1)
      (address 2 ∷ []) refl refl

destroy_socket_wrapper-closed_example :
    (w : SocketWrapper) × (new_socket_wrapper server_socket (pos 7777) one_address in_use 2
      ≡ some w)
    × (w.fd ≡ some 3)
    × (w.is_init ≡ false)
    × ((destroy_socket_wrapper w).closed ≡ 3 ∷ 3 ∷ [])
destroy_socket_wrapper-closed_example =
    destroy_socket_wrapper-closed (pos 7777) one_address in_use 0 3 (address 1) refl refl
