-- ===== src/Net/Socket/Rounds.antt =====
-- net/SocketWrapper.cpp: where the loop over the addresses ends, and what it leaves.
use raft_server.Prelude.{
  Bool, Bytes, List, Option, [], arith, false, if◌then◌else◌, none, refl, some, suc, true, zero, ℕ,
  ℤ, ◌&&◌, ◌∷◌, ◌≡◌,
}
use raft_server.Net.Socket.{
  AddrInfo, Answer, SocketType, SocketWrapper, client_socket, destroy_socket_wrapper,
  new_socket_wrapper, other_socket, port_text, round, rounds, server_socket, unopened,
}

abbrev pub opens : SocketType → Bool
opens other_socket = false
opens _ = true

rounds_more :
    (type : SocketType) (n k : ℕ) (curr first second : AddrInfo) (rest : List AddrInfo)
    (kernel : AddrInfo → ℕ → Answer) (w : SocketWrapper)
    → rounds type n k (some curr) first (second ∷ rest) kernel w ≡ none
unfolding rounds
rounds_more type zero k curr first second rest kernel w = refl
rounds_more type (suc n) k curr first second rest kernel w =
    rounds_more type n (suc k) second first second rest kernel (round type first (kernel curr k) w)

rounds_each :
    (type : SocketType) (n : ℕ) (first : AddrInfo) (rest : List AddrInfo)
    (kernel : AddrInfo → ℕ → Answer) (w : SocketWrapper)
    → rounds type (suc (suc n)) 0 (some first) first rest kernel w
      ≡ elim rest [ [] ↦ some (round type first (kernel first 0) w) | second ∷ others ↦ none ]
unfolding rounds
rounds_each type n first [] kernel w = refl
rounds_each type n first (second ∷ rest) kernel w =
    rounds_more type (suc (suc n)) 0 first first second rest kernel w

-- Where getaddrinfo gives one address, the loop ends after its round; where it gives more, the loop
-- does not end, however many rounds it is given.
pub new_socket_wrapper-ends :
    (type : SocketType) (port : ℤ) (lookup : Bytes → Option (AddrInfo × List AddrInfo))
    (kernel : AddrInfo → ℕ → Answer) (n : ℕ) (first : AddrInfo) (rest : List AddrInfo)
    → opens type ≡ true
    → lookup (port_text port) ≡ some (first, rest)
    → new_socket_wrapper type port lookup kernel (suc (suc n)) ≡ elim rest [
      | [] ↦ some (round type first (kernel first 0) (unopened port type))
      | second ∷ others ↦ none
    ]
unfolding new_socket_wrapper
new_socket_wrapper-ends server_socket port lookup kernel n first rest o e =
    rw (e, new_socket_wrapper)
      (rounds_each server_socket n first rest kernel (unopened port server_socket))
new_socket_wrapper-ends client_socket port lookup kernel n first rest o e =
    rw (e, new_socket_wrapper)
      (rounds_each client_socket n first rest kernel (unopened port client_socket))
new_socket_wrapper-ends other_socket port lookup kernel n first rest o e = absurd (ground arith)

-- all that a server asks for is granted
abbrev pub granted : Answer → Bool
granted a = a.reuse_addr && (a.no_delay && (a.bind && a.listen))

-- A server's socket at one address is initialised exactly if every call succeeds. Its fd is closed
-- when the wrapper goes, for the second time if one of the calls failed.
pub destroy_socket_wrapper-closed :
    (port : ℤ) (lookup : Bytes → Option (AddrInfo × List AddrInfo)) (kernel : AddrInfo → ℕ → Answer)
    (n fd : ℕ) (first : AddrInfo)
    → lookup (port_text port) ≡ some (first, [])
    → (kernel first 0).socket ≡ some fd
    → (w : SocketWrapper) × (new_socket_wrapper server_socket port lookup kernel (suc (suc n))
        ≡ some w)
      × (w.fd ≡ some fd)
      × (w.is_init ≡ granted (kernel first 0))
      × ((destroy_socket_wrapper w).closed
          ≡ (if granted (kernel first 0) then fd ∷ [] else fd ∷ fd ∷ []))
unfolding destroy_socket_wrapper
destroy_socket_wrapper-closed port lookup kernel n fd first e s =
    let w = round server_socket first (kernel first 0) (unopened port server_socket) in
    (
      w,
      new_socket_wrapper-ends server_socket port lookup kernel n first [] refl e,
      ground (arith, s),
      ground (arith, s),
      ground (arith, s),
    )
