-- ===== src/Net/Send/Stream.antt =====
-- net/Conn.cpp and mod/Mod.cpp: the bytes that a connection has sent, and those that still wait.
use raft_server.Prelude.{
  ==_self, >>=-eq-ok, Bool-cases, Bytes, List, Option, Option-cases, [], append-nil, append_assoc,
  arith, drop, if◌then◌else◌, inl, inr, length, length-append, min, none, ok, refl, some, subst,
  suc, take, take-append-drop, zero, ℕ, ◌++◌, ◌==◌, ◌∷◌, ◌≡◌, ◌≤◌,
}
use raft_server.Net.Send.{
  drop_sent, frame, kernel_send, post_on, buffer_size, put_frame, after_send_result, send_callback,
}
use raft_server.State.{Conn, Net, RaftServer, set_conn}
use raft_server.Map.{find, find-insert}

-- The bytes that the kernel has taken for an fd, in order.
unfoldable pub wire_of : ℕ → List (ℕ × Bytes) → Bytes
wire_of fd [] = []
wire_of fd ((g, bytes) ∷ wire) = if fd == g then bytes ++ wire_of fd wire else wire_of fd wire

wire_of-append :
    (fd g : ℕ) (bytes : Bytes) (wire : List (ℕ × Bytes))
    → wire_of fd (wire ++ ((g, bytes) ∷ []))
      ≡ (if fd == g then wire_of fd wire ++ bytes else wire_of fd wire)
unfolding wire_of
wire_of-append fd g bytes [] = ground (arith, append-nil bytes)
wire_of-append fd g bytes ((h, b) ∷ wire) =
    ground (arith, wire_of-append fd g bytes wire, append_assoc b (wire_of fd wire) bytes)

-- what one call of send(2) takes, and what the buffer keeps
kernel_send-wire :
    (fd : ℕ) (buf : Bytes) (net : Net)
    → let called = kernel_send fd buf net in
      wire_of fd called.1.wire ++ drop_sent called.0 buf ≡ wire_of fd net.wire ++ buf
unfolding kernel_send
kernel_send-wire fd buf net = elim (Option-cases (net.sends net.calls)) [
  | inl e ↦ rw (e, kernel_send)
  | inr (k, e) ↦
      let n = min k (length buf) in
      ground (
        arith,
        wire_of-append fd fd (take n buf) net.wire,
        append_assoc (wire_of fd net.wire) (take n buf) (drop n buf),
        take-append-drop n buf,
      )
]

-- Everything that a connection has been given to send is on the wire or in its buffer.
abbrev pub stream_of : ℕ → RaftServer → Bytes
stream_of fd s =
    wire_of fd s.net.wire ++ elim (find fd s.conns) [ none ↦ [] | some c ↦ c.out_buffer ]

-- A frame is put behind the bytes that wait, and the buffer holds them all.
pub put_frame_lem :
    (id : ℕ) (body buf : Bytes) {out : Bytes}
    → put_frame id body buf ≡ ok out
    → (out ≡ buf ++ frame id body) × (length out ≤ buffer_size)
unfolding put_frame
put_frame_lem id body buf h = ground (arith, length-append buf (frame id body))

-- the state that `post_on` leaves
abbrev posted : Conn → ℕ → Bytes → RaftServer → RaftServer
posted c fd out s =
    let called = kernel_send c.fd out s.net in
    set_conn fd (record c { out_buffer = drop_sent called.0 out }) (record s { net = called.1 })

posted-stream :
    (c : Conn) (fd : ℕ) (out : Bytes) (s : RaftServer)
    → c.fd ≡ fd
    → stream_of fd (posted c fd out s) ≡ wire_of fd s.net.wire ++ out
posted-stream c fd out s own =
    let c' = record c { out_buffer = drop_sent (kernel_send c.fd out s.net).0 out } in
    rw (find-insert fd fd c' s.conns, ==_self fd)
      (subst
        (λ g.
          wire_of g (kernel_send c.fd out s.net).1.wire
            ++ drop_sent (kernel_send c.fd out s.net).0 out
          ≡ wire_of g s.net.wire ++ out)
        own (kernel_send-wire c.fd out s.net))

-- A message that is posted goes behind what the connection was given before: no byte is lost, made up
-- or moved, whatever the kernel takes.
pub post_on-stream :
    (c : Conn) (fd id : ℕ) (body : Bytes) (s t : RaftServer)
    → find fd s.conns ≡ some c
    → c.fd ≡ fd
    → post_on c fd id body s ≡ ok t
    → stream_of fd t ≡ stream_of fd s ++ frame id body
unfolding post_on
post_on-stream c fd id body s t there own h =
    let (out, p, h1) = >>=-eq-ok (put_frame id body c.out_buffer) _ h in
    ground (
      arith,
      posted-stream c fd out s own,
      (put_frame_lem id body c.out_buffer p).0,
      append_assoc (wire_of fd s.net.wire) c.out_buffer (frame id body),
    )

pub post_on-frame :
    (c : Conn) (fd id : ℕ) (body : Bytes) (s : RaftServer) {t : RaftServer}
    → post_on c fd id body s ≡ ok t
    → t ≡ record s { conns = t.conns; net = t.net }
unfolding post_on
post_on-frame c fd id body s h = ground arith

out_of-after_send :
    (r : Option ℕ) (c : Conn) → (after_send_result r c).out_buffer ≡ drop_sent r c.out_buffer
out_of-after_send none c = refl
out_of-after_send (some zero) c = refl
out_of-after_send (some (suc n)) c = ground arith

-- the state that `send_callback` leaves where something waits
abbrev sent : ℕ → Conn → RaftServer → RaftServer
sent fd c s =
    let called = kernel_send c.fd c.out_buffer s.net in
    set_conn fd (after_send_result called.0 c) (record s { net = called.1 })

pub send_callback_lem :
    (fd : ℕ) (c : Conn) (s : RaftServer)
    → find fd s.conns ≡ some c
    → send_callback fd s ≡ (if length c.out_buffer == 0 then s else sent fd c s)
unfolding send_callback
send_callback_lem fd c s there = rw (there, send_callback) refl

sent-stream :
    (fd : ℕ) (c : Conn) (s : RaftServer)
    → find fd s.conns ≡ some c
    → c.fd ≡ fd
    → stream_of fd (sent fd c s) ≡ stream_of fd s
sent-stream fd c s there own =
    let r = (kernel_send c.fd c.out_buffer s.net).0 in
    rw (find-insert fd fd (after_send_result r c) s.conns, ==_self fd, there)
      (rw (out_of-after_send r c) (
        subst
          (λ g.
            wire_of g (kernel_send c.fd c.out_buffer s.net).1.wire ++ drop_sent r c.out_buffer
            ≡ wire_of g s.net.wire ++ c.out_buffer)
          own (kernel_send-wire c.fd c.out_buffer s.net)))

-- The write callback moves bytes from the buffer to the wire, and loses, makes up or reorders none.
pub send_callback-stream :
    (fd : ℕ) (c : Conn) (s : RaftServer)
    → find fd s.conns ≡ some c
    → c.fd ≡ fd
    → stream_of fd (send_callback fd s) ≡ stream_of fd s
send_callback-stream fd c s there own = elim (Bool-cases (length c.out_buffer == 0)) [
  | inl empty ↦ rw (send_callback_lem fd c s there, empty) refl
  | inr waiting ↦ rw (send_callback_lem fd c s there, waiting) (sent-stream fd c s there own)
]
