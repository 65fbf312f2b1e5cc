-- ===== src/Net/Send/Quiet.antt =====
-- net/Conn.cpp: what sending changes: the output buffers, and what the kernel was handed.
use raft_server.Prelude.{
  >>=-eq-ok, Bool, Bytes, Option, Option-cases, [], arith, inl, inr, none, ok, refl, some, subst, ℕ,
  ◌∙◌, ◌≡◌,
}
use raft_server.Protocol.{Message}
use raft_server.State.{Conn, RaftServer}
use raft_server.Net.Send.{
  append_entries_message, drop_sent, handle_pre_send_msg, kernel_send, lock_proxy, post_on,
  put_frame, send_append_entries,
}
use raft_server.Env.{Env}
use raft_server.Map.{find, find-insert}

-- a connection but for its output buffer
abbrev pub view_of : ℕ → RaftServer → Option Conn
view_of fd s = elim (find fd s.conns) [ none ↦ none | some c ↦ some (record c { out_buffer = [] }) ]

-- `t` is `s` after some sending.
pub record IsQuiet (s t : RaftServer) : Type 0 where
  pub frame : t ≡ record s { conns = t.conns; net = t.net }
  pub views : (fd : ℕ) → view_of fd t ≡ view_of fd s

pub IsQuiet-refl : (s : RaftServer) → IsQuiet s s
IsQuiet-refl s = record { frame = refl; views = λ fd. refl }

pub IsQuiet-trans : {s t u : RaftServer} → IsQuiet s t → IsQuiet t u → IsQuiet s u
IsQuiet-trans p q = record { frame = cc (p.frame, q.frame); views = λ fd. q.views fd ∙ p.views fd }

pub post_on-IsQuiet :
    (c : Conn) (fd id : ℕ) (body : Bytes) (s : RaftServer) {t : RaftServer}
    → find fd s.conns ≡ some c
    → post_on c fd id body s ≡ ok t
    → IsQuiet s t
unfolding post_on
post_on-IsQuiet c fd id body s {t} there h =
    let (out, p, h1) = >>=-eq-ok (put_frame id body c.out_buffer) _ h in
    record {
      frame = ground arith;
      views = λ g. ground (
        arith,
        find-insert fd g (record c { out_buffer = drop_sent (kernel_send c.fd out s.net).0 out })
            s.conns,
      );
    }

pub handle_pre_send_msg-IsQuiet :
    (env : Env) (fd id : ℕ) (msg : Message) (s : RaftServer) {t : RaftServer}
    → handle_pre_send_msg env fd id msg s ≡ ok t
    → IsQuiet s t
unfolding handle_pre_send_msg
handle_pre_send_msg-IsQuiet env fd id msg s {t} h = elim (Option-cases (find fd s.conns)) [
  | inl e ↦ subst (IsQuiet s) (ground arith) (IsQuiet-refl s)
  | inr (c, e) ↦ post_on-IsQuiet c fd id (env.encode msg) s e (ground arith)
]

pub send_append_entries-IsQuiet :
    (env : Env) (is_heart is_cfg : Bool) (fd : ℕ) (s : RaftServer) {t : RaftServer}
    → send_append_entries env is_heart is_cfg fd s ≡ ok t
    → IsQuiet s t
unfolding send_append_entries
send_append_entries-IsQuiet env is_heart is_cfg fd s {t} h = elim (Option-cases (find fd s.conns)) [
  | inl e ↦ subst (IsQuiet s) (ground arith) (IsQuiet-refl s)
  | inr (c, e) ↦ elim (Option-cases (lock_proxy c.proxy s.proxies)) [
    | inl f ↦ subst (IsQuiet s) (ground arith) (IsQuiet-refl s)
    | inr (p, f) ↦
        let (msg, m, h1) =
          >>=-eq-ok (append_entries_message p s)
            (λ msg. post_on c fd 259 (env.encode (Message.appendentries_q msg)) s) (ground arith) in
        post_on-IsQuiet c fd 259 (env.encode (Message.appendentries_q msg)) s e h1
  ]
]

-- what is found of a connection after some sending
pub find-IsQuiet-none :
    (fd : ℕ) {s t : RaftServer} → IsQuiet s t → find fd s.conns ≡ none → find fd t.conns ≡ none
find-IsQuiet-none fd {s} {t} q e = ground (arith, q.views fd)

pub find-IsQuiet-some :
    (fd : ℕ) (c : Conn) {s t : RaftServer}
    → IsQuiet s t
    → find fd s.conns ≡ some c
    → (d : Conn) × (find fd t.conns ≡ some d) × (d.channel ≡ c.channel)
find-IsQuiet-some fd c {s} {t} q e = elim (Option-cases (find fd t.conns)) [
  | inl f ↦ absurd (ground (arith, q.views fd))
  | inr (d, f) ↦ (d, f, ground (arith, q.views fd))
]
