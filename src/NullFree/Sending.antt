-- ===== src/NullFree/Sending.antt =====
-- net/Conn.cpp and nanoraft/RaftServer.cpp: sending reads through no null pointer.
use raft_server.Prelude.{
  Bool, Bytes, List, Option-cases, Result, Result-cases, [], ap, arith, dec64, false, fault, inl,
  inr, null_pointer, ok, some, subst, sym, u32, ℕ, ◌∙◌, ◌∷◌, ◌≡◌, ◌≢◌,
}
use raft_server.Net.Send.Quiet.{IsQuiet}
use raft_server.Protocol.{Message}
use raft_server.Nanoraft.Peers.{read_proxy}
use raft_server.Map.{find, keys}
use raft_server.Nanoraft.Broadcast.Quiet.{broadcast_one-IsQuiet}
use raft_server.Nanoraft.Log.{entry_by_index, entry_term_by_index}
use raft_server.State.{Conn, RaftServer, lock_conn}
use raft_server.NullFree.{AllFound, NoNull, Sound, Sound-intro, keys-AllFound}
use raft_server.Net.Send.{
  append_entries_message, handle_pre_send_msg, lock_proxy, next_entries, post_on, put_frame,
  send_append_entries,
}
use raft_server.Nanoraft.Proxy.{Proxy}
use raft_server.Env.{Env}
use raft_server.Nanoraft.Broadcast.{
  broadcast_append_entries, broadcast_one, for_proxies, proxy_send_append_entries,
}

pub post_on-null_pointer :
    (c : Conn) (fd id : ℕ) (body : Bytes) (s : RaftServer)
    → post_on c fd id body s ≢ fault null_pointer
unfolding post_on put_frame
post_on-null_pointer c fd id body s h = ground arith

entry_term_by_index-null_pointer :
    (i : ℕ) (s : RaftServer) → entry_term_by_index i s ≢ fault null_pointer
unfolding entry_term_by_index
entry_term_by_index-null_pointer i s h = ground arith

next_entries-null_pointer : (next : ℕ) (s : RaftServer) → next_entries next s ≢ fault null_pointer
unfolding next_entries entry_by_index
next_entries-null_pointer next s h = ground arith

append_entries_message-null_pointer :
    (p : Proxy) (s : RaftServer) → append_entries_message p s ≢ fault null_pointer
unfolding append_entries_message
append_entries_message-null_pointer p s h = ground (
  arith,
  entry_term_by_index-null_pointer (u32 (dec64 p.next_index)) s,
  next_entries-null_pointer p.next_index s,
)

send_append_entries-null_pointer :
    (env : Env) (is_heart is_cfg : Bool) (fd : ℕ) (s : RaftServer)
    → send_append_entries env is_heart is_cfg fd s ≢ fault null_pointer
unfolding send_append_entries
send_append_entries-null_pointer env is_heart is_cfg fd s h =
    elim (Option-cases (find fd s.conns)) [
      | inl e ↦ ground arith
      | inr (c, e) ↦ elim (Option-cases (lock_proxy c.proxy s.proxies)) [
        | inl f ↦ ground arith
        | inr (p, f) ↦ elim (Result-cases (append_entries_message p s)) [
          | inl (msg, m) ↦
              ground
                (arith, post_on-null_pointer c fd 259 (env.encode (Message.appendentries_q msg)) s)
          | inr (x, m) ↦ ground (arith, append_entries_message-null_pointer p s)
        ]
      ]
    ]

pub handle_pre_send_msg-null_pointer :
    (env : Env) (fd id : ℕ) (msg : Message) (s : RaftServer)
    → handle_pre_send_msg env fd id msg s ≢ fault null_pointer
unfolding handle_pre_send_msg
handle_pre_send_msg-null_pointer env fd id msg s h = elim (Option-cases (find fd s.conns)) [
  | inl e ↦ ground arith
  | inr (c, e) ↦ ground (arith, post_on-null_pointer c fd id (env.encode msg) s)
]

proxy_send_append_entries-null_pointer :
    (env : Env) (is_heart : Bool) (p : Proxy) (s : RaftServer)
    → proxy_send_append_entries env is_heart p s ≢ fault null_pointer
unfolding proxy_send_append_entries
proxy_send_append_entries-null_pointer env is_heart p s h = elim (Option-cases p.conn) [
  | inl e ↦ ground arith
  | inr (id, e) ↦ elim (Option-cases (lock_conn id s.conns)) [
    | inl f ↦ ground arith
    | inr (fd, f) ↦ ground (arith, send_append_entries-null_pointer env is_heart false fd s)
  ]
]

broadcast_one-null_pointer :
    (env : Env) (is_heart : Bool) (id : ℕ) (s : RaftServer)
    → ((p : Proxy) × (find id s.proxies ≡ some (some p)))
    → broadcast_one env is_heart id s ≢ fault null_pointer
unfolding broadcast_one read_proxy
broadcast_one-null_pointer env is_heart id s (p, there) h =
    ground (arith, proxy_send_append_entries-null_pointer env is_heart p s)

-- The proxies stay, so that all keys have one at each round.
for_proxies-null_pointer :
    (env : Env) (is_heart : Bool) (ids : List ℕ) (s : RaftServer)
    → AllFound ids s.proxies
    → for_proxies (broadcast_one env is_heart) ids s ≢ fault null_pointer
unfolding for_proxies
for_proxies-null_pointer env is_heart [] s found h = cc
for_proxies-null_pointer env is_heart (id ∷ ids) s (there, found) h =
    elim (Result-cases (broadcast_one env is_heart id s)) [
      | inl (t, e) ↦
          let quiet = broadcast_one-IsQuiet env is_heart id s e in
          let same : s.proxies ≡ t.proxies = sym (ap (λ x. x.proxies) quiet.frame) in
          for_proxies-null_pointer env is_heart ids t (subst (AllFound ids) same found) (rw e at h)
      | inr (x, e) ↦ broadcast_one-null_pointer env is_heart id s there (e ∙ (rw e at h))
    ]

pub broadcast_append_entries-null_pointer :
    (env : Env) (is_heart : Bool) (s : RaftServer)
    → NoNull s.proxies
    → broadcast_append_entries env is_heart s ≢ fault null_pointer
unfolding broadcast_append_entries
broadcast_append_entries-null_pointer env is_heart s intact =
    for_proxies-null_pointer env is_heart (keys s.proxies) s (keys-AllFound s.proxies intact)

-- What some sending gives still has no null pointer.
pub quiet-Sound :
    (s : RaftServer) (r : Result RaftServer)
    → ((t : RaftServer) → r ≡ ok t → IsQuiet s t)
    → r ≢ fault null_pointer
    → NoNull s.proxies
    → Sound (λ t. NoNull t.proxies) r
quiet-Sound s r quiet free intact =
    Sound-intro (λ t. NoNull t.proxies) r
      (λ t e. subst NoNull (sym (ap (λ x. x.proxies) (quiet t e).frame)) intact) free
