-- ===== src/Mod/Arrived/Loop.antt =====
-- mod/Mod.cpp, `HandleArrivedMsg`: the loop handles the messages that the input is cut into.
use raft_server.Prelude.{
  >>=-eq-ok, Bytes, List, Option, Option-cases, Result, [], arith, fault, if◌then◌else◌, inl, inr,
  length, ltb, none, ok, refl, some, subst, suc, sym, zero, ℕ, ◌%◌, ◌-◌, ◌<◌, ◌>>=◌, ◌∷◌, ◌≡◌,
}
use raft_server.Net.Calls.{conn_disable_write, conn_enable_write}
use raft_server.Net.Connect.{run}
use raft_server.Mod.Arrived.Frames.{cut_all, cut_cases, cut-shorter}
use raft_server.Mod.Api.Input.{in_of, proc-in_of, in_of-set_conn}
use raft_server.Env.{Env}
use raft_server.Mod.Arrived.{
  Arrived, handle_one, message_kind, watch_output, arrive, arrive_one, cut,
}
use raft_server.State.{Conn, RaftServer, set_conn}
use raft_server.Mod.Api.{proc}
use raft_server.Map.{find, find-insert}

-- The rounds of the loop: each hands the next message to its handler, and the last one finds that
-- what is left is no complete message.
pub data Handles (env : Env) (fd : ℕ) : RaftServer → List (ℕ × Bytes) → RaftServer → Type 0 where
  done : {s : RaftServer} → Handles env fd s [] s
  round :
      {s s' t : RaftServer} {ms : List (ℕ × Bytes)} (c : Conn) (m : Arrived)
      → find fd s.conns ≡ some c
      → handle_one env fd c m s ≡ ok s'
      → Handles env fd s' ms t
      → Handles env fd s ((m.id, m.body) ∷ ms) t

in_of-watch_output : (fd : ℕ) (s : RaftServer) → in_of fd (watch_output fd s) ≡ in_of fd s
unfolding watch_output
in_of-watch_output fd s = elim (Option-cases (find fd s.conns)) [
  | inl e ↦ rw (e, watch_output) refl
  | inr (c, e) ↦
      let c' = if ltb 0 (length c.out_buffer) then conn_enable_write c else conn_disable_write c in
      rw (e, watch_output) (in_of-set_conn fd fd c' s (ground arith))
]

pub handle_one-in_of :
    (env : Env) (fd : ℕ) (c : Conn) (m : Arrived) (s : RaftServer) {t : RaftServer}
    → find fd s.conns ≡ some c
    → c.fd ≡ fd
    → handle_one env fd c m s ≡ ok t
    → in_of fd t ≡ some (fd, m.rest)
unfolding handle_one
handle_one-in_of env fd c m s {t} there own h =
    let c' = record c { in_buffer = m.rest } in
    let put_back = find-insert fd fd c' s.conns in
    let (kind, p, h1) = >>=-eq-ok (message_kind m.id) _ h in
    let (s1, p1, h2) =
      >>=-eq-ok (proc env fd (m.id % 256 - 1) (env.decode kind m.body) (set_conn fd c' s))
        (λ s'. ok (watch_output fd s')) h1 in
    let kept =
      proc-in_of env fd (m.id % 256 - 1) (env.decode kind m.body) c' (set_conn fd c' s)
        (ground arith) own p1 in
    ground (arith, in_of-watch_output fd s1)

pub conn_in_of :
    (fd : ℕ) (s : RaftServer) (buf : Bytes)
    → in_of fd s ≡ some (fd, buf)
    → (c : Conn) × (find fd s.conns ≡ some c) × (c.fd ≡ fd) × (c.in_buffer ≡ buf)
conn_in_of fd s buf h = elim (Option-cases (find fd s.conns)) [
  | inl e ↦ absurd (ground arith)
  | inr (c, e) ↦ (c, e, ground arith, ground arith)
]

pub arrive_one-cut :
    (env : Env) (fd : ℕ) (c : Conn) (s : RaftServer)
    → find fd s.conns ≡ some c
    → arrive_one env fd s ≡ (
        cut c.in_buffer >>= λ r. elim r [
          | none ↦ ok none
          | some m ↦ handle_one env fd c m s >>= λ s'. ok (some s')
        ])
unfolding arrive_one
arrive_one-cut env fd c s there = rw (there, arrive_one) refl

handle_one_ends :
    (env : Env) (fd n : ℕ) (s : RaftServer) (r : Result RaftServer) {t : RaftServer}
    → ((r >>= λ s'. ok (some s')) >>= λ o. elim o [ none ↦ ok s | some s' ↦ arrive env fd n s' ])
      ≡ ok t
    → (s' : RaftServer) × (r ≡ ok s') × (arrive env fd n s' ≡ ok t)
handle_one_ends env fd n s (ok s') h = (s', refl, h)
handle_one_ends env fd n s (fault x) h = cc

-- Where `arrive` ends well, its first round does.
arrive_ends :
    (env : Env) (fd n : ℕ) (c : Conn) (s : RaftServer) (r : Result (Option Arrived))
    {t : RaftServer}
    → find fd s.conns ≡ some c
    → cut c.in_buffer ≡ r
    → arrive env fd (suc n) s ≡ ok t
    → ((r >>= λ o. elim o [
      | none ↦ ok none
      | some m ↦ handle_one env fd c m s >>= λ s'. ok (some s')
    ])
        >>= λ o. elim o [ none ↦ ok s | some s' ↦ arrive env fd n s' ])
      ≡ ok t
unfolding arrive
arrive_ends env fd n c s r there e h = rw (sym e, sym (arrive_one-cut env fd c s there)) h

-- Where the input of a connection is cut into messages, `HandleArrivedMsg` hands exactly those to
-- their handlers, in order, and keeps what is left; the loop ends by itself.
pub arrive-Handles :
    (env : Env) (fd n : ℕ) (s : RaftServer) (buf : Bytes) {t : RaftServer}
    → in_of fd s ≡ some (fd, buf)
    → length buf < n
    → arrive env fd n s ≡ ok t
    → (ms : List (ℕ × Bytes)) × (rest : Bytes) × (cut_all n buf ≡ ok (ms, rest))
      × Handles env fd s ms t
      × (in_of fd t ≡ some (fd, rest))
      × (cut rest ≡ ok none)
unfolding cut_all
arrive-Handles env fd zero s buf {t} here h e = absurd (omega arith)
arrive-Handles env fd (suc n) s buf {t} here h e =
    let (c, there, own, has) = conn_in_of fd s buf here in
    elim (cut_cases (cut buf)) [
      | inl p ↦
          let same = arrive_ends env fd n c s (ok none) there (cc) e in
          ([], buf, rw p refl, subst (λ x. Handles env fd s [] x) (cc) done, cc, p)
      | inr (inl (m, p)) ↦
          let (s1, p1, e1) =
            handle_one_ends env fd n s (handle_one env fd c m s)
              (arrive_ends env fd n c s (ok (some m)) there (cc) e) in
          let shorter = cut-shorter buf p in
          let (ms, rest, q, run, left, stop) =
            arrive-Handles env fd n s1 m.rest (handle_one-in_of env fd c m s there own p1)
              (omega arith) e1 in
          ((m.id, m.body) ∷ ms, rest, rw (p, q) refl, round c m there p1 run, left, stop)
      | inr (inr (x, p)) ↦ absurd (ground (arith, arrive_ends env fd n c s (fault x) there (cc) e))
    ]
