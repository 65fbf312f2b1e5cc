-- ===== src/NullFree/Events.antt =====
-- mod/Mod.cpp, net/Conn.cpp and eventloop/Channel.cpp: no callback of a connection reads through a
-- null pointer.
use raft_server.Prelude.{
  Bytes, Option, Option-cases, arith, fault, inl, inr, none, null_pointer, ok, refl, some, subst,
  suc, sym, zero, ℕ, ◌%◌, ◌-◌, ◌>>=◌, ◌∷◌, ◌≡◌, ◌≢◌,
}
use raft_server.NullFree.Dispatch.{Classed, proc-Sound}
use raft_server.Mod.Arrived.Loop.{arrive_one-cut}
use raft_server.Protocol.{Kind}
use raft_server.Map.{find}
use raft_server.Mod.Api.{proc}
use raft_server.State.{Conn, RaftServer, set_conn}
use raft_server.NullFree.Handlers.{Intact}
use raft_server.NullFree.{>>=-Sound, NoNull, Sound, Sound-intro}
use raft_server.Mod.Arrived.{
  Arrived, arrive, arrive_one, cut, cut_body, handle_one, kind_of, message_kind, watch_output,
}
use raft_server.Env.{Env}

watch_output-Intact : (fd : ℕ) (s : RaftServer) → Intact s → Intact (watch_output fd s)
unfolding watch_output
watch_output-Intact fd s intact =
    let same : (watch_output fd s).proxies ≡ s.proxies = ground arith in
    subst NoNull (sym same) intact

message_kind_lem : (id : ℕ) (k : Kind) → message_kind id ≡ ok k → kind_of (id % 256 - 1) ≡ some k
unfolding message_kind
message_kind_lem id k h = elim (Option-cases (kind_of (id % 256 - 1))) [
  | inl e ↦ absurd (ground arith)
  | inr (k', e) ↦ ground arith
]

message_kind-null_pointer : (id : ℕ) → message_kind id ≢ fault null_pointer
unfolding message_kind
message_kind-null_pointer id h = ground arith

handle_one-Sound :
    (env : Env) (fd : ℕ) (c : Conn) (m : Arrived) (s : RaftServer)
    → Classed env
    → Intact s
    → Sound Intact (handle_one env fd c m s)
unfolding handle_one
handle_one-Sound env fd c m s classed intact =
    let i = m.id % 256 - 1 in
    let s0 = set_conn fd (record c { in_buffer = m.rest }) s in
    let Known : Kind → Type 0 = λ k. kind_of i ≡ some k in
    >>=-Sound Known Intact (message_kind m.id)
      (λ k. proc env fd i (env.decode k m.body) s0 >>= λ s'. ok (watch_output fd s'))
      (Sound-intro Known (message_kind m.id) (message_kind_lem m.id)
        (message_kind-null_pointer m.id))
      (λ k e known.
        >>=-Sound Intact Intact (proc env fd i (env.decode k m.body) s0)
          (λ s'. ok (watch_output fd s'))
          (proc-Sound env fd i k (env.decode k m.body) s0 known (classed k m.body) intact)
          (λ t f. watch_output-Intact fd t))

cut-null_pointer : (buf : Bytes) → cut buf ≢ fault null_pointer
unfolding cut cut_body
cut-null_pointer (a ∷ b ∷ c ∷ d ∷ e ∷ f ∷ buf) h = ground arith
cut-null_pointer _ h = cc

-- what a round of the loop leaves
abbrev IntactIf : Option RaftServer → Type 0
IntactIf none = Unit {0}
IntactIf (some s) = Intact s

round-Sound :
    (env : Env) (fd : ℕ) (c : Conn) (r : Option Arrived) (s : RaftServer)
    → Classed env
    → Intact s
    → Sound IntactIf
        (elim r [ none ↦ ok none | some m ↦ handle_one env fd c m s >>= λ s'. ok (some s') ])
round-Sound env fd c none s classed intact = tt
round-Sound env fd c (some m) s classed intact =
    >>=-Sound Intact IntactIf (handle_one env fd c m s) (λ s'. ok (some s'))
      (handle_one-Sound env fd c m s classed intact) (λ t e h. h)

arrive_one_gone :
    (env : Env) (fd : ℕ) (s : RaftServer) → find fd s.conns ≡ none → arrive_one env fd s ≡ ok none
unfolding arrive_one
arrive_one_gone env fd s e = rw (e, arrive_one) refl

arrive_one-Sound :
    (env : Env) (fd : ℕ) (s : RaftServer)
    → Classed env
    → Intact s
    → Sound IntactIf (arrive_one env fd s)
arrive_one-Sound env fd s classed intact = elim (Option-cases (find fd s.conns)) [
  | inl e ↦ rw (arrive_one_gone env fd s e) tt
  | inr (c, e) ↦
      let Any : Option Arrived → Type 0 = λ r. Unit {0} in
      rw (arrive_one-cut env fd c s e) (
        >>=-Sound Any IntactIf (cut c.in_buffer) _
          (Sound-intro Any (cut c.in_buffer) (λ r f. tt) (cut-null_pointer c.in_buffer))
          (λ r f any. round-Sound env fd c r s classed intact))
]

pub arrive-Sound :
    (env : Env) (fd n : ℕ) (s : RaftServer)
    → Classed env
    → Intact s
    → Sound Intact (arrive env fd n s)
unfolding arrive
arrive-Sound env fd zero s classed intact = intact
arrive-Sound env fd (suc n) s classed intact =
    >>=-Sound IntactIf Intact (arrive_one env fd s) _ (arrive_one-Sound env fd s classed intact)
      (λ r e after.
        elim r
            as (λ r.
              IntactIf r → Sound Intact (elim r [ none ↦ ok s | some s' ↦ arrive env fd n s' ])) [
                | none ↦ λ h. intact
                | some t ↦ λ h. arrive-Sound env fd n t classed h
              ]
          after)
