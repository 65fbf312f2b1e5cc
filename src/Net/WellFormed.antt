-- ===== src/Net/WellFormed.antt =====
-- nanoraft/RaftServer.cpp and net/Conn.cpp: the connections that a server owns.
pub mod Steps
use raft_server.Prelude.{
  Bytes, Option-cases, ap, arith, inl, inr, refl, some, subst, sym, ℕ, ℕ_discrete, ◌+◌, ◌<◌, ◌∙◌,
  ◌≡◌, ◌⊎◌,
}
use raft_server.Env.{Env}
use raft_server.Net.Connect.{new_conn}
use raft_server.Eventloop.Channel.Mirror.{IsMirrored}
use raft_server.Net.Send.Quiet.{IsQuiet}
use raft_server.State.{Conn, RaftServer}
use raft_server.Map.{Map, erase, find, find-erase, find-insert, insert}
use raft_server.Net.Alike.{Alike, Alike-channel}

-- Every connection stands under its own fd, epoll holds of its channel what the channel says, and no
-- two are the same object, nor is one the object that is made next.
pub record WellFormed (next : ℕ) (conns : Map Conn) : Type 0 where
  pub keyed : (fd : ℕ) (c : Conn) → find fd conns ≡ some c → c.fd ≡ fd
  pub older : (fd : ℕ) (c : Conn) → find fd conns ≡ some c → c.id < next
  pub mirrored : (fd : ℕ) (c : Conn) → find fd conns ≡ some c → IsMirrored c.channel
  pub unique :
      (fd fd' : ℕ) (c c' : Conn)
      → find fd conns ≡ some c
      → find fd' conns ≡ some c'
      → c.id ≡ c'.id
      → fd ≡ fd'

-- Every connection of `m'` is one of `m`, but for what a connection may change.
pub record Subset (m m' : Map Conn) : Type 0 where
  pub from :
      (fd : ℕ) (c' : Conn) → find fd m' ≡ some c' → (c : Conn) × (find fd m ≡ some c) × Alike c c'

pub Subset-WellFormed :
    {next : ℕ} {m m' : Map Conn} → Subset m m' → WellFormed next m → WellFormed next m'
Subset-WellFormed sub w = record {
  keyed = λ fd c' e. let (c, f, a) = sub.from fd c' e in a.same_fd ∙ w.keyed fd c f;
  older = λ fd c' e. let (c, f, a) = sub.from fd c' e in omega (arith, a.same_id, w.older fd c f);
  mirrored = λ fd c' e. let (c, f, a) = sub.from fd c' e in a.mirrored (w.mirrored fd c f);
  unique = λ fd gd c' d' e f same.
      let (c, p, a) = sub.from fd c' e in
      let (d, q, b) = sub.from gd d' f in
      w.unique fd gd c d p q (omega (arith, a.same_id, b.same_id, same));
}

pub insert-Subset :
    (fd : ℕ) (c c' : Conn) (m : Map Conn)
    → find fd m ≡ some c
    → Alike c c'
    → Subset m (insert fd c' m)
insert-Subset fd c c' m e a = record {
  from = λ gd d f. elim (ℕ_discrete gd fd) [
    | yes same ↦
        let hit : c' ≡ d = ground (arith, find-insert fd gd c' m) in
        (c, cc (same, e), subst (Alike c) hit a)
    | no other ↦ (d, ground (arith, find-insert fd gd c' m), Alike-channel refl refl refl)
  ];
}

pub erase-Subset : (fd : ℕ) (m : Map Conn) → Subset m (erase fd m)
erase-Subset fd m = record {
  from = λ gd d f. (d, ground (arith, find-erase fd gd m), Alike-channel refl refl refl);
}

pub quiet-Subset : {s t : RaftServer} → IsQuiet s t → Subset s.conns t.conns
quiet-Subset {s} {t} q = record {
  from = λ fd d f. elim (Option-cases (find fd s.conns)) [
    | inl e ↦ absurd (ground (arith, q.views fd))
    | inr (c, e) ↦ (
      c,
      e,
      Alike-channel (ground (arith, q.views fd)) (ground (arith, q.views fd))
          (ground (arith, q.views fd)),
    )
  ];
}

-- what is found after a connection was put into the map
found_after :
    (fd gd : ℕ) (c d : Conn) (m : Map Conn)
    → find gd (insert fd c m) ≡ some d
    → ((gd ≡ fd) × (c ≡ d)) ⊎ (find gd m ≡ some d)
found_after fd gd c d m e = elim (ℕ_discrete gd fd) [
  | yes same ↦ inl (same, ground (arith, find-insert fd gd c m))
  | no other ↦ inr (ground (arith, find-insert fd gd c m))
]

pub insert-WellFormed :
    (fd : ℕ) (c : Conn) (next : ℕ) (m : Map Conn)
    → c.fd ≡ fd
    → c.id ≡ next
    → IsMirrored c.channel
    → WellFormed next m
    → WellFormed (next + 1) (insert fd c m)
insert-WellFormed fd c next m own new mirror w = record {
  keyed = λ gd d e. elim (found_after fd gd c d m e) [
    | inl (same, hit) ↦ sym (ap (λ x. x.fd) hit) ∙ own ∙ sym same
    | inr old ↦ w.keyed gd d old
  ];
  older = λ gd d e. elim (found_after fd gd c d m e) [
    | inl (same, hit) ↦ let id = ap (λ x. x.id) hit in omega (arith, id, new)
    | inr old ↦ omega (arith, w.older gd d old)
  ];
  mirrored = λ gd d e. elim (found_after fd gd c d m e) [
    | inl (same, hit) ↦ subst (λ x. IsMirrored x.channel) hit mirror
    | inr old ↦ w.mirrored gd d old
  ];
  unique = λ gd hd d d' e f ids. elim (found_after fd gd c d m e) [
    | inl (same, hit) ↦ elim (found_after fd hd c d' m f) [
      | inl (same', hit') ↦ same ∙ sym same'
      | inr old' ↦
          let id = ap (λ x. x.id) hit in absurd (omega (arith, id, new, ids, w.older hd d' old'))
    ]
    | inr old ↦ elim (found_after fd hd c d' m f) [
      | inl (same', hit') ↦
          let id = ap (λ x. x.id) hit' in absurd (omega (arith, id, new, ids, w.older gd d old))
      | inr old' ↦ w.unique gd hd d d' old old' ids
    ]
  ];
}
