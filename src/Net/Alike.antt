-- ===== src/Net/Alike.antt =====
-- net/Conn.cpp: what a connection keeps whatever is done with it.
use raft_server.Prelude.{
  Bool-cases, Option, drop, inl, inr, length, none, refl, some, subst, suc, sym, zero, ℕ, ◌==◌, ◌∙◌,
  ◌≡◌,
}
use raft_server.State.{Conn}
use raft_server.Redis.Logger.{done}
use raft_server.Net.Send.{after_send_result}
use raft_server.Eventloop.Channel.Mirror.{
  IsMirrored, Operation, no_write, operate, operate-IsMirrored,
}

-- The same object over the same fd, whose channel does not lose touch with epoll.
pub record Alike (c c' : Conn) : Type 0 where
  pub same_id : c'.id ≡ c.id
  pub same_fd : c'.fd ≡ c.fd
  pub mirrored : IsMirrored c.channel → IsMirrored c'.channel

pub Alike-channel :
    {c c' : Conn} → c'.id ≡ c.id → c'.fd ≡ c.fd → c'.channel ≡ c.channel → Alike c c'
Alike-channel i f e = record { same_id = i; same_fd = f; mirrored = subst IsMirrored (sym e) }

pub Alike-trans : {c d e : Conn} → Alike c d → Alike d e → Alike c e
Alike-trans p q = record {
  same_id = q.same_id ∙ p.same_id;
  same_fd = q.same_fd ∙ p.same_fd;
  mirrored = λ h. q.mirrored (p.mirrored h);
}

pub Alike-operate :
    (op : Operation) (c : Conn) → Alike c (record c { channel = operate op c.channel })
Alike-operate op c = record {
  same_id = refl;
  same_fd = refl;
  mirrored = operate-IsMirrored op c.channel;
}

pub after_send_result-Alike : (sent : Option ℕ) (c : Conn) → Alike c (after_send_result sent c)
after_send_result-Alike none c = Alike-channel refl refl refl
after_send_result-Alike (some zero) c = Alike-channel refl refl refl
after_send_result-Alike (some (suc n)) c =
    elim (Bool-cases (length (drop (suc n) c.out_buffer) == 0)) [
      | inl done ↦ rw done (
          Alike-trans (Alike-channel refl refl refl)
            (Alike-operate no_write (record c { out_buffer = drop (suc n) c.out_buffer })))
      | inr left ↦ rw left (Alike-channel refl refl refl)
    ]
