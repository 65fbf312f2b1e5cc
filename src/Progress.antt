-- ===== src/Progress.antt =====
-- What no step of the program takes back: a relation between the server before and after.
pub mod Handlers
pub mod Steps
use raft_server.Prelude.{
  Extends, Extends-refl, Extends-trans, [], ap, false, refl, subst, sym, ◌∙◌, ◌≡◌,
}
use raft_server.State.{RaftServer}
use raft_server.Nanoraft.Proxy.{is_candidate}

-- The log only grows at its end, the deque `m_stLogs_` is never filled, nothing is applied, no vote
-- is given, and nobody becomes a candidate.
pub record Progress (s t : RaftServer) : Type 0 where
  pub entries : Extends s.entries t.entries
  pub logs : s.logs ≡ [] → t.logs ≡ []
  pub applied : t.last_applied ≡ s.last_applied
  pub voted : t.voted_for ≡ s.voted_for
  pub role : is_candidate s.role ≡ false → is_candidate t.role ≡ false

pub Progress-refl : (s : RaftServer) → Progress s s
Progress-refl s = record {
  entries = Extends-refl s.entries;
  logs = λ h. h;
  applied = refl;
  voted = refl;
  role = λ h. h;
}

pub Progress-trans : {s t u : RaftServer} → Progress s t → Progress t u → Progress s u
Progress-trans {s} {t} {u} p q = record {
  entries = Extends-trans s.entries t.entries u.entries p.entries q.entries;
  logs = λ h. q.logs (p.logs h);
  applied = q.applied ∙ p.applied;
  voted = q.voted ∙ p.voted;
  role = λ h. q.role (p.role h);
}

-- A step that leaves all of these fields as they are.
pub Progress-same :
    {s t : RaftServer}
    → t.entries ≡ s.entries
    → t.logs ≡ s.logs
    → t.last_applied ≡ s.last_applied
    → t.voted_for ≡ s.voted_for
    → t.role ≡ s.role
    → Progress s t
Progress-same {s} {t} e l a v r = record {
  entries = subst (Extends s.entries) (sym e) (Extends-refl s.entries);
  logs = λ h. l ∙ h;
  applied = a;
  voted = v;
  role = λ h. ap is_candidate r ∙ h;
}

pub Progress-frame :
    {s t : RaftServer}
    → t ≡ record s {
      conns = t.conns;
      net = t.net;
      proxies = t.proxies;
      timers = t.timers;
      next_conn = t.next_conn;
      current_term = t.current_term;
      state_db = t.state_db;
      entries_db = t.entries_db;
      commit_index = t.commit_index;
    }
    → Progress s t
Progress-frame h = Progress-same (cc) (cc) (cc) (cc) (cc)
