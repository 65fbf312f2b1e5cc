-- ===== src/Redis/HoldBack/Order.antt =====
-- eventloop/RedisChannel.cpp: the hold-back queue against the numbers of the messages that came.
use raft_server.Prelude.{
  Bool, Bool-cases, List, Option, [], arith, dec_lt, false, inl, inr, length, none, refl, some,
  subst, suc, sym, true, zero, ℕ, ℕ_discrete, ◌+◌, ◌<◌, ◌==◌, ◌^◌, ◌||◌, ◌∷◌, ◌≡◌, ◌≤◌,
}
use raft_server.Map.{Map, find, erase, insert, find-erase, find-insert}
use raft_server.Redis.HoldBack.{HoldBack, Msg, catch_up, hold_back_queue_msg_by}

abbrev pub elem : ℕ → List ℕ → Bool
elem i [] = false
elem i (j ∷ js) = i == j || elem i js

-- A message of this number is held back.
abbrev pub holds : ℕ → Map (Option Msg) → Bool
holds id q = elim (find id q) [ none ↦ false | some m ↦ elim m [ none ↦ false | some x ↦ true ] ]

-- Up to `seq` every message has come, and behind it exactly those that have come are held back.
pub record Follows (ids : List ℕ) (h : HoldBack) : Type 0 where
  pub come : (i : ℕ) → 0 < i → i ≤ h.seq → elem i ids ≡ true
  pub held : (i : ℕ) → h.seq < i → holds i h.queue ≡ elem i ids

-- The numbers leave room for the next one in 32 bits.
abbrev pub AllSmall : List ℕ → Type 0
AllSmall ids = (i : ℕ) → elem i ids ≡ true → i + 1 < 2 ^ 32

-- What the loop keeps, and where it stops: the next message has not come.
pub record CaughtUp (ids : List ℕ) (n : ℕ) (h : HoldBack) : Type 0 where
  pub follows : Follows ids h
  pub waits : holds (h.seq + 1) h.queue ≡ false
  pub further : n ≤ h.seq

length-erase-le : {V : Type 0} (k : ℕ) (q : Map V) → length (erase k q) ≤ length q
unfolding erase
length-erase-le k [] = omega arith
length-erase-le k ((j, w) ∷ q) = ground (arith, length-erase-le k q)

length-erase-lt :
    {V : Type 0} (k : ℕ) (v : V) (q : Map V) → find k q ≡ some v → length (erase k q) < length q
unfolding erase find
length-erase-lt k v [] h = ground arith
length-erase-lt k v ((j, w) ∷ q) h = ground (arith, length-erase-le k q, length-erase-lt k v q)

pub seq_small : (ids : List ℕ) (h : HoldBack) → AllSmall ids → Follows ids h → h.seq + 1 < 2 ^ 32
seq_small ids h small f = elim (dec_lt 0 h.seq) [
  | yes p ↦ small h.seq (f.come h.seq p (omega arith))
  | no p ↦ omega arith
]

pub catch_up_found :
    (n : ℕ) (r : Option (Option Msg)) (h : HoldBack)
    → h.seq + 1 < 2 ^ 32
    → (length h.queue == 0) ≡ false
    → find (h.seq + 1) h.queue ≡ r
    → catch_up (suc n) h ≡ elim r [
      | none ↦ record h { queue = insert (h.seq + 1) none h.queue }
      | some m ↦ elim m [
        | none ↦ h
        | some x ↦ catch_up n (record h { queue = erase (h.seq + 1) h.queue; seq = h.seq + 1 })
      ]
    ]
unfolding catch_up hold_back_queue_msg_by
catch_up_found n none h b more e = ground arith
catch_up_found n (some none) h b more e = ground arith
catch_up_found n (some (some m)) h b more e = ground arith

pub catch_up_empty : (n : ℕ) (h : HoldBack) → (length h.queue == 0) ≡ true → catch_up (suc n) h ≡ h
unfolding catch_up
catch_up_empty n h empty = ground arith

holds_empty : (i : ℕ) (q : Map (Option Msg)) → (length q == 0) ≡ true → holds i q ≡ false
unfolding find
holds_empty i [] h = refl
holds_empty i (x ∷ q) h = ground arith

-- one more message of the queue handed on
next_Follows :
    (ids : List ℕ) (m : Msg) (h : HoldBack)
    → Follows ids h
    → find (h.seq + 1) h.queue ≡ some (some m)
    → Follows ids (record h { queue = erase (h.seq + 1) h.queue; seq = h.seq + 1 })
next_Follows ids m h f e = record {
  come = λ i p q. elim (ℕ_discrete i (h.seq + 1)) [
    | yes same ↦ ground (arith, f.held (h.seq + 1) (omega arith))
    | no other ↦ f.come i p (omega arith)
  ];
  held = λ i p. ground (arith, f.held i (omega arith), find-erase (h.seq + 1) i h.queue);
}

missed_Follows :
    (ids : List ℕ) (h : HoldBack)
    → Follows ids h
    → find (h.seq + 1) h.queue ≡ none
    → Follows ids (record h { queue = insert (h.seq + 1) none h.queue })
missed_Follows ids h f e = record {
  come = f.come;
  held = λ i p. ground (arith, f.held i p, find-insert (h.seq + 1) i none h.queue);
}

-- a round of the loop, with what the rounds behind it do
round-CaughtUp :
    (ids : List ℕ) (n : ℕ) (r : Option (Option Msg)) (h : HoldBack)
    → h.seq + 1 < 2 ^ 32
    → Follows ids h
    → length h.queue < suc n
    → (length h.queue == 0) ≡ false
    → find (h.seq + 1) h.queue ≡ r
    → ((h' : HoldBack) → Follows ids h' → length h'.queue < n → CaughtUp ids h'.seq (catch_up n h'))
    → CaughtUp ids h.seq (catch_up (suc n) h)
round-CaughtUp ids n none h b f l more e next =
    subst (CaughtUp ids h.seq) (sym (catch_up_found n none h b more e)) (record {
      follows = missed_Follows ids h f e;
      waits = ground (arith, find-insert (h.seq + 1) (h.seq + 1) none h.queue);
      further = omega arith;
    })
round-CaughtUp ids n (some none) h b f l more e next =
    subst (CaughtUp ids h.seq) (sym (catch_up_found n (some none) h b more e))
      (record { follows = f; waits = ground arith; further = omega arith })
round-CaughtUp ids n (some (some m)) h b f l more e next =
    let h' = record h { queue = erase (h.seq + 1) h.queue; seq = h.seq + 1 } in
    let shorter = length-erase-lt (h.seq + 1) (some m) h.queue e in
    let rest = next h' (next_Follows ids m h f e) (omega arith) in
    subst (CaughtUp ids h.seq) (sym (catch_up_found n (some (some m)) h b more e))
      (record { follows = rest.follows; waits = rest.waits; further = omega (arith, rest.further) })

pub catch_up-CaughtUp :
    (ids : List ℕ) (n : ℕ) (h : HoldBack)
    → AllSmall ids
    → Follows ids h
    → length h.queue < n
    → CaughtUp ids h.seq (catch_up n h)
catch_up-CaughtUp ids zero h small f l = absurd (omega arith)
catch_up-CaughtUp ids (suc n) h small f l = elim (Bool-cases (length h.queue == 0)) [
  | inl empty ↦
      subst (CaughtUp ids h.seq) (sym (catch_up_empty n h empty)) (record {
        follows = f;
        waits = holds_empty (h.seq + 1) h.queue empty;
        further = omega arith;
      })
  | inr more ↦
      round-CaughtUp ids n (find (h.seq + 1) h.queue) h (seq_small ids h small f) f l more refl
        (λ h'. catch_up-CaughtUp ids n h' small)
]
