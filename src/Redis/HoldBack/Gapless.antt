-- ===== src/Redis/HoldBack/Gapless.antt =====
-- eventloop/RedisChannel.cpp: what the subscription has handed on, whatever the order of arrival.
use raft_server.Prelude.{
  List, [], arith, dec_lt, false, length, map, refl, some, subst, suc, sym, true, ℕ, ℕ_discrete,
  ◌+◌, ◌<◌, ◌^◌, ◌||◌, ◌∙◌, ◌∷◌, ◌≡◌, ◌≢◌, ◌≤◌,
}
use raft_server.Redis.HoldBack.Order.{AllSmall, Follows, holds, catch_up-CaughtUp, elem, seq_small}
use raft_server.Redis.HoldBack.{
  HoldBack, Msg, add_to_hold_back_queue, hold_or_drop, take_msg, catch_up,
}
use raft_server.Map.{find-insert, find}

-- the state between two messages
record Steady (ids : List ℕ) (h : HoldBack) : Type 0 where
  follows : Follows ids h
  waits : holds (h.seq + 1) h.queue ≡ false

AllSmall-tail : (id : ℕ) (ids : List ℕ) → AllSmall (id ∷ ids) → AllSmall ids
AllSmall-tail id ids small i e = small i (ground arith)

head_Follows :
    (id : ℕ) (ids : List ℕ) (h : HoldBack)
    → h.seq + 1 ≡ id
    → Follows ids h
    → Follows (id ∷ ids) (record h { seq = h.seq + 1 })
head_Follows id ids h e f = record {
  come = λ i p q. elim (ℕ_discrete i id) [
    | yes same ↦ ground arith
    | no other ↦ ground (arith, f.come i p (omega arith))
  ];
  held = λ i p. ground (arith, f.held i (omega arith));
}

held_Steady :
    (m : Msg) (ids : List ℕ) (h : HoldBack)
    → h.seq + 1 < m.msg_id
    → Steady ids h
    → Steady (m.msg_id ∷ ids) (add_to_hold_back_queue m.msg_id m h)
held_Steady m ids h ahead st = record {
  follows = record {
    come = λ i p q. ground (arith, st.follows.come i p q);
    held = λ i p. ground (arith, st.follows.held i p, find-insert m.msg_id i (some m) h.queue);
  };
  waits = ground (arith, st.waits, find-insert m.msg_id (h.seq + 1) (some m) h.queue);
}

dropped_Steady :
    (id : ℕ) (ids : List ℕ) (h : HoldBack) → id ≤ h.seq → Steady ids h → Steady (id ∷ ids) h
dropped_Steady id ids h old st = record {
  follows = record {
    come = λ i p q. ground (arith, st.follows.come i p q);
    held = λ i p. ground (arith, st.follows.held i p);
  };
  waits = st.waits;
}

hold_or_drop_drops :
    (m : Msg) (h : HoldBack) → h.seq + 1 < 2 ^ 32 → m.msg_id ≤ h.seq → hold_or_drop m h ≡ h
unfolding hold_or_drop
hold_or_drop_drops m h b old = ground arith

hold_or_drop_holds :
    (m : Msg) (h : HoldBack)
    → h.seq + 1 < 2 ^ 32
    → h.seq + 1 < m.msg_id
    → hold_or_drop m h ≡ add_to_hold_back_queue m.msg_id m h
unfolding hold_or_drop
hold_or_drop_holds m h b ahead = ground arith

take_msg_other :
    (m : Msg) (h : HoldBack)
    → h.seq + 1 < 2 ^ 32
    → h.seq + 1 ≢ m.msg_id
    → take_msg m h ≡ hold_or_drop m h
unfolding take_msg
take_msg_other m h b other = ground arith

-- the next message: it is handed on, then those that were held back
take_msg_next :
    (m : Msg) (h h' : HoldBack)
    → h.seq + 1 < 2 ^ 32
    → h.seq + 1 ≡ m.msg_id
    → catch_up (suc (length h.queue)) (record h { seq = h.seq + 1 }) ≡ h'
    → h'.seq + 1 < 2 ^ 32
    → m.msg_id ≤ h'.seq
    → take_msg m h ≡ h'
unfolding take_msg hold_or_drop
take_msg_next m h h' b e c b' further = ground arith

take_msg-Steady :
    (m : Msg) (ids : List ℕ) (h : HoldBack)
    → AllSmall (m.msg_id ∷ ids)
    → Steady ids h
    → Steady (m.msg_id ∷ ids) (take_msg m h)
take_msg-Steady m ids h small st = elim (ℕ_discrete (h.seq + 1) m.msg_id) [
  | yes e ↦
      let b = seq_small ids h (AllSmall-tail m.msg_id ids small) st.follows in
      let f = head_Follows m.msg_id ids h e st.follows in
      let done =
        catch_up-CaughtUp (m.msg_id ∷ ids) (suc (length h.queue)) (record h { seq = h.seq + 1 })
          small f (omega arith) in
      let h' = catch_up (suc (length h.queue)) (record h { seq = h.seq + 1 }) in
      let same =
        take_msg_next m h h' b e refl (seq_small (m.msg_id ∷ ids) h' small done.follows)
          (omega (arith, done.further)) in
      subst (Steady (m.msg_id ∷ ids)) (sym same)
        (record { follows = done.follows; waits = done.waits })
  | no other ↦
      let b = seq_small ids h (AllSmall-tail m.msg_id ids small) st.follows in
      elim (dec_lt (h.seq + 1) m.msg_id) [
        | yes ahead ↦
            subst (Steady (m.msg_id ∷ ids))
              (sym (take_msg_other m h b other ∙ hold_or_drop_holds m h b ahead))
              (held_Steady m ids h ahead st)
        | no behind ↦
            let old : m.msg_id ≤ h.seq = omega arith in
            subst (Steady (m.msg_id ∷ ids))
              (sym (take_msg_other m h b other ∙ hold_or_drop_drops m h b old))
              (dropped_Steady m.msg_id ids h old st)
      ]
]

-- the messages of a subscription, the first one first
unfoldable pub take_all_msgs : List Msg → HoldBack → HoldBack
take_all_msgs [] h = h
take_all_msgs (m ∷ ms) h = take_all_msgs ms (take_msg m h)

-- the numbers that have come, the last one first
seen : List Msg → List ℕ → List ℕ
seen [] ids = ids
seen (m ∷ ms) ids = seen ms (m.msg_id ∷ ids)

abbrev pub numbers : List Msg → List ℕ
numbers ms = map (λ m. m.msg_id) ms

elem-seen :
    (i : ℕ) (ms : List Msg) (ids : List ℕ)
    → elem i (seen ms ids) ≡ (elem i ids || elem i (numbers ms))
unfolding seen
elem-seen i [] ids = ground arith
elem-seen i (m ∷ ms) ids = ground (arith, elem-seen i ms (m.msg_id ∷ ids))

elem-seen-old :
    (i : ℕ) (ms : List Msg) (ids : List ℕ) → elem i ids ≡ true → elem i (seen ms ids) ≡ true
elem-seen-old i ms ids e = ground (arith, elem-seen i ms ids)

take_all_msgs-Steady :
    (ms : List Msg) (ids : List ℕ) (h : HoldBack)
    → AllSmall (seen ms ids)
    → Steady ids h
    → Steady (seen ms ids) (take_all_msgs ms h)
unfolding take_all_msgs seen
take_all_msgs-Steady [] ids h small st = st
take_all_msgs-Steady (m ∷ ms) ids h small st =
    take_all_msgs-Steady ms (m.msg_id ∷ ids) (take_msg m h) small
      (take_msg-Steady m ids h (λ i e. small i (elem-seen-old i ms (m.msg_id ∷ ids) e)) st)

-- the state in which a channel begins
abbrev pub fresh : HoldBack
fresh = record { seq = 0; queue = [] }

-- Messages 1 to `n` have come, and message n + 1 has not.
abbrev pub IsGapless : List ℕ → ℕ → Type 0
IsGapless ids n = ((i : ℕ) → 0 < i → i ≤ n → elem i ids ≡ true) × (elem (n + 1) ids ≡ false)

fresh-Steady : Steady [] fresh
unfolding find
fresh-Steady = record {
  follows = record { come = λ i p q. absurd (omega arith); held = λ i p. refl };
  waits = refl;
}

elem-seen-nil : (i : ℕ) (ms : List Msg) → elem i (seen ms []) ≡ elem i (numbers ms)
elem-seen-nil i ms = ground (arith, elem-seen i ms [])

-- In whatever order the messages of a subscription come, with repetitions or not: the channel has
-- handed on messages 1 to `seq`, all of which have come, and message seq + 1 has not. The numbers
-- leave room for the next one in 32 bits.
pub take_all_msgs-IsGapless :
    (ms : List Msg) → AllSmall (numbers ms) → IsGapless (numbers ms) (take_all_msgs ms fresh).seq
take_all_msgs-IsGapless ms small =
    let h = take_all_msgs ms fresh in
    let st =
      take_all_msgs-Steady ms [] fresh (λ i e. small i (sym (elem-seen-nil i ms) ∙ e))
        fresh-Steady in
    (
      λ i p q. sym (elem-seen-nil i ms) ∙ st.follows.come i p q,
      ground (arith, elem-seen-nil (h.seq + 1) ms, st.waits, st.follows.held (h.seq + 1)),
    )
