-- ===== src/Mod/Arrived/Frames.antt =====
-- mod/Mod.cpp: how the input is cut into messages, against how the messages are laid out.
use raft_server.Prelude.{
  Bytes, Fault, List, Option, Result, [], ap, append_assoc, arith, drop, drop-append, fault, inl,
  inr, length, length-append, length-drop, none, ok, refl, some, suc, take, take-append, zero, ℕ,
  ◌*◌, ◌++◌, ◌+◌, ◌<◌, ◌>>=◌, ◌^◌, ◌∷◌, ◌≡◌, ◌≤◌, ◌⊎◌,
}
use raft_server.Net.Send.{frame}
use raft_server.Mod.Arrived.{Arrived, cut_body, length_limit, cut}

pub record IsPosted (id : ℕ) (body : Bytes) : Type 0 where
  pub id_fits : id < 2 ^ 16
  pub body_fits : length body < length_limit

-- A frame in front of any bytes is cut off whole, and gives back the id and the body it was made of.
pub cut-frame :
    (id : ℕ) (body rest : Bytes)
    → IsPosted id body
    → cut (frame id body ++ rest) ≡ ok (some (record { id = id; body = body; rest = rest }))
unfolding cut
cut-frame id body rest fits =
    ground (arith, length-append body rest, take-append body rest, drop-append body rest)

take-append_left {ℓ} :
    {A : Type ℓ} (n : ℕ) (xs ys : List A) → n ≤ length xs → take n (xs ++ ys) ≡ take n xs
take-append_left zero xs ys h = refl
take-append_left (suc n) [] ys h = absurd (omega arith)
take-append_left (suc n) (x ∷ xs) ys h = ap (λ l. x ∷ l) (take-append_left n xs ys (omega arith))

drop-append_left {ℓ} :
    {A : Type ℓ} (n : ℕ) (xs ys : List A) → n ≤ length xs → drop n (xs ++ ys) ≡ drop n xs ++ ys
drop-append_left zero xs ys h = refl
drop-append_left (suc n) [] ys h = absurd (omega arith)
drop-append_left (suc n) (x ∷ xs) ys h = drop-append_left n xs ys (omega arith)

cut_body-append :
    (id len : ℕ) (buf more : Bytes) {m : Arrived}
    → cut_body id len buf ≡ ok (some m)
    → cut_body id len (buf ++ more) ≡ ok (some (record m { rest = m.rest ++ more }))
unfolding cut_body
cut_body-append id len buf more h =
    ground
      (arith, length-append buf more, take-append_left len buf more, drop-append_left len buf more)

-- Bytes that arrive later change nothing about a message that is complete.
pub cut-append :
    (buf more : Bytes) {m : Arrived}
    → cut buf ≡ ok (some m)
    → cut (buf ++ more) ≡ ok (some (record m { rest = m.rest ++ more }))
unfolding cut
cut-append (a ∷ b ∷ c ∷ d ∷ e ∷ f ∷ buf) more h = cut_body-append _ _ buf more h
cut-append _ more h = cc

-- A message that is cut off takes at least the six bytes of its header.
pub cut-shorter :
    (buf : Bytes) {m : Arrived} → cut buf ≡ ok (some m) → length m.rest + 6 ≤ length buf
unfolding cut cut_body
cut-shorter (a ∷ b ∷ c ∷ d ∷ e ∷ f ∷ buf) h =
    ground (arith, length-drop (c + 256 * d + 65536 * e + 16777216 * f) buf)
cut-shorter _ h = cc

-- The messages of a buffer and the bytes left, on fuel: what a connection has to handle.
unfoldable pub cut_all : ℕ → Bytes → Result (List (ℕ × Bytes) × Bytes)
cut_all zero buf = ok ([], buf)
cut_all (suc n) buf = cut buf >>= λ r. elim r [
  | none ↦ ok ([], buf)
  | some m ↦ cut_all n m.rest >>= λ t. ok ((m.id, m.body) ∷ t.0, t.1)
]

abbrev pub frames : List (ℕ × Bytes) → Bytes
frames [] = []
frames ((id, body) ∷ ms) = frame id body ++ frames ms

abbrev pub AllPosted : List (ℕ × Bytes) → Type 0
AllPosted [] = Unit {0}
AllPosted ((id, body) ∷ ms) = IsPosted id body × AllPosted ms

-- What one side posts, the other side cuts into the same messages, in the same order; what stands
-- behind them waits.
pub cut_all-frames :
    (n : ℕ) (ms : List (ℕ × Bytes)) (rest : Bytes)
    → length ms < n
    → AllPosted ms
    → cut rest ≡ ok none
    → cut_all n (frames ms ++ rest) ≡ ok (ms, rest)
unfolding cut_all
cut_all-frames zero ms rest h all left = absurd (omega arith)
cut_all-frames (suc n) [] rest h all left = rw left
cut_all-frames (suc n) ((id, body) ∷ ms) rest h all left = ground (
  arith,
  append_assoc (frame id body) (frames ms) rest,
  cut-frame id body (frames ms ++ rest) all.0,
  cut_all-frames n ms rest (omega arith) all.1 left,
)

abbrev pub CutCases : Result (Option Arrived) → Type 0
CutCases r = (r ≡ ok none) ⊎ (((m : Arrived) × (r ≡ ok (some m))) ⊎ ((e : Fault) × (r ≡ fault e)))

pub cut_cases : (r : Result (Option Arrived)) → CutCases r
cut_cases (ok none) = inl refl
cut_cases (ok (some m)) = inr (inl (m, refl))
cut_cases (fault e) = inr (inr (e, refl))

-- Fuel beyond the length of the buffer changes nothing: the loop ends by itself.
pub cut_all-fuel :
    (n k : ℕ) (buf : Bytes) → length buf < n → length buf < k → cut_all n buf ≡ cut_all k buf
unfolding cut_all
cut_all-fuel zero k buf h g = absurd (omega arith)
cut_all-fuel (suc n) zero buf h g = absurd (omega arith)
cut_all-fuel (suc n) (suc k) buf h g = elim (cut_cases (cut buf)) [
  | inl e ↦ rw e
  | inr (inl (m, e)) ↦
      let shorter = cut-shorter buf e in rw (e, cut_all-fuel n k m.rest (omega arith) (omega arith))
  | inr (inr (x, e)) ↦ rw e
]

-- the messages of an earlier arrival in front of those of a later one
abbrev pub prepend :
    List (ℕ × Bytes) → Result (List (ℕ × Bytes) × Bytes) → Result (List (ℕ × Bytes) × Bytes)
prepend ms r = r >>= λ t. ok (ms ++ t.0, t.1)

prepend-nil : (r : Result (List (ℕ × Bytes) × Bytes)) → prepend [] r ≡ r
prepend-nil (ok t) = refl
prepend-nil (fault e) = refl

-- one message in front
abbrev cons_message :
    ℕ × Bytes → Result (List (ℕ × Bytes) × Bytes) → Result (List (ℕ × Bytes) × Bytes)
cons_message x r = r >>= λ t. ok (x ∷ t.0, t.1)

prepend-cons :
    (x : ℕ × Bytes) (ms : List (ℕ × Bytes)) (r : Result (List (ℕ × Bytes) × Bytes))
    → cons_message x (prepend ms r) ≡ prepend (x ∷ ms) r
prepend-cons x ms (ok t) = refl
prepend-cons x ms (fault e) = refl

after_cons :
    (x : ℕ × Bytes) (r : Result (List (ℕ × Bytes) × Bytes)) (ms : List (ℕ × Bytes)) (rest : Bytes)
    → cons_message x r ≡ ok (ms, rest)
    → (tail : List (ℕ × Bytes)) × (r ≡ ok (tail, rest)) × (ms ≡ x ∷ tail)
after_cons x (ok t) ms rest h = (t.0, ground arith, ground arith)
after_cons x (fault e) ms rest h = cc

-- However a stream is split into arrivals, the messages are those of the whole stream.
pub cut_all-append :
    (f n j : ℕ) (buf more : Bytes) (ms : List (ℕ × Bytes)) (rest : Bytes)
    → length buf < f
    → length (buf ++ more) < n
    → length (rest ++ more) < j
    → cut_all f buf ≡ ok (ms, rest)
    → cut_all n (buf ++ more) ≡ prepend ms (cut_all j (rest ++ more))
unfolding cut_all
cut_all-append zero n j buf more ms rest hf hn hj h = absurd (omega arith)
cut_all-append (suc f) zero j buf more ms rest hf hn hj h = absurd (omega arith)
cut_all-append (suc f) (suc n) j buf more ms rest hf hn hj h = elim (cut_cases (cut buf)) [
  | inl e ↦
      ground (arith, cut_all-fuel (suc n) j (buf ++ more) hn, prepend-nil (cut_all j (buf ++ more)))
  | inr (inl (m, e)) ↦
      let (tail, p, q) = after_cons (m.id, m.body) (cut_all f m.rest) ms rest (rw e at h) in
      let shorter = cut-shorter buf e in
      let longer = cut-shorter (buf ++ more) (cut-append buf more e) in
      rw
        (
          cut-append buf more e,
          cut_all-append f n j m.rest more tail rest (omega arith) (omega arith) hj p,
          q,
        )
        (prepend-cons (m.id, m.body) tail (cut_all j (rest ++ more)))
  | inr (inr (x, e)) ↦ ground arith
]
