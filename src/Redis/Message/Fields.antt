-- ===== src/Redis/Message/Fields.antt =====
-- eventloop/RedisChannel.cpp: the fields of a message that was put together with separators.
use raft_server.Prelude.{
  Bytes, [], ap, arith, drop, length, length-append, ok, refl, some, suc, take, take-append,
  take_all, zero, ℕ, ◌++◌, ◌+◌, ◌-◌, ◌<◌, ◌∙◌, ◌∷◌, ◌≡◌, ◌≢◌,
}
use raft_server.Nanoraft.Log.{c_string}
use raft_server.Redis.Message.{
  atoi_uint32, copy_field, find_char, next_separator, parse_msg, separator, sign_extend,
}

-- neither a separator nor a zero byte
abbrev pub IsField : Bytes → Type 0
IsField [] = Unit {0}
IsField (b ∷ bs) = ((b ≢ separator) × (b ≢ 0)) × IsField bs

find_char-append :
    (bs rest : Bytes)
    → IsField bs
    → find_char separator (bs ++ (separator ∷ rest)) ≡ some (length bs)
unfolding find_char
find_char-append [] rest h = refl
find_char-append (b ∷ bs) rest h = ground (arith, find_char-append bs rest h.1)

c_string_self : (bs : Bytes) → IsField bs → c_string bs ≡ bs
unfolding c_string
c_string_self [] h = refl
c_string_self (zero ∷ bs) h = absurd (h.0.1 refl)
c_string_self (suc b ∷ bs) h = ap (λ l. suc b ∷ l) (c_string_self bs h.1)

drop-past : (n k : ℕ) (xs ys : Bytes) → n ≡ length xs + k → drop n (xs ++ ys) ≡ drop k ys
drop-past n k [] ys e = ap (λ i. drop i ys) (omega (arith, e))
drop-past zero k (x ∷ xs) ys e = absurd (omega arith)
drop-past (suc n) k (x ∷ xs) ys e = drop-past n k xs ys (omega arith)

abbrev pub message : Bytes → Bytes → Bytes → Bytes
message id openid time = id ++ (separator ∷ (openid ++ (separator ∷ time)))

copy_field-ok :
    (size i j : ℕ) (s f : Bytes)
    → IsField f
    → j ≡ i + length f
    → length f < size
    → take (length f) (drop i s) ≡ f
    → copy_field size i j s ≡ ok f
unfolding copy_field
copy_field-ok size i j s f field e short taken =
    let n : j - i ≡ length f = omega (arith, e) in ground (arith, n, taken, c_string_self f field)

-- where the separators are
first_separator :
    (d : ℕ) (ds openid time : Bytes)
    → IsField (d ∷ ds)
    → next_separator 0 (message (d ∷ ds) openid time) ≡ length ds + 1
unfolding next_separator
first_separator d ds openid time i =
    ground (arith, find_char-append ds (openid ++ (separator ∷ time)) i.1)

second_separator :
    (n : ℕ) (id openid time : Bytes)
    → IsField openid
    → n ≡ length id
    → next_separator n (message id openid time) ≡ n + 1 + length openid
unfolding next_separator
second_separator n id openid time o e =
    let behind =
      drop-past (n + 1) 1 id (separator ∷ (openid ++ (separator ∷ time))) (omega (arith, e)) in
    ground (arith, behind, find_char-append openid time o)

parse_msg-fields :
    (s id openid time : Bytes) (a1 a2 : ℕ)
    → 0 < length s
    → next_separator 0 s ≡ a1
    → next_separator a1 s ≡ a2
    → copy_field 15 0 a1 s ≡ ok id
    → copy_field 40 (a1 + 1) a2 s ≡ ok openid
    → copy_field 15 (a2 + 1) (length s) s ≡ ok time
    → parse_msg s
      ≡ ok (record {
        openid = openid;
        expire_time = sign_extend (atoi_uint32 time);
        msg_id = atoi_uint32 id;
      })
unfolding parse_msg
parse_msg-fields s id openid time a1 a2 some_byte e1 e2 c1 c2 c3 = ground arith

-- A message of three fields that fit is taken apart into them: the number before the first
-- separator, the user's name behind it, and the time behind the second.
pub parse_msg-message :
    (d : ℕ) (ds openid time : Bytes)
    → IsField (d ∷ ds)
    → IsField openid
    → IsField time
    → length ds < 14
    → length openid < 40
    → length time < 15
    → parse_msg (message (d ∷ ds) openid time)
      ≡ ok (record {
        openid = openid;
        expire_time = sign_extend (atoi_uint32 time);
        msg_id = atoi_uint32 (d ∷ ds);
      })
parse_msg-message d ds openid time i o t a b c =
    let id = d ∷ ds in
    let s = message id openid time in
    let n = length ds + 1 in
    let m = n + 1 + length openid in
    let rest = openid ++ (separator ∷ time) in
    let second : drop (n + 1) s ≡ rest = drop-past (n + 1) 1 id (separator ∷ rest) (omega arith) in
    let third : drop (m + 1) s ≡ time =
      drop-past (m + 1) (suc (length openid + 1)) id (separator ∷ rest) (omega arith)
      ∙ drop-past (length openid + 1) 1 openid (separator ∷ time) refl in
    let all : length s ≡ m + 1 + length time =
      omega (arith, length-append id (separator ∷ rest), length-append openid (separator ∷ time)) in
    parse_msg-fields s id openid time n m (omega (arith, all)) (first_separator d ds openid time i)
      (second_separator n id openid time o (omega arith))
      (copy_field-ok 15 0 n s id i (omega arith) (omega arith) (take-append id (separator ∷ rest)))
      (copy_field-ok 40 (n + 1) m s openid o (omega arith) b
        (ap (λ l. take (length openid) l) second ∙ take-append openid (separator ∷ time)))
      (copy_field-ok 15 (m + 1) (length s) s time t all c
        (ap (λ l. take (length time) l) third ∙ take_all (length time) time (omega arith)))
