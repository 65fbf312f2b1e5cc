-- ===== src/Redis/Logger/Expired.antt =====
-- log/Logger.cpp against timer/Timer.cpp: the line that is printed before users expire.
use raft_server.Prelude.{
  >>=-eq-ok, Bytes, List, [], ap, append-nil, arith, drop, false, length, ok, refl, suc, sym, take,
  take-append, zero, ℕ, ◌++◌, ◌+◌, ◌-◌, ◌<◌, ◌∙◌, ◌∷◌, ◌≡◌, ◌≢◌,
}
use raft_server.Redis.Logger.{
  between, pre_expire, spaces, contains, done, openids_of, restore, scan, unwind, scan_line,
}

abbrev pub each_and_space : List Bytes → Bytes
each_and_space [] = []
each_and_space (id ∷ ids) = id ++ (32 ∷ each_and_space ids)

-- "pre:EXPIRE %s" of the names, each with a space behind it
abbrev pub expire_line : List Bytes → Bytes
expire_line ids = pre_expire ++ (32 ∷ each_and_space ids)

-- neither a space nor the end of a line
abbrev pub NoSpace : Bytes → Type 0
NoSpace [] = Unit {0}
NoSpace (b ∷ bs) = ((b ≢ 32) × (b ≢ 10)) × NoSpace bs

abbrev pub AllNoSpace : List Bytes → Type 0
AllNoSpace [] = Unit {0}
AllNoSpace (id ∷ ids) = NoSpace id × AllNoSpace ids

spaces-word :
    (k : ℕ) (id rest : Bytes)
    → NoSpace id
    → spaces k (id ++ (32 ∷ rest)) ≡ (k + length id) ∷ spaces (k + length id + 1) rest
unfolding spaces
spaces-word k [] rest h = ground arith
spaces-word k (b ∷ bs) rest h =
    let behind = spaces-word (k + 1) bs rest h.1 in
    let same : k + 1 + length bs ≡ k + suc (length bs) = omega arith in
    ground (arith, behind, same, h.0.0)

length-spaces :
    (k : ℕ) (ids : List Bytes)
    → AllNoSpace ids
    → length (spaces k (each_and_space ids)) ≡ length ids
unfolding spaces
length-spaces k [] h = refl
length-spaces k (id ∷ ids) h =
    ground
      (arith, spaces-word k id (each_and_space ids) h.0, length-spaces (k + length id + 1) ids h.1)

drop-nil : (m : ℕ) → drop {A = ℕ} m [] ≡ []
drop-nil zero = refl
drop-nil (suc m) = refl

drop-drop : (n m k : ℕ) (s : Bytes) → n ≡ k + m → drop n s ≡ drop m (drop k s)
drop-drop n m zero s e = ap (λ i. drop i s) (omega (arith, e))
drop-drop zero m (suc k) s e = absurd (omega arith)
drop-drop (suc n) m (suc k) [] e = sym (drop-nil m)
drop-drop (suc n) m (suc k) (b ∷ s) e = drop-drop n m k s (omega arith)

drop-word : (n : ℕ) (id rest : Bytes) → n ≡ length id + 1 → drop n (id ++ (32 ∷ rest)) ≡ rest
drop-word zero id rest e = absurd (omega arith)
drop-word (suc n) [] rest e = let start : n ≡ 0 = omega arith in ap (λ i. drop i rest) start
drop-word (suc n) (b ∷ id) rest e = drop-word n id rest (omega arith)

between-words :
    (line : Bytes) (a k : ℕ) (ids : List Bytes)
    → AllNoSpace ids
    → k ≡ a + 1
    → drop k line ≡ each_and_space ids
    → between line (a ∷ spaces k (each_and_space ids)) ≡ ids
unfolding between spaces
between-words line a k [] h e d = refl
between-words line a k (id ∷ ids) h e d =
    let b = k + length id in
    let rest = each_and_space ids in
    let width : b - a - 1 ≡ length id = omega (arith, e) in
    let word : take (b - a - 1) (drop (a + 1) line) ≡ id =
      cc (width, e, d, take-append id (32 ∷ rest)) in
    let behind : drop (b + 1) line ≡ rest =
      drop-drop (b + 1) (length id + 1) k line (omega arith)
      ∙ ap (λ l. drop (length id + 1) l) d
      ∙ drop-word (length id + 1) id rest refl in
    cc (spaces-word k id rest h.0, word, between-words line b (b + 1) ids h.1 refl behind)

-- The names that a line of at most nine was printed with are found in it again.
openids_of-expire_line :
    (ids : List Bytes) → AllNoSpace ids → length ids < 10 → openids_of (expire_line ids) ≡ ok ids
unfolding openids_of contains spaces
openids_of-expire_line ids h few =
    let words = between-words (expire_line ids) 10 11 ids h refl refl in
    let number = length-spaces 11 ids h in ground (arith, words, number)

scan-append :
    (xs ys : List Bytes) (stack : List Bytes) {stack' : List Bytes}
    → scan xs stack ≡ ok stack'
    → scan (xs ++ ys) stack ≡ scan ys stack'
unfolding scan
scan-append [] ys stack h = ground arith
scan-append (x ∷ xs) ys stack h =
    let (stack1, p, h1) = >>=-eq-ok (scan_line x stack) (scan xs) h in
    cc (p, scan-append xs ys stack1 h1)

-- A log in which everything that was begun was done, then the line that is printed before users
-- expire, and no more: a restart finds exactly these users, at most nine of them.
pub restore-expire_line :
    (log : List Bytes) (ids : List Bytes)
    → scan log [] ≡ ok []
    → AllNoSpace ids
    → length ids < 10
    → contains done (expire_line ids) ≡ false
    → restore (log ++ (expire_line ids ∷ [])) ≡ ok ids
unfolding restore scan scan_line unwind contains
restore-expire_line log ids closed h few begun =
    let line = expire_line ids in
    let found = openids_of-expire_line ids h few in
    let pushed : scan_line line [] ≡ ok (line ∷ []) = ground arith in
    let scanned : scan (log ++ (line ∷ [])) [] ≡ ok (line ∷ []) =
      scan-append log (line ∷ []) [] closed ∙ cc (pushed) in
    cc (scanned, found, append-nil ids)
