-- ===== src/Nanoraft/Comparator/Order.antt =====
-- nanoraft/RaftServer.cpp, `IndexComparator`, on the keys that `std::to_string` makes of an index.
use raft_server.Prelude.{
  Bytes, [], ap, arith, digits, if◌then◌else◌, ltb, min, minus_one, pos, refl, subst, suc, sym,
  to_string, zero, ℕ, ℕ_discrete, ◌%◌, ◌+◌, ◌/◌, ◌<◌, ◌∙◌, ◌∷◌, ◌≡◌, ◌≤◌,
}
use raft_server.Nanoraft.Comparator.{compare_keys, int_max, read_digits, read_signed, skip_space}

-- Digits that were printed are read back.
read_digits-digits :
    (f n : ℕ) (acc : Bytes) → n < f → read_digits 0 (digits f n acc) ≡ read_digits n acc
unfolding read_digits digits
read_digits-digits zero n acc h = absurd (omega arith)
read_digits-digits (suc f) n acc h =
    ground (arith, read_digits-digits f (n / 10) ((48 + n % 10) ∷ acc))

StartsWithDigit : Bytes → Type 0
StartsWithDigit [] = ⊥
StartsWithDigit (c ∷ cs) = (48 ≤ c) × (c ≤ 57)

digits_start : (f n : ℕ) (acc : Bytes) → n < f → StartsWithDigit (digits f n acc)
unfolding digits StartsWithDigit
digits_start zero n acc h = absurd (omega arith)
digits_start (suc f) n acc h = elim (ℕ_discrete (n / 10) 0) [
  | yes e ↦
      let one : digits (suc f) n acc ≡ (48 + n % 10) ∷ acc = ground arith in
      subst StartsWithDigit (sym one) (omega arith, omega arith)
  | no e ↦
      let more : digits (suc f) n acc ≡ digits f (n / 10) ((48 + n % 10) ∷ acc) = ground arith in
      subst StartsWithDigit (sym more) (digits_start f (n / 10) ((48 + n % 10) ∷ acc) (omega arith))
]

read_signed_digit :
    (cs : Bytes)
    → StartsWithDigit cs
    → read_signed (skip_space cs) ≡ pos (min (read_digits 0 cs) int_max)
unfolding read_signed skip_space StartsWithDigit
read_signed_digit [] h = absurd h
read_signed_digit (c ∷ cs) h = ground arith

read_key : (n : ℕ) → read_signed (skip_space (to_string n)) ≡ pos (min n int_max)
unfolding to_string read_digits
read_key n =
    read_signed_digit (digits (suc n) n []) (digits_start (suc n) n [] (omega arith))
    ∙ ap (λ v. pos (min v int_max)) (read_digits-digits (suc n) n [] (omega arith))

-- The keys of two indices are ordered as the indices are, up to the largest `int`; from there on all
-- keys are the same to leveldb.
pub compare_keys-to_string :
    (i j : ℕ)
    → compare_keys (to_string i) (to_string j) ≡ (
        if ltb (min i int_max) (min j int_max)
        then minus_one
        else if ltb (min j int_max) (min i int_max)
        then pos 1
        else pos 0)
unfolding compare_keys
compare_keys-to_string i j = rw (read_key i, read_key j) refl

-- Different numbers are printed differently, as far as `int` reaches.
pub to_string-inj : (i j : ℕ) → i < int_max → j < int_max → to_string i ≡ to_string j → i ≡ j
to_string-inj i j b c e =
    let same : pos (min i int_max) ≡ pos (min j int_max) =
      sym (read_key i) ∙ ap (λ k. read_signed (skip_space k)) e ∙ read_key j in
    ground arith
