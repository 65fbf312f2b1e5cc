-- ===== src/Nanoraft/Comparator.antt =====
-- nanoraft/RaftServer.cpp, `IndexComparator`: the order of the keys of the log in leveldb.
pub mod Order
use raft_server.Prelude.{
  Bool, Bytes, [], false, if◌then◌else◌, leb, ltb, min, minus_one, negsuc, pos, suc, true, zero, ℕ,
  ℤ, ◌&&◌, ◌*◌, ◌+◌, ◌-◌, ◌==◌, ◌^◌, ◌||◌, ◌∷◌,
}

-- what `>>` skips in front of an `int`
unfoldable pub skip_space : Bytes → Bytes
skip_space [] = []
skip_space (c ∷ cs) =
    let rest = skip_space cs in if c == 32 || (leb 9 c && leb c 13) then rest else c ∷ cs

-- the digits that follow, behind those that make `v`
unfoldable pub read_digits : ℕ → Bytes → ℕ
read_digits v [] = v
read_digits v (c ∷ cs) =
    let rest = read_digits (10 * v + (c - 48)) cs in if leb 48 c && leb c 57 then rest else v

abbrev pub int_max : ℕ
int_max = 2 ^ 31 - 1

abbrev negative : ℕ → ℤ
negative zero = pos 0
negative (suc n) = negsuc n

-- Behind the spaces: a sign or none, and digits. A number that does not fit becomes the largest or
-- the smallest `int`; without digits it is 0.
unfoldable pub read_signed : Bytes → ℤ
unfolding read_digits
read_signed [] = pos 0
read_signed (c ∷ cs) =
    if c == 45
    then negative (min (read_digits 0 cs) (int_max + 1))
    else if c == 43
    then pos (min (read_digits 0 cs) int_max)
    else pos (min (read_digits 0 (c ∷ cs)) int_max)

abbrev pub lt_ℤ : ℤ → ℤ → Bool
lt_ℤ (pos a) (pos b) = ltb a b
lt_ℤ (pos a) (negsuc b) = false
lt_ℤ (negsuc a) (pos b) = true
lt_ℤ (negsuc a) (negsuc b) = ltb b a

-- IndexComparator::Compare
unfoldable pub compare_keys : Bytes → Bytes → ℤ
unfolding skip_space read_signed
compare_keys a b =
    let i = read_signed (skip_space a) in
    let j = read_signed (skip_space b) in
    if lt_ℤ i j then minus_one else if lt_ℤ j i then pos 1 else pos 0
