-- ===== src/Redis/Message.antt =====
-- eventloop/RedisChannel.cpp, `RedisSubMsgCallback`: the three fields of a message.
pub mod Fields
use raft_server.Prelude.{
  Bytes, Option, Result, [], bad_index, drop, fault, if◌then◌else◌, leb, length, ltb, none, ok,
  overflow, some, suc, take, u32, ℕ, ◌+◌, ◌-◌, ◌==◌, ◌>>=◌, ◌^◌, ◌||◌, ◌∷◌,
}
use raft_server.Redis.HoldBack.{Msg}
use raft_server.Nanoraft.Log.{c_string}
use raft_server.Nanoraft.Comparator.{read_digits, skip_space}

-- strchr: how far the first such character is
unfoldable pub find_char : ℕ → Bytes → Option ℕ
find_char c [] = none
find_char c (b ∷ bs) =
    let rest = find_char c bs in
    if b == c
    then some 0
    else if b == 0
    then none
    else elim rest [ none ↦ none | some k ↦ some (suc k) ]

-- '_'
abbrev pub separator : ℕ
separator = 95

-- A round of the loop that looks for a separator behind `n`; `n` stays where there is none.
unfoldable pub next_separator : ℕ → Bytes → ℕ
unfolding find_char
next_separator n s = elim (find_char separator (drop (n + 1) s)) [ none ↦ n | some k ↦ n + 1 + k ]

-- strncpy of the bytes from `i` up to `j` into an array of `size` zeros, which is then read as a C
-- string. A count below 0 is a huge `size_t`; a string that fills the array has no end.
unfoldable pub copy_field : ℕ → ℕ → ℕ → Bytes → Result Bytes
copy_field size i j s =
    let field = c_string (take (j - i) (drop i s)) in
    if ltb j i || ltb size (j - i) || leb size (length field) then fault overflow else ok field

-- `static_cast<uint32_t>(::atoi(…))` of at most 14 characters, where `long` has 64 bits
unfoldable pub atoi_uint32 : Bytes → ℕ
atoi_uint32 s = atoi_behind (skip_space s)
  where
    atoi_behind : Bytes → ℕ
    atoi_behind [] = 0
    atoi_behind (c ∷ cs) =
        if c == 45
        then u32 (2 ^ 32 - u32 (read_digits 0 cs))
        else if c == 43
        then u32 (read_digits 0 cs)
        else u32 (read_digits 0 (c ∷ cs))

-- an `int`, given by its 32 bits, as a `uint64_t`
abbrev pub sign_extend : ℕ → ℕ
sign_extend w = if ltb w (2 ^ 31) then w else 2 ^ 64 - 2 ^ 32 + w

-- The message in a string. The search begins behind the first character; an empty string has none.
unfoldable pub parse_msg : Bytes → Result Msg
unfolding next_separator copy_field atoi_uint32
parse_msg s = if length s == 0 then fault bad_index else do
  let a1 = next_separator 0 s
  let a2 = next_separator a1 s
  id ← copy_field 15 0 a1 s
  openid ← copy_field 40 (a1 + 1) a2 s
  time ← copy_field 15 (a2 + 1) (length s) s
  ok (record {
    openid = openid;
    expire_time = sign_extend (atoi_uint32 time);
    msg_id = atoi_uint32 id;
  })
