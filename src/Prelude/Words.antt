-- ===== src/Prelude/Words.antt =====
-- `uint32_t` and `uint64_t` arithmetic, with its wrap-around, and little-endian fields of a buffer.
use Prim.Native.Nat.{ℕ, ◌+◌, ◌-◌, ◌/◌, ◌%◌, ◌^◌}
use mathlib.Core.List.{List, [], ◌∷◌}

abbrev pub Bytes : Type 0
Bytes = List ℕ

abbrev pub u32 : ℕ → ℕ
u32 n = n % 2 ^ 32

abbrev pub u64 : ℕ → ℕ
u64 n = n % 2 ^ 64

-- n - 1 on `uint64_t`
abbrev pub dec64 : ℕ → ℕ
dec64 n = (n + 2 ^ 64 - 1) % 2 ^ 64

-- the bytes of a `uint16_t` and of a `uint32_t` as `memcpy` copies them
abbrev pub le16 : ℕ → Bytes
le16 w = w % 256 ∷ w / 256 % 256 ∷ []

abbrev pub le32 : ℕ → Bytes
le32 w = w % 256 ∷ w / 256 % 256 ∷ w / 65536 % 256 ∷ w / 16777216 % 256 ∷ []
