-- ===== src/Prelude/Int.antt =====
-- `int` values that may be negative, and the casts between `int` and `uint32_t`.
use Prim.Native.Nat.{ℕ, suc, ◌-◌, ◌^◌}
use mathlib.Core.Bool.{Bool, false}
use raft_server.Prelude.Tests.{ltb, ◌==◌, if◌then◌else◌}

-- `negsuc n` is -(n + 1).
pub data ℤ : Type 0 where
  pos : ℕ → ℤ
  negsuc : ℕ → ℤ

abbrev pub minus_one : ℤ
minus_one = negsuc 0

abbrev pub eq_ℤ : ℤ → ℤ → Bool
eq_ℤ (pos a) (pos b) = a == b
eq_ℤ (negsuc a) (negsuc b) = a == b
eq_ℤ _ _ = false

-- `static_cast<int>` of a `uint32_t`, and back
abbrev pub to_int : ℕ → ℤ
to_int w = if ltb w (2 ^ 31) then pos w else negsuc (2 ^ 32 - w - 1)

abbrev pub to_uint32 : ℤ → ℕ
to_uint32 (pos n) = n
to_uint32 (negsuc n) = 2 ^ 32 - suc n
