-- ===== src/Prelude/Decimal.antt =====
-- `std::to_string` of an unsigned number: its decimal digits as characters.
use Prim.Native.Nat.{ℕ, zero, suc, ◌+◌, ◌/◌, ◌%◌}
use mathlib.Core.List.{[], ◌∷◌}
use raft_server.Prelude.Tests.{◌==◌, if◌then◌else◌}
use raft_server.Prelude.Words.{Bytes}

-- The digits of n in front of `acc`; n + 1 rounds are enough, since n / 10 < n for 0 < n.
unfoldable pub digits : ℕ → ℕ → Bytes → Bytes
digits zero n acc = acc
digits (suc f) n acc =
    let c = 48 + n % 10 in
    let rest = digits f (n / 10) (c ∷ acc) in if n / 10 == 0 then c ∷ acc else rest

unfoldable pub to_string : ℕ → Bytes
unfolding digits
to_string n = digits (suc n) n []
