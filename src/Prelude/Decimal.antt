-- ===== src/Prelude/Decimal.antt =====
-- `strconv.FormatInt(n, 10)` and `%d`.
pub mod Parse
use Prim.Native.Nat.{ℕ, zero, suc, ◌+◌, ◌/◌, ◌%◌}
use mathlib.Core.List.{[], ◌∷◌, ◌++◌}
use taskmq.Prelude.ByteString.{Bytes}
use taskmq.Prelude.Int.{ℤ, pos, negsuc}
use taskmq.Prelude.Tests.{ltb, if◌then◌else◌}

-- A number has fewer digits than `suc n`.
unfoldable pub digits : ℕ → ℕ → Bytes
digits zero n = []
digits (suc fuel) n =
    let rest = digits fuel (n / 10) in
    let last = b'0' + n % 10 in if ltb n 10 then last ∷ [] else rest ++ (last ∷ [])

unfoldable pub decimal : ℤ → Bytes
unfolding digits
decimal (pos n) = digits (suc n) n
decimal (negsuc n) = b'-' ∷ digits (suc (suc n)) (suc n)
