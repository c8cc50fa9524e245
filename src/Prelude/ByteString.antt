-- ===== src/Prelude/ByteString.antt =====
-- Go strings and byte slices: lists of bytes, each a number below 256.
use Prim.Native.Nat.{ℕ}
use Prim.Native.Char.{code}
use Prim.Native.String.{String}
use mathlib.Core.Path.{◌≡◌, refl}
use mathlib.Core.Logic.{◌↔◌, ◌≢◌}
use mathlib.Core.Bool.{Bool, true, false, ◌&&◌}
use mathlib.Core.List.{List, [], ◌∷◌}
use native.Mathlib.Omega.{arith}
use taskmq.Prelude.Tests.{◌==◌}

abbrev pub Bytes : Type 0
Bytes = List ℕ

-- The bytes of an ASCII literal.
abbrev pub codes : String → Bytes
codes String.[] = []
codes (String.◌∷◌ c s) = code c ∷ codes s

infix 50 ◌=b◌
unfoldable pub ◌=b◌ : Bytes → Bytes → Bool
[] =b [] = true
[] =b (y ∷ ys) = false
(x ∷ xs) =b [] = false
(x ∷ xs) =b (y ∷ ys) = (x == y) && (xs =b ys)

pub =b_iff : (a b : Bytes) → ((a =b b) ≡ true) ↔ (a ≡ b)
unfolding ◌=b◌
=b_iff [] [] = ((λ h. refl), (λ h. refl))
=b_iff [] (y ∷ ys) = ((λ h. cc), (λ h. cc))
=b_iff (x ∷ xs) [] = ((λ h. cc), (λ h. cc))
=b_iff (x ∷ xs) (y ∷ ys) = ground (arith, =b_iff xs ys)

pub =b_refl : (a : Bytes) → (a =b a) ≡ true
=b_refl a = (=b_iff a a).1 refl

pub =b_ne : (a b : Bytes) → a ≢ b → (a =b b) ≡ false
=b_ne a b h = ground (arith, =b_iff a b)
