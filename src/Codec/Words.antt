-- ===== src/Codec/Words.antt =====
-- Big-endian numbers of internal/taskmq/codec/codec.go: what is put is what is got.
use native.Mathlib.Nat.{pow-suc}
use taskmq.Prelude.{
  ℕ, zero, suc, ◌+◌, ◌*◌, ◌/◌, ◌%◌, ◌^◌, ◌<◌, ◌≡◌, refl, Bytes, [], ◌∷◌, ◌++◌, length, arith,
  length-append,
}
use taskmq.Codec.{put_be, get_be}

pub length-put_be : (k n : ℕ) → length (put_be k n) ≡ k
unfolding put_be
length-put_be zero n = refl
length-put_be (suc k) n =
    omega (arith, length-append (put_be k (n / 256)) (n % 256 ∷ []), length-put_be k (n / 256))

get_be-append :
    (acc : ℕ) (xs : Bytes) (b : ℕ) → get_be acc (xs ++ (b ∷ [])) ≡ get_be acc xs * 256 + b
unfolding get_be
get_be-append acc [] b = refl
get_be-append acc (x ∷ xs) b = get_be-append (acc * 256 + x) xs b

pub get_be-put_be : (k n : ℕ) → n < 256 ^ k → get_be 0 (put_be k n) ≡ n
unfolding put_be get_be
get_be-put_be zero n h = omega arith
get_be-put_be (suc k) n h = omega (
  arith,
  pow-suc 256 k,
  get_be-append 0 (put_be k (n / 256)) (n % 256),
  get_be-put_be k (n / 256) (omega (arith, pow-suc 256 k)),
)
