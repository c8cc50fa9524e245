-- ===== src/Prelude/Decimal/Parse.antt =====
-- `strconv.ParseInt(s, 10, 64)` and `strconv.Atoi(s)` with the error ignored, and that they read what
-- `FormatInt` writes.
use Prim.Native.Nat.{ℕ, zero, suc, ◌+◌, ◌-◌, ◌*◌, ◌/◌, ◌%◌, ◌^◌, ◌≤◌, ◌<◌}
use mathlib.Core.Path.{◌≡◌, refl, sym, ap, ◌∙◌}
use mathlib.Core.Bool.{◌||◌}
use mathlib.Core.List.{[], ◌∷◌, ◌++◌, append_assoc, append-nil}
use mathlib.Core.Option.{Option, none, some}
use native.Mathlib.Omega.{arith}
use taskmq.Prelude.ByteString.{Bytes}
use taskmq.Prelude.Int.{ℤ, pos, negsuc, IsInt64}
use taskmq.Prelude.Tests.{ltb, ◌==◌, if◌then◌else◌, if-split}
use taskmq.Prelude.Decimal.{digits, decimal}

-- `ParseUint`: `none` for a character that is no digit, and the greatest uint64 once that is passed.
unfoldable pub scan : ℕ → Bytes → Option ℕ
scan n [] = some n
scan n (c ∷ s) =
    let m = n * 10 + (c - b'0') in
    let rest = scan m s in
    if ltb c b'0' || ltb b'9' c
    then none
    else if ltb (2 ^ 64 - 1) m
    then some (2 ^ 64 - 1)
    else rest

abbrev pub unsigned : Bytes → Option ℕ
unsigned [] = none
unsigned (c ∷ s) = scan 0 (c ∷ s)

-- A syntax error gives 0, and a range error the bound.
abbrev pub positive : Option ℕ → ℤ
positive none = pos 0
positive (some n) = if ltb n (2 ^ 63) then pos n else pos (2 ^ 63 - 1)

abbrev pub negative : Option ℕ → ℤ
negative none = pos 0
negative (some zero) = pos 0
negative (some (suc n)) = if ltb n (2 ^ 63) then negsuc n else negsuc (2 ^ 63 - 1)

unfoldable pub parse_int64 : Bytes → ℤ
parse_int64 [] = pos 0
parse_int64 (c ∷ s) =
    if c == b'-'
    then negative (unsigned s)
    else if c == b'+'
    then positive (unsigned s)
    else positive (unsigned (c ∷ s))

-- Reading the last digit after those before it
scan_last : (n : ℕ) (s : Bytes) → n < 2 ^ 64 → scan (n / 10) ((b'0' + n % 10) ∷ s) ≡ scan n s
unfolding scan
scan_last n s h = ground arith

scan-digits :
    (fuel n : ℕ) (s : Bytes) → n < fuel → n < 2 ^ 64 → scan 0 (digits fuel n ++ s) ≡ scan n s
unfolding digits
scan-digits zero n s h fits = absurd (omega arith)
scan-digits (suc fuel) n s h fits =
    if-split (λ (r : Bytes). scan 0 (r ++ s) ≡ scan n s) (ltb n 10)
      (λ few. unfold scan in ground arith)
      (λ many.
        ap (scan 0) (append_assoc (digits fuel (n / 10)) ((b'0' + n % 10) ∷ []) s)
        ∙ scan-digits fuel (n / 10) ((b'0' + n % 10) ∷ s) (ground arith) (omega arith)
        ∙ scan_last n s fits)

-- A number's first character is a digit.
abbrev BeginsWithDigit : Bytes → Type 0
BeginsWithDigit s = (c : ℕ) × (r : Bytes) × (s ≡ c ∷ r) × (b'0' ≤ c)

begins_append : (s t : Bytes) → BeginsWithDigit s → BeginsWithDigit (s ++ t)
begins_append s t (c, r, e, h) = (c, r ++ t, ap (λ s. s ++ t) e, h)

digits-BeginsWithDigit : (fuel n : ℕ) → n < fuel → BeginsWithDigit (digits fuel n)
unfolding digits
digits-BeginsWithDigit zero n h = absurd (omega arith)
digits-BeginsWithDigit (suc fuel) n h =
    if-split BeginsWithDigit (ltb n 10) (λ few. (b'0' + n % 10, [], refl, omega arith))
      (λ many.
        begins_append (digits fuel (n / 10)) ((b'0' + n % 10) ∷ [])
          (digits-BeginsWithDigit fuel (n / 10) (ground arith)))

unsigned-digits : (fuel n : ℕ) → n < fuel → n < 2 ^ 64 → unsigned (digits fuel n) ≡ some n
unsigned-digits fuel n h fits = from_scan (digits fuel n) (digits-BeginsWithDigit fuel n h) (
    ap (scan 0) (sym (append-nil (digits fuel n)))
    ∙ scan-digits fuel n [] h fits
    ∙ (unfold scan in refl))
  where
    from_scan : (s : Bytes) → BeginsWithDigit s → scan 0 s ≡ some n → unsigned s ≡ some n
    from_scan s (c, r, e, _) h = rw e (rw e at h)

parse_digits : (s : Bytes) → BeginsWithDigit s → parse_int64 s ≡ positive (unsigned s)
unfolding parse_int64
parse_digits s (c, r, e, h) = rw e (ground arith)

-- Every int64 is read back from its decimal print.
pub parse_int64-decimal : (n : ℤ) → IsInt64 n → parse_int64 (decimal n) ≡ n
unfolding decimal
parse_int64-decimal (pos n) fits =
    parse_digits (digits (suc n) n) (digits-BeginsWithDigit (suc n) n (omega arith))
    ∙ ap positive (unsigned-digits (suc n) n (omega arith) (omega arith))
    ∙ ground arith
parse_int64-decimal (negsuc n) fits =
    unfold parse_int64 in
    (ap negative (unsigned-digits (suc (suc n)) (suc n) (omega arith) (omega arith)) ∙ ground arith)
