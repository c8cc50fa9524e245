-- ===== src/Tests/Limiting.antt =====
-- Runs of the limiter.
use taskmq.Prelude.{
  ◌=b◌, ◌≡◌, inr, refl, ap, Bytes, codes, All, [], ◌∷◌, some, none, arith, if◌then◌else◌,
}
use taskmq.Prelude.Int.{ℤ, pos, pos_part, scale, div_trunc, div_floor, ◌+ℤ◌, ◌-ℤ◌, ltb_ℤ, leb_ℤ}
use taskmq.Prelude.Decimal.{decimal, digits}
use taskmq.Prelude.Decimal.Parse.{scan, parse_int64, parse_int64-decimal}
use taskmq.Redis.Memory.{memory}
use taskmq.Redis.Memory.Lawful.{memory-Laws}
use taskmq.World.{run}
use taskmq.RateLimit.{Arithmetic, gcra_try_consume_script, check, try_consume, consumed}
use taskmq.RateLimit.Foretold.{Foretold, IsSame, IsHeld, IsToken, IsUnset, check-Foretold}
use taskmq.RateLimit.Bypass.{IsLostInterval, try_consume_times, try_consume_times-AllAdmitted}
use taskmq.Tests.Data.{steady, start}

-- Microseconds, written to a tenth of a millisecond.
abbrev microseconds : Arithmetic
microseconds = record {
  Num = ℤ;
  of_int = λ n. scale n 1000000;
  seconds = λ n. div_trunc n 1000;
  add = λ x y. x +ℤ y;
  sub = λ x y. x -ℤ y;
  mul = λ x y. div_trunc (scale x (pos_part y)) 1000000;
  div = λ x y. div_trunc (scale x 1000000) (pos_part y);
  max = λ x y. if leb_ℤ y x then x else y;
  less = ltb_ℤ;
  ceil = λ x. div_floor (x +ℤ pos 999999) 1000000;
  tonumber = λ s. some (parse_int64 s);
  tostring = λ x. decimal (scale (div_trunc (x +ℤ pos 50) 100) 100);
}

abbrev today : ℤ
today = pos 1700000000000000

-- 25000 tasks a second
lost : IsLostInterval microseconds (pos 25000) (pos 1000000000) today
lost = record {
  stored = today;
  read = ap (λ n. some n) (parse_int64-decimal today (omega arith));
  not_later = refl;
  same = refl;
  burst = refl;
  expiry = refl;
}

abbrev mail_limit : Bytes
mail_limit = codes "limit"

check-Foretold_example :
    Foretold
      (IsSame
        (pos 2)
        (pos 1000000000)
        (IsHeld microseconds memory (pos 2) (pos 1000000000) today none)
        (steady.net start.calls))
      (IsToken microseconds memory (pos 2) (pos 1000000000) today none)
      (IsUnset microseconds memory (pos 2) (pos 1000000000) today none)
      mail_limit
      start
      (check steady microseconds (λ n. today) mail_limit (pos 2) (pos 1000000000) start)
      (try_consume steady
        (gcra_try_consume_script microseconds (λ n. today) memory)
        mail_limit
        (pos 2)
        (pos 1000000000)
        start)
check-Foretold_example =
    check-Foretold steady microseconds (λ n. today) mail_limit (pos 2) (pos 1000000000) start

try_consume_times-AllAdmitted_example :
    All
      (λ r. r ≡ inr (pos 0))
      (try_consume_times steady
        (gcra_try_consume_script microseconds (λ n. today) memory)
        mail_limit
        (pos 25000)
        (pos 1000000000)
        30000
        start)
try_consume_times-AllAdmitted_example =
    try_consume_times-AllAdmitted steady memory-Laws (λ n. refl) microseconds today mail_limit
      (pos 25000) (pos 1000000000) lost 30000 start refl

-- Two tasks a second: the third at once waits for half a second.
third_waits :
    try_consume_times steady
      (gcra_try_consume_script microseconds (λ n. pos 1000000) memory)
      mail_limit
      (pos 2)
      (pos 1000000000)
      3
      start
    ≡ inr (pos 0) ∷ (inr (pos 0) ∷ (inr (pos 500000000) ∷ []))
unfolding try_consume_times try_consume run gcra_try_consume_script consumed parse_int64 scan
    decimal digits memory ◌=b◌
third_waits = refl
