-- ===== src/Worker/Delivery.antt =====
-- The values of a message in internal/taskmq/worker/process.go: its payload and its delivery count.
use taskmq.Prelude.{
  ℕ, ◌+◌, ◌-◌, ◌*◌, ◌^◌, Bytes, ◌&&◌, leb, ltb, [], ◌∷◌, if◌then◌else◌, ◌==◌, Option, none, some,
}
use taskmq.Prelude.Int.{ℤ, pos, ltb_ℤ, ◌-ℤ◌, sub_ℕ}
use taskmq.Task.{Task}

-- A value of `redis.XMessage.Values`; a float64 is given as its truncation to int64, and `other` is
-- nil or of another type.
pub data Value : Type 0 where
  byte_slice string : Bytes → Value
  int64 int float64 : ℤ → Value
  other : Value

-- `delivery_count` is `none` where the key `__delivery_count` is missing.
pub record Message : Type 0 where
  pub id : ℕ
  pub task : Value
  pub payload : Value
  pub delivery_count : Option Value

unfoldable pub value_as_bytes : Value → Option Bytes
value_as_bytes (byte_slice b) = some b
value_as_bytes (string b) = some b
value_as_bytes _ = none

unfoldable pub extract_message_payload : Message → Option Bytes
unfolding value_as_bytes
extract_message_payload m = elim (value_as_bytes m.task) [
  | some b ↦ some b
  | none ↦ value_as_bytes m.payload
]

-- `strconv.ParseInt(s, 10, 64)`, with `none` for an error
parse_digits : ℕ → Bytes → Option ℕ
parse_digits acc [] = some acc
parse_digits acc (d ∷ ds) =
    let rest = parse_digits (acc * 10 + (d - 48)) ds in if leb 48 d && leb d 57 then rest else none

abbrev parse_natural : Bytes → Option ℕ
parse_natural [] = none
parse_natural (d ∷ ds) = parse_digits 0 (d ∷ ds)

abbrev in_range : Option ℕ → Option ℤ
in_range none = none
in_range (some n) = if ltb n (2 ^ 63) then some (pos n) else none

abbrev in_range_negated : Option ℕ → Option ℤ
in_range_negated none = none
in_range_negated (some n) = if leb n (2 ^ 63) then some (sub_ℕ 0 n) else none

unfoldable pub parse_int : Bytes → Option ℤ
unfolding parse_digits
parse_int [] = none
parse_int (d ∷ ds) =
    if d == 45
    then in_range_negated (parse_natural ds)
    else if d == 43
    then in_range (parse_natural ds)
    else in_range (parse_natural (d ∷ ds))

unfoldable pub delivery_count_of : Value → Option ℤ
delivery_count_of (int64 n) = some n
delivery_count_of (int n) = some n
delivery_count_of (float64 n) = some n
delivery_count_of (string b) = parse_int b
delivery_count_of (byte_slice b) = parse_int b
delivery_count_of other = none

unfoldable pub apply_delivery_count : Task → Message → Task
apply_delivery_count t m = elim m.delivery_count [
  | none ↦ t
  | some v ↦ (elim (delivery_count_of v) [
    | none ↦ t
    | some n ↦ (if ltb_ℤ (pos 0) n then record t { retry = n -ℤ pos 1 } else t)
  ])
]
