-- ===== src/Codec.antt =====
-- internal/taskmq/codec/codec.go: the binary codec. `Marshal` fills one buffer from left to right,
-- so that its result is the concatenation of what it writes; `Unmarshal` reads `data[offset:]`,
-- which is the list that a reader here is given and returns.
pub mod Words
pub mod Readers
pub mod RoundTrip
pub mod Truncation
pub mod Oversize
pub mod Interface
mod Examples
use taskmq.Prelude.{
  ℕ, zero, suc, ◌+◌, ◌*◌, ◌/◌, ◌%◌, ◌^◌, Bytes, Bool, List, [], ◌∷◌, ◌++◌, length, take, drop, ltb,
  if◌then◌else◌,
}
use taskmq.Prelude.Int.{ℤ, to_word32, to_word64, from_word32, from_word64}
use taskmq.Task.{Task}

-- One for each message that `Unmarshal` may return.
pub data CodecError : Type 0 where
  too_short : CodecError
  string16_bounds string16_payload string32_bounds string32_payload : CodecError
  bytes32_bounds bytes32_payload : CodecError
  retry_bounds max_retry_bounds timeout_bounds unique_ttl_bounds created_at_bounds : CodecError

pub data Result {ℓ} (A : Type ℓ) : Type ℓ where
  ok : A → Result A
  err : CodecError → Result A

infixl 5 ◌>>=◌
abbrev pub ◌>>=◌ {ℓ κ} : {A : Type ℓ} {B : Type κ} → Result A → (A → Result B) → Result B
ok a >>= f = f a
err e >>= f = err e

-- `binary.BigEndian`: k bytes of a number, the highest first, and the number of some bytes.
pub put_be : ℕ → ℕ → Bytes
put_be zero n = []
put_be (suc k) n = put_be k (n / 256) ++ (n % 256 ∷ [])

pub get_be : ℕ → Bytes → ℕ
get_be acc [] = acc
get_be acc (b ∷ bs) = get_be (acc * 256 + b) bs

pub put_uint16 : ℕ → Bytes
put_uint16 n = put_be 2 (n % 2 ^ 16)

pub put_uint32 : ℕ → Bytes
put_uint32 n = put_be 4 (n % 2 ^ 32)

pub put_uint64 : ℕ → Bytes
put_uint64 n = put_be 8 (n % 2 ^ 64)

pub write_string16 : Bytes → Bytes
unfolding put_uint16
write_string16 s = put_uint16 (length s) ++ s

-- `writeString32` and `writeBytes32` do the same.
pub write_string32 : Bytes → Bytes
unfolding put_uint32
write_string32 s = put_uint32 (length s) ++ s

pub write_int32 : ℤ → Bytes
unfolding put_uint32
write_int32 x = put_uint32 (to_word32 x)

pub write_int64 : ℤ → Bytes
unfolding put_uint64
write_int64 x = put_uint64 (to_word64 x)

-- The size of the one allocation.
pub marshal_size : Task → ℕ
marshal_size t =
    (2 + length t.id)
    + (2 + length t.queue)
    + (2 + length t.name)
    + (4 + length t.payload)
    + 4
    + 4
    + 8
    + (2 + length t.unique_key)
    + 8
    + (4 + length t.last_error)
    + (2 + length t.cron_spec)
    + 8
    + 4
    + (2 + length t.group_key)
    + 8

-- The fields of the first version of the format, and behind them what `rest` holds.
pub marshal_base : Task → Bytes → Bytes
marshal_base t rest =
    write_string16 t.id
    ++ (write_string16 t.queue
        ++ (write_string16 t.name
            ++ (write_string32 t.payload
                ++ (write_int32 t.retry
                    ++ (write_int32 t.max_retry
                        ++ (write_int64 t.timeout_ms
                            ++ (write_string16 t.unique_key
                                ++ (write_int64 t.unique_ttl_ms
                                    ++ (write_string32 t.last_error
                                        ++ (write_string16 t.cron_spec
                                            ++ (write_int64 t.created_at ++ rest)))))))))))

-- The trailing optional fields of version 2.
pub marshal_tail : Task → Bytes
marshal_tail t =
    write_int32 t.unique_scope ++ (write_string16 t.group_key ++ write_int64 t.deadline_ms)

pub marshal : Task → Bytes
unfolding marshal_base marshal_tail
marshal t = marshal_base t (marshal_tail t)

-- A length field of `width` bytes, then as many bytes as it says.
pub read_sized : ℕ → CodecError → CodecError → Bytes → Result (Bytes × Bytes)
read_sized width bounds payload xs =
    let n = get_be 0 (take width xs) in
    let rest = drop width xs in
    if ltb (length xs) width
    then err bounds
    else if ltb (length rest) n
    then err payload
    else ok (take n rest, drop n rest)

pub read_string16 : Bytes → Result (Bytes × Bytes)
unfolding read_sized
read_string16 = read_sized 2 string16_bounds string16_payload

pub read_string32 : Bytes → Result (Bytes × Bytes)
unfolding read_sized
read_string32 = read_sized 4 string32_bounds string32_payload

pub read_bytes32 : Bytes → Result (Bytes × Bytes)
unfolding read_sized
read_bytes32 = read_sized 4 bytes32_bounds bytes32_payload

pub read_int32 : CodecError → Bytes → Result (ℤ × Bytes)
read_int32 bounds xs =
    if ltb (length xs) 4 then err bounds else ok (from_word32 (get_be 0 (take 4 xs)), drop 4 xs)

pub read_int64 : CodecError → Bytes → Result (ℤ × Bytes)
read_int64 bounds xs =
    if ltb (length xs) 8 then err bounds else ok (from_word64 (get_be 0 (take 8 xs)), drop 8 xs)

-- A trailing field that is not there leaves what the caller's task held.
pub read_scope : Task → Bytes → Task × Bytes
read_scope t xs =
    if ltb (length xs) 4
    then (t, xs)
    else (record t { unique_scope = from_word32 (get_be 0 (take 4 xs)) }, drop 4 xs)

pub read_group : Task → Bytes → Result (Task × Bytes)
read_group t xs =
    if ltb (length xs) 2
    then ok (t, xs)
    else do (s, rest) ← read_string16 xs; ok (record t { group_key = s }, rest)

pub read_deadline : Task → Bytes → Task
read_deadline t xs =
    if ltb (length xs) 8 then t else record t { deadline_ms = from_word64 (get_be 0 (take 8 xs)) }

pub read_tail : Task → Bytes → Result Task
unfolding read_scope read_group read_deadline
read_tail t xs = do
  let scoped = read_scope t xs
  (t', rest) ← read_group scoped.0 scoped.1
  ok (read_deadline t' rest)

-- The mandatory fields, over what the caller's task holds.
pub read_base : Bytes → Task → Result (Task × Bytes)
read_base xs t = do
  (id, r1) ← read_string16 xs
  (queue, r2) ← read_string16 r1
  (name, r3) ← read_string16 r2
  (payload, r4) ← read_bytes32 r3
  (retry, r5) ← read_int32 retry_bounds r4
  (max_retry, r6) ← read_int32 max_retry_bounds r5
  (timeout, r7) ← read_int64 timeout_bounds r6
  (key, r8) ← read_string16 r7
  (ttl, r9) ← read_int64 unique_ttl_bounds r8
  (last, r10) ← read_string32 r9
  (cron, r11) ← read_string16 r10
  (created, r12) ← read_int64 created_at_bounds r11
  ok (
    record t {
      id = id;
      queue = queue;
      name = name;
      payload = payload;
      retry = retry;
      max_retry = max_retry;
      timeout_ms = timeout;
      unique_key = key;
      unique_ttl_ms = ttl;
      last_error = last;
      cron_spec = cron;
      created_at = created;
    },
    r12,
  )

-- `Unmarshal(data, t)`. On an error the caller drops the task, so what was set in it is not kept.
pub unmarshal : Bytes → Task → Result Task
unmarshal xs t =
    if ltb (length xs) 2 then err too_short else do (t', rest) ← read_base xs t; read_tail t' rest
