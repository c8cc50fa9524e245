-- ===== src/Codec/RoundTrip.antt =====
-- `Unmarshal` after `Marshal` of internal/taskmq/codec/codec.go.
use taskmq.Prelude.{
  ◌<◌, ◌≤◌, ◌^◌, ◌≡◌, ◌∙◌, Bytes, [], ◌++◌, length, arith, length-append, le→ltb, append-nil,
}
use taskmq.Prelude.Int.{ℤ, IsInt32, IsInt64}
use taskmq.Task.{Task}
use taskmq.Codec.{
  ok, retry_bounds, timeout_bounds, read_string16, read_int64, write_string16, write_int32,
  write_int64, marshal_base, marshal_tail, marshal, marshal_size, read_base, read_tail, read_group,
  read_scope, read_deadline, unmarshal, read_int32, put_uint16, put_uint32, put_uint64,
  write_string32,
}
use taskmq.Codec.Words.{length-put_be}
use taskmq.Codec.Readers.{
  read_string16-write, read_string32-write, read_bytes32-write, read_int32-write, read_int64-write,
}

-- The fields of the first version of the format fit the widths that the format has for them.
pub record FitsBase (t : Task) : Type 0 where
  pub id : length t.id < 2 ^ 16
  pub queue : length t.queue < 2 ^ 16
  pub name : length t.name < 2 ^ 16
  pub payload : length t.payload < 2 ^ 32
  pub retry : IsInt32 t.retry
  pub max_retry : IsInt32 t.max_retry
  pub timeout_ms : IsInt64 t.timeout_ms
  pub unique_key : length t.unique_key < 2 ^ 16
  pub unique_ttl_ms : IsInt64 t.unique_ttl_ms
  pub last_error : length t.last_error < 2 ^ 32
  pub cron_spec : length t.cron_spec < 2 ^ 16
  pub created_at : IsInt64 t.created_at

-- So do those of the second version.
pub record Fits (t : Task) : Type 0 where
  pub base : FitsBase t
  pub unique_scope : IsInt32 t.unique_scope
  pub group_key : length t.group_key < 2 ^ 16
  pub deadline_ms : IsInt64 t.deadline_ms

-- The buffer is allocated at the size that is written, whatever the task.
pub length-marshal : (t : Task) → length (marshal t) ≡ marshal_size t
unfolding marshal marshal_base marshal_tail marshal_size write_string16 write_string32 write_int32
    write_int64 put_uint16 put_uint32 put_uint64
length-marshal t = simp (length-append, length-put_be) (omega arith)

module _ (t old : Task) (h : FitsBase t) where
  -- The task that the mandatory fields make of `old`.
  abbrev pub over_base : Task
  over_base = record t {
    unique_scope = old.unique_scope;
    group_key = old.group_key;
    deadline_ms = old.deadline_ms;
    result = old.result;
  }

  enough_bytes : (rest : Bytes) → 2 ≤ length (marshal_base t rest)
  unfolding marshal_base write_string16 put_uint16
  enough_bytes rest = simp (length-append, length-put_be) (omega arith)

  pub read_base-marshal_base :
      (rest : Bytes) → read_base (marshal_base t rest) old ≡ ok (over_base, rest)
  unfolding read_base marshal_base
  read_base-marshal_base rest = simp (
    read_string16-write t.id _ h.id,
    read_string16-write t.queue _ h.queue,
    read_string16-write t.name _ h.name,
    read_bytes32-write t.payload _ h.payload,
    read_int32-write _ t.retry _ h.retry,
    read_int32-write _ t.max_retry _ h.max_retry,
    read_int64-write _ t.timeout_ms _ h.timeout_ms,
    read_string16-write t.unique_key _ h.unique_key,
    read_int64-write _ t.unique_ttl_ms _ h.unique_ttl_ms,
    read_string32-write t.last_error _ h.last_error,
    read_string16-write t.cron_spec _ h.cron_spec,
    read_int64-write _ t.created_at _ h.created_at,
  )

  unmarshal-marshal_base :
      (rest : Bytes) → unmarshal (marshal_base t rest) old ≡ read_tail over_base rest
  unfolding unmarshal
  unmarshal-marshal_base rest = simp (le→ltb _ _ (enough_bytes rest), read_base-marshal_base)

  -- A payload of the first version, which ends after the mandatory fields, is still read: the
  -- fields that it lacks stay as the caller's task has them.
  pub unmarshal_version1 : unmarshal (marshal_base t []) old ≡ ok over_base
  unfolding read_tail
  unmarshal_version1 = unmarshal-marshal_base []

-- A trailing field that is there is read as a mandatory one.
read_scope-read_int32 :
    (t : Task) (xs rest : Bytes) (x : ℤ)
    → read_int32 retry_bounds xs ≡ ok (x, rest)
    → read_scope t xs ≡ (record t { unique_scope = x }, rest)
unfolding read_scope read_int32
read_scope-read_int32 t xs rest x h = ground arith

read_group-read_string16 :
    (t : Task) (xs rest s : Bytes)
    → read_string16 xs ≡ ok (s, rest)
    → 2 ≤ length xs
    → read_group t xs ≡ ok (record t { group_key = s }, rest)
unfolding read_group
read_group-read_string16 t xs rest s h long = simp (le→ltb _ _ long, h)

read_deadline-read_int64 :
    (t : Task) (xs rest : Bytes) (x : ℤ)
    → read_int64 timeout_bounds xs ≡ ok (x, rest)
    → read_deadline t xs ≡ record t { deadline_ms = x }
unfolding read_deadline read_int64
read_deadline-read_int64 t xs rest x h = ground arith

module _ (t old : Task) (h : Fits t) where
  read_tail-marshal_tail :
      read_tail (over_base t old h.base) (marshal_tail t) ≡ ok (record t { result = old.result })
  unfolding read_tail marshal_tail
  read_tail-marshal_tail = simp (
    read_scope-read_int32 _ _ _ _ (read_int32-write retry_bounds t.unique_scope _ h.unique_scope),
    read_group-read_string16 _ _ _ _ (read_string16-write t.group_key _ h.group_key) long,
    read_deadline-read_int64 _ _ _ _ deadline,
  )
    where
      long : 2 ≤ length (write_string16 t.group_key ++ write_int64 t.deadline_ms)
      long = unfold write_string16 put_uint16 in simp (length-append, length-put_be) (omega arith)

      deadline : read_int64 timeout_bounds (write_int64 t.deadline_ms) ≡ ok (t.deadline_ms, [])
      deadline = rw append-nil at (read_int64-write timeout_bounds t.deadline_ms [] h.deadline_ms)

  -- Whatever the caller's task held, `Unmarshal` gives back the task that was marshalled, but for
  -- the `Result`, which the format does not carry.
  pub unmarshal-marshal : unmarshal (marshal t) old ≡ ok (record t { result = old.result })
  unfolding marshal
  unmarshal-marshal = unmarshal-marshal_base t old h.base (marshal_tail t) ∙ read_tail-marshal_tail
