-- ===== src/Codec/Oversize.antt =====
-- internal/taskmq/codec/codec.go: what becomes of a string that its 16-bit length field cannot count.
use taskmq.Prelude.{
  ℕ, ◌≤◌, ◌%◌, ◌^◌, ◌≡◌, refl, Bytes, length, take, drop, arith, length-take, append_assoc,
}
use taskmq.Task.{Task}
use taskmq.Codec.{
  CodecError, string16_bounds, string16_payload, Result, ok, err, get_be, put_uint16,
  write_string16, read_sized, read_string16, read_group, read_scope, read_deadline, read_base,
  read_tail, marshal_base, marshal, unmarshal,
}
use taskmq.Codec.Words.{get_be-put_be}
use taskmq.Codec.Readers.{take-put_be}

-- A string that was read is as long as its length field says.
read_sized-length :
    (width : ℕ) (bounds payload : CodecError) (xs s rest : Bytes)
    → read_sized width bounds payload xs ≡ ok (s, rest)
    → length s ≤ get_be 0 (take width xs)
unfolding read_sized
read_sized-length width bounds payload xs s rest h =
    ground (arith, length-take (get_be 0 (take width xs)) (drop width xs))

-- The id is the first string of the payload.
length-id-read_base :
    (xs rest : Bytes) (t a : Task)
    → read_base xs t ≡ ok (a, rest)
    → length a.id ≤ get_be 0 (take 2 xs)
unfolding read_base read_string16
length-id-read_base xs rest t a h = first (read_sized 2 string16_bounds string16_payload xs) refl
  where
    first :
        (r : Result (Bytes × Bytes))
        → read_sized 2 string16_bounds string16_payload xs ≡ r
        → length a.id ≤ get_be 0 (take 2 xs)
    first (ok (s, r)) e =
        ground (arith, read_sized-length 2 string16_bounds string16_payload xs s r e)
    first (err x) e = ground arith

read_tail-id : (xs : Bytes) (t a : Task) → read_tail t xs ≡ ok a → a.id ≡ t.id
unfolding read_tail read_scope read_group read_deadline
read_tail-id xs t a h = ground arith

length-id-unmarshal :
    (xs : Bytes) (t a : Task) → unmarshal xs t ≡ ok a → length a.id ≤ get_be 0 (take 2 xs)
unfolding unmarshal
length-id-unmarshal xs t a h = via (read_base xs t) refl
  where
    via : (r : Result (Task × Bytes)) → read_base xs t ≡ r → length a.id ≤ get_be 0 (take 2 xs)
    via (ok (b, rest)) e = ground (arith, length-id-read_base xs rest t b e, read_tail-id rest b a)
    via (err x) e = ground arith

length_field : (t : Task) → get_be 0 (take 2 (marshal t)) ≡ length t.id % 2 ^ 16
unfolding marshal marshal_base write_string16 put_uint16
length_field t =
    simp (append_assoc, take-put_be, get_be-put_be 2 (length t.id % 2 ^ 16) (omega arith))

-- A task whose id has 65536 bytes or more does not come back: its length field wraps around.
-- (`marshal` reports no error.)
pub marshal_oversized_id :
    (t old : Task)
    → 2 ^ 16 ≤ length t.id
    → ¬ (unmarshal (marshal t) old ≡ ok (record t { result = old.result }))
unfolding unmarshal marshal
marshal_oversized_id t old long h = absurd (
    omega (
      arith,
      length-id-unmarshal (marshal t) old (record t { result = old.result }) h,
      length_field t,
    ))
