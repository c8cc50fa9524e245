-- ===== src/Codec/Readers.antt =====
-- Each reader of internal/taskmq/codec/codec.go takes back what its writer wrote and leaves the rest.
use taskmq.Prelude.{
  ℕ, ◌<◌, ◌^◌, ◌%◌, ◌≡◌, Bytes, ◌++◌, length, take, drop, arith, length-append, take_prefix,
  drop_prefix, append_assoc, ◌≤◌, ◌+◌, le→ltb,
}
use taskmq.Prelude.Int.{
  ℤ, to_word32, to_word64, IsInt32, IsInt64, to_word32-lt, to_word64-lt, from_word32-to_word32,
  from_word64-to_word64,
}
use taskmq.Codec.{
  CodecError, string16_bounds, string16_payload, string32_bounds, string32_payload, bytes32_bounds,
  bytes32_payload, ok, put_be, write_string16, write_string32, write_int32, write_int64, read_sized,
  read_string16, read_string32, read_bytes32, read_int32, read_int64,
}
use taskmq.Codec.Words.{length-put_be, get_be-put_be}

-- Cutting off a number of k bytes.
module _ (k n : ℕ) (rest : Bytes) where
  pub take-put_be : take k (put_be k n ++ rest) ≡ put_be k n
  take-put_be = let e = length-put_be k n in rw e at (take_prefix (put_be k n) rest)

  drop-put_be : drop k (put_be k n ++ rest) ≡ rest
  drop-put_be = let e = length-put_be k n in rw e at (drop_prefix (put_be k n) rest)

  length-put_be-append : length (put_be k n ++ rest) ≡ k + length rest
  length-put_be-append = omega (arith, length-append (put_be k n) rest, length-put_be k n)

module _ (width : ℕ) (bounds payload : CodecError) (s rest : Bytes)
    (h : length s < 256 ^ width) where
  -- A sized field is read back.
  read_sized-write :
      read_sized width bounds payload (put_be width (length s) ++ (s ++ rest)) ≡ ok (s, rest)
  unfolding read_sized
  read_sized-write = simp (
    take-put_be,
    drop-put_be,
    get_be-put_be width (length s) h,
    le→ltb _ _ enough,
    le→ltb _ _ whole,
    take_prefix,
    drop_prefix,
  )
    where
      enough : width ≤ length (put_be width (length s) ++ (s ++ rest))
      enough = omega (arith, length-put_be-append width (length s) (s ++ rest))

      whole : length s ≤ length (s ++ rest)
      whole = omega (arith, length-append s rest)

-- A number of a fixed width is read back.
module _ (bounds : CodecError) (x : ℤ) (rest : Bytes) where
  pub read_int32-write : IsInt32 x → read_int32 bounds (write_int32 x ++ rest) ≡ ok (x, rest)
  unfolding read_int32 write_int32
  read_int32-write h = simp (
    mod_word,
    take-put_be,
    drop-put_be,
    get_be-put_be 4 (to_word32 x) (to_word32-lt x),
    from_word32-to_word32 x h,
    le→ltb _ _ enough,
  )
    where
      mod_word : to_word32 x % 2 ^ 32 ≡ to_word32 x
      mod_word = omega (arith, to_word32-lt x)

      enough : 4 ≤ length (put_be 4 (to_word32 x) ++ rest)
      enough = omega (arith, length-put_be-append 4 (to_word32 x) rest)

  pub read_int64-write : IsInt64 x → read_int64 bounds (write_int64 x ++ rest) ≡ ok (x, rest)
  unfolding read_int64 write_int64
  read_int64-write h = simp (
    mod_word,
    take-put_be,
    drop-put_be,
    get_be-put_be 8 (to_word64 x) (to_word64-lt x),
    from_word64-to_word64 x h,
    le→ltb _ _ enough,
  )
    where
      mod_word : to_word64 x % 2 ^ 64 ≡ to_word64 x
      mod_word = omega (arith, to_word64-lt x)

      enough : 8 ≤ length (put_be 8 (to_word64 x) ++ rest)
      enough = omega (arith, length-put_be-append 8 (to_word64 x) rest)

module _ (s rest : Bytes) where
  pub read_string16-write :
      length s < 2 ^ 16 → read_string16 (write_string16 s ++ rest) ≡ ok (s, rest)
  unfolding read_string16 write_string16
  read_string16-write h =
      simp (mod_size, append_assoc, read_sized-write 2 string16_bounds string16_payload s rest h)
    where
      mod_size : length s % 2 ^ 16 ≡ length s
      mod_size = omega arith

  pub read_string32-write :
      length s < 2 ^ 32 → read_string32 (write_string32 s ++ rest) ≡ ok (s, rest)
  unfolding read_string32 write_string32
  read_string32-write h =
      simp (mod_size, append_assoc, read_sized-write 4 string32_bounds string32_payload s rest h)
    where
      mod_size : length s % 2 ^ 32 ≡ length s
      mod_size = omega arith

  pub read_bytes32-write :
      length s < 2 ^ 32 → read_bytes32 (write_string32 s ++ rest) ≡ ok (s, rest)
  unfolding read_bytes32 write_string32
  read_bytes32-write h =
      simp (mod_size, append_assoc, read_sized-write 4 bytes32_bounds bytes32_payload s rest h)
    where
      mod_size : length s % 2 ^ 32 ≡ length s
      mod_size = omega arith
