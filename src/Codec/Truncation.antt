-- ===== src/Codec/Truncation.antt =====
-- What internal/taskmq/codec/codec.go makes of cut-off payloads and of fields that do not fit.
use taskmq.Prelude.{
  ℕ, ◌<◌, ◌+◌, inl, inr, Bool-cases, ◌≡◌, refl, sym, ap, ◌∙◌, Bytes, [], ◌++◌, length, take, drop,
  arith, length-append, take-append, drop-append, length-drop, take-append-drop, ltb,
}
use taskmq.Task.{Task}
use taskmq.Codec.{
  CodecError, Result, ok, err, ◌>>=◌, get_be, read_sized, read_string16, read_string32,
  read_bytes32, read_int32, read_int64, read_base, marshal_base, marshal_tail, marshal, unmarshal,
  too_short,
}
use taskmq.Codec.RoundTrip.{FitsBase, read_base-marshal_base}

-- A reader that succeeds reads the same from a longer input, and leaves the addition unread.
record Extends {ℓ} {A : Type ℓ} (read : Bytes → Result (A × Bytes)) : Type ℓ where
  at : (xs ys rest : Bytes) (a : A) → read xs ≡ ok (a, rest) → read (xs ++ ys) ≡ ok (a, rest ++ ys)

Extends-ok {ℓ} : {A : Type ℓ} (a : A) → Extends (λ xs. ok (a, xs))
Extends-ok a = record { at = λ xs ys rest b h. cc }

Extends-bind {ℓ κ} :
    {A : Type ℓ} {B : Type κ} (m : Bytes → Result (A × Bytes)) (f : A × Bytes → Result (B × Bytes))
    → Extends m
    → ((a : A) → Extends (λ rest. f (a, rest)))
    → Extends (λ xs. m xs >>= f)
Extends-bind {A} {B} m f hm hf = record { at = λ xs ys rest b h. bound xs ys rest b (m xs) refl h }
  where
    bound :
        (xs ys rest : Bytes) (b : B) (r : Result (A × Bytes))
        → m xs ≡ r
        → (r >>= f) ≡ ok (b, rest)
        → (m (xs ++ ys) >>= f) ≡ ok (b, rest ++ ys)
    bound xs ys rest b (ok (a, mid)) e h = rw (hm.at xs ys mid a e) ((hf a).at mid ys rest b h)
    bound xs ys rest b (err x) e h = cc

read_sized-Extends :
    (width : ℕ) (bounds payload : CodecError) → Extends (read_sized width bounds payload)
unfolding read_sized
read_sized-Extends width bounds payload = record {
  at = λ xs ys rest a h.
      let n = get_be 0 (take width xs) in
      ground (
        arith,
        length-append xs ys,
        length-append (drop width xs) ys,
        take-append width xs ys,
        drop-append width xs ys,
        take-append n (drop width xs) ys,
        drop-append n (drop width xs) ys,
      );
}

read_int32-Extends : (bounds : CodecError) → Extends (read_int32 bounds)
unfolding read_int32
read_int32-Extends bounds = record {
  at = λ xs ys rest a h.
      ground (arith, length-append xs ys, take-append 4 xs ys, drop-append 4 xs ys);
}

read_int64-Extends : (bounds : CodecError) → Extends (read_int64 bounds)
unfolding read_int64
read_int64-Extends bounds = record {
  at = λ xs ys rest a h.
      ground (arith, length-append xs ys, take-append 8 xs ys, drop-append 8 xs ys);
}

ruleset extends_rules =
    (Extends-bind, Extends-ok, read_sized-Extends, read_int32-Extends, read_int64-Extends)

read_base-Extends : (t : Task) → Extends (λ xs. read_base xs t)
unfolding read_base read_string16 read_string32 read_bytes32
read_base-Extends t = search extends_rules depth 40

remainder : Result (Task × Bytes) → Bytes
remainder (ok (a, rest)) = rest
remainder (err e) = []

-- Every payload that is cut off before the optional fields is refused with an error.
pub unmarshal_truncated :
    (t old : Task) (n : ℕ)
    → FitsBase t
    → n + length (marshal_tail t) < length (marshal t)
    → (e : CodecError) × (unmarshal (take n (marshal t)) old ≡ err e)
unfolding unmarshal marshal remainder
unmarshal_truncated t old n fits short = cut (read_base (take n whole) old) refl
  where
    whole : Bytes
    whole = marshal_base t (marshal_tail t)

    cut :
        (r : Result (Task × Bytes))
        → read_base (take n whole) old ≡ r
        → (e : CodecError) × (unmarshal (take n whole) old ≡ err e)
    cut (ok (a, rest)) h =
        absurd (omega (arith, overlong, length-append rest (drop n whole), length-drop n whole))
      where
        read_whole : read_base (take n whole ++ drop n whole) old ≡ ok (a, rest ++ drop n whole)
        read_whole = (read_base-Extends old).at (take n whole) (drop n whole) rest a h

        read_whole' : read_base whole old ≡ ok (a, rest ++ drop n whole)
        read_whole' = rw take-append-drop at read_whole

        overlong : length (rest ++ drop n whole) ≡ length (marshal_tail t)
        overlong =
            ap (λ r. length (remainder r))
              (sym read_whole' ∙ read_base-marshal_base t old fits (marshal_tail t))
    cut (err e) h = elim (Bool-cases (ltb (length (take n whole)) 2)) [
      | inl tiny ↦ (too_short, simp tiny)
      | inr long ↦ (e, simp (long, h))
    ]
