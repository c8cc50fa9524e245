-- ===== src/Keys/Parse.antt =====
-- `ParseQueueFromStreamKey` of internal/taskmq/keys/keys.go undoes `Stream`.
use taskmq.Prelude.{
  ◌≡◌, ◌≢◌, true, false, ◌&&◌, ◌⊎◌, take-take, Bool-cases, inl, inr, refl, sym, ap, ◌∙◌, ℕ, ◌-◌,
  ◌+◌, Bytes, codes, [], ◌∷◌, ◌++◌, ◌=b◌, arith, length, take, drop, take-append-drop, =b_iff, ◌≤◌,
  ◌<◌, le→ltb, drop_prefix, =b_refl, =b_ne, take_prefix, length-append,
}
use taskmq.Keys.{
  stream, slice, queue_name, not_ok, panic, has_prefix, has_suffix, parse_queue_from_stream_key,
}

has_prefix→append : (xs ps : Bytes) → has_prefix xs ps ≡ true → xs ≡ ps ++ drop (length ps) xs
unfolding has_prefix
has_prefix→append xs [] h = refl
has_prefix→append [] (p ∷ ps) h = cc
has_prefix→append (x ∷ xs) (p ∷ ps) h = ground (arith, has_prefix→append xs ps)

append→has_prefix : (ps xs : Bytes) → has_prefix (ps ++ xs) ps ≡ true
unfolding has_prefix
append→has_prefix [] xs = refl
append→has_prefix (p ∷ ps) xs = ground (arith, append→has_prefix ps xs)

append→has_suffix : (xs ss : Bytes) → has_suffix (xs ++ ss) ss ≡ true
unfolding has_suffix
append→has_suffix xs ss = simp (le→ltb _ _ longer, cut, drop_prefix, =b_refl)
  where
    longer : length ss ≤ length (xs ++ ss)
    longer = omega (arith, length-append xs ss)

    cut : length (xs ++ ss) - length ss ≡ length xs
    cut = omega (arith, length-append xs ss)

has_suffix→append :
    (xs ss : Bytes)
    → has_suffix xs ss ≡ true
    → (length ss ≤ length xs) × (xs ≡ take (length xs - length ss) xs ++ ss)
unfolding has_suffix
has_suffix→append xs ss h = ground (
  arith,
  =b_iff (drop (length xs - length ss) xs) ss,
  take-append-drop (length xs - length ss) xs,
)

abbrev prefix : Bytes
prefix = codes "taskmq:{"

abbrev suffix : Bytes
suffix = codes "}:queue"

-- The two ends of the format do not overlap.
no_overlap : (xs : Bytes) → length xs < 7 → has_suffix (prefix ++ xs) suffix ≡ false
unfolding has_suffix ◌=b◌
no_overlap [] h = refl
no_overlap (a ∷ []) h = refl
no_overlap (a ∷ b ∷ []) h = refl
no_overlap (a ∷ b ∷ c ∷ []) h = refl
no_overlap (a ∷ b ∷ c ∷ d ∷ []) h = refl
no_overlap (a ∷ b ∷ c ∷ d ∷ e ∷ []) h = refl
no_overlap (a ∷ b ∷ c ∷ d ∷ e ∷ f ∷ []) h = refl
no_overlap (a ∷ b ∷ c ∷ d ∷ e ∷ f ∷ g ∷ xs) h = absurd (omega arith)

-- A key of the right shape is the stream key of what stands between its ends.
shape :
    (k : Bytes)
    → has_prefix k prefix ≡ true
    → has_suffix k suffix ≡ true
    → (15 ≤ length k) × (k ≡ stream (slice k 8 (length k - 7)))
shape k hp hs = (omega (arith, enough, long), apart)
  where
    n : ℕ
    n = length k - 7

    begins : k ≡ prefix ++ drop 8 k
    begins = has_prefix→append k prefix hp

    long : length k ≡ 8 + length (drop 8 k)
    long = omega (arith, ap length begins)

    enough : 7 ≤ length (drop 8 k)
    enough = ground (arith, no_overlap (drop 8 k), ap (λ (xs : Bytes). has_suffix xs suffix) begins)

    ends : k ≡ take n k ++ suffix
    ends = (has_suffix→append k suffix hs).1

    first : take 8 (take n k) ≡ prefix
    first = take-take 8 n k (omega (arith, enough, long)) ∙ ap (take 8) begins

    whole : take n k ≡ prefix ++ slice k 8 n
    whole = sym (take-append-drop 8 (take n k)) ∙ ap (λ (xs : Bytes). xs ++ slice k 8 n) first

    apart : k ≡ stream (slice k 8 n)
    apart = ends ∙ ap (λ (xs : Bytes). xs ++ suffix) whole

-- The cases of `ParseQueueFromStreamKey`, with the slice in range.
module _ (k : Bytes) where
  abbrev Outcome : Type 0
  Outcome =
      (parse_queue_from_stream_key k ≡ not_ok)
      ⊎ ((q : Bytes) × (parse_queue_from_stream_key k ≡ queue_name q) × (k ≡ stream q) × (q ≢ []))

  parse-Outcome : Outcome
  unfolding parse_queue_from_stream_key
  parse-Outcome = elim (Bool-cases (has_prefix k prefix && has_suffix k suffix)) [
    | inl both ↦ named (shape k (ground arith) (ground arith)) (ground arith) (ground arith)
    | inr fails ↦ inl (ground arith)
  ]
    where
      name : Bytes
      name = slice k 8 (length k - 7)

      named :
          (15 ≤ length k) × (k ≡ stream name)
          → has_prefix k prefix ≡ true
          → has_suffix k suffix ≡ true
          → Outcome
      named (long, eq) hp hs = elim (Bool-cases (name =b [])) [
        | inl empty ↦ inl (simp (hp, hs, le→ltb (length k - 7) 8 (omega arith), empty))
        | inr full ↦ inr (
          name,
          simp (hp, hs, le→ltb (length k - 7) 8 (omega arith), full),
          eq,
          λ e. ground (arith, =b_iff name []),
        )
      ]

-- A stream key gives back its queue's name, if that is not empty.
pub parse-stream : (q : Bytes) → q ≢ [] → parse_queue_from_stream_key (stream q) ≡ queue_name q
unfolding parse_queue_from_stream_key
parse-stream q h = simp (
  append→has_prefix prefix (q ++ suffix),
  append→has_suffix (prefix ++ q) suffix,
  le→ltb (length (stream q) - 7) 8 (omega (arith, long)),
  middle,
  =b_ne q [] h,
)
  where
    long : length (stream q) ≡ length (prefix ++ q) + 7
    long = length-append (prefix ++ q) suffix

    n-eq : length (stream q) - 7 ≡ length (prefix ++ q)
    n-eq = omega (arith, long)

    middle : slice (stream q) 8 (length (stream q) - 7) ≡ q
    middle = ap (drop 8) (ap (λ n. take n (stream q)) n-eq ∙ take_prefix (prefix ++ q) suffix)

-- Whatever the key, its slice is in range.
pub parse-ne-panic : (k : Bytes) → parse_queue_from_stream_key k ≢ panic
parse-ne-panic k h = ground (arith, parse-Outcome k)

-- A name is returned only of the stream key of a queue with that name, which is not empty.
pub parse_sound :
    (k q : Bytes) → parse_queue_from_stream_key k ≡ queue_name q → (k ≡ stream q) × (q ≢ [])
parse_sound k q h = ground (arith, parse-Outcome k)
