-- ===== src/Lifecycle/Capacity.antt =====
-- What the admission scripts of internal/taskmq/lifecycle/scripts guarantee of the capacities.
use taskmq.Prelude.{
  ℕ, suc, ◌-◌, ◌≡◌, ◌≢◌, ◌≤◌, ◌<◌, ◌⊎◌, inl, inr, refl, Bytes, true, =b_refl, none, some, [],
  length, take, drop, length-take, drop_all, append-nil, arith, Option-cases, max,
}
use taskmq.Prelude.Int.{ℤ, pos, negsuc, ◌+ℤ◌, ◌-ℤ◌}
use taskmq.Redis.{Db, ZSet, Commands}
use taskmq.Redis.Reference.{has, out_of_ranks}
use taskmq.Redis.Laws.{Laws}
use taskmq.Redis.Members.{length-insert, has-insert, length-without-le}
use taskmq.Lifecycle.Scripts.{
  Reply, ok_reply, delayed_full_reply, make_room, drop_farthest, enqueue_delayed_with_limit,
}

-- The delayed set was at its limit and is left as it was, which only the flags other than 1 do;
-- or it holds the new member and is within the limit.
abbrev pub DelayedOutcome : Bytes → Bytes → ℕ → ℤ → Db → Db × Reply → Type 0
DelayedOutcome delayed payload limit overflow db r =
    (r.1 ≡ delayed_full_reply)
      × (r.0 ≡ db)
      × (limit ≤ length (db.zsets delayed))
      × (overflow ≢ pos 1)
    ⊎ (r.1 ≡ ok_reply)
      × (length (r.0.zsets delayed) ≤ limit)
      × (has payload (r.0.zsets delayed) ≡ true)

module _ (c : Commands) (laws : Laws c) where
  -- Dropping the farthest of n members down to a limit keeps the first `limit - 1`.
  pub drop_farthest_lem :
      (limit : ℕ) (z : ZSet)
      → 0 < limit
      → limit ≤ length z
      → drop_farthest c (pos limit) z ≡ take (limit - 1) z
  unfolding drop_farthest
  drop_farthest_lem limit z h k =
      ground (arith, to_drop, laws.zremrangebyrank_removes (negsuc (n - limit)) (negsuc 0) z, ranks)
    where
      n : ℕ
      n = length z

      to_drop : pos (c.zcard z) -ℤ pos limit +ℤ pos 1 ≡ pos (suc (n - limit))
      to_drop = ground (arith, laws.zcard_length z)

      first : n - suc (n - limit) ≡ limit - 1
      first = omega arith

      nothing : drop (max (limit - 1) (n - 0)) z ≡ []
      nothing = drop_all _ z (omega arith)

      ranks : out_of_ranks (negsuc (n - limit)) (negsuc 0) z ≡ take (limit - 1) z
      ranks = unfold out_of_ranks in simp (first, nothing, append-nil)

  -- Room that was made is room for one member more.
  pub make_room-length :
      (limit : ℕ) (overflow : ℤ) (z z' : ZSet)
      → 0 < limit
      → make_room c (pos limit) overflow z ≡ some z'
      → length z' < limit
  unfolding make_room
  make_room-length limit overflow z z' h e =
      ground (arith, laws.zcard_length z, drop_farthest_lem limit z h, length-take (limit - 1) z)

  -- Only a set at its limit, under another flag than 1, is not made room in.
  make_room-none :
      (limit : ℕ) (overflow : ℤ) (z : ZSet)
      → make_room c (pos limit) overflow z ≡ none
      → (limit ≤ length z) × (overflow ≢ pos 1)
  unfolding make_room
  make_room-none limit overflow z e = ground (arith, laws.zcard_length z)

  length-zadd-le : (score : ℤ) (m : Bytes) (z : ZSet) → length (c.zadd score m z) ≤ suc (length z)
  length-zadd-le score m z =
      omega (arith, length-insert (laws.zadd_inserts score m z), length-without-le m z)

  pub has-zadd : (score : ℤ) (m : Bytes) (z : ZSet) → has m (c.zadd score m z) ≡ true
  has-zadd score m z = ground (arith, has-insert (laws.zadd_inserts score m z) m, =b_refl m)

  -- Under a limit, an insertion is refused and changes nothing, or it is within the limit, however
  -- full the set was before.
  pub enqueue_delayed_bounded :
      (delayed : Bytes) (score : ℤ) (payload : Bytes) (limit : ℕ) (overflow : ℤ) (db : Db)
      → 0 < limit
      → DelayedOutcome delayed payload limit overflow db
          (enqueue_delayed_with_limit c delayed score payload (pos limit) overflow db)
  unfolding enqueue_delayed_with_limit
  enqueue_delayed_bounded delayed score payload limit overflow db h =
      elim (Option-cases (make_room c (pos limit) overflow (db.zsets delayed))) [
        | inl e ↦ rw e (inl (refused (make_room-none limit overflow _ e)))
        | inr (z, e) ↦ rw e (
            simp =b_refl (
              inr (
                refl,
                omega (
                  arith,
                  length-zadd-le score payload z,
                  make_room-length limit overflow _ z h e,
                ),
                has-zadd score payload z,
              )))
      ]
    where
      refused :
          (limit ≤ length (db.zsets delayed)) × (overflow ≢ pos 1)
          → (delayed_full_reply ≡ delayed_full_reply)
            × (db ≡ db)
            × (limit ≤ length (db.zsets delayed))
            × (overflow ≢ pos 1)
      refused (full, flag) = (refl, refl, full, flag)
