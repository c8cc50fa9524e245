-- ===== src/Redis/Memory/Lawful.antt =====
-- The server in memory obeys `Laws`.
use taskmq.Prelude.{◌≡◌, refl, length-take, inl, if-split, arith, true}
use taskmq.Redis.Reference.{without}
use taskmq.Redis.Laws.{Laws, Creation}
use taskmq.Redis.Memory.{xadd, pending_from, memory}
use taskmq.Redis.Memory.Facts.{
  next_id-above, leading-le, leading-below, lowest-IsLeast, IsLeast-AtLeast, IsLeast-holds,
  insert-IsInsertion, insert-Inserted, new_group-GroupCreated, pending_from-pending, All-take,
  hincrby-adds,
}

pub memory-Laws : Laws memory
unfolding memory xadd pending_from
memory-Laws = record {
  xlen_length = λ s. refl;
  xadd_appends = λ p s. record {
    entries = refl;
    above = next_id-above s.entries;
    pending = λ g i. refl;
    last_delivered = λ g. refl;
  };
  xadd_maxlen_trims = λ n p s. record {
    dropped = 0;
    entries = refl;
    kept = inl refl;
    above = next_id-above s.entries;
    pending = λ g i. refl;
    last_delivered = λ g. refl;
  };
  xack_entries = λ g i s. refl;
  xack_pending = λ g i s h j. refl;
  xack_last_delivered = λ g i s h. refl;
  xdel_last_delivered = λ i s h. refl;
  xdel_entries = λ i s. refl;
  xdel_pending = λ i s h j. refl;
  xtrim_minid_trims = λ m limit s. record {
    entries = refl;
    below = leading-below m s.entries;
    counted = leading-le m s.entries;
    pending = λ g i. refl;
  };
  xpending_lower_bounds = λ g s i le h.
      IsLeast-AtLeast (s.pending g) (s.last_delivered g) i _
        (lowest-IsLeast (s.pending g) (s.last_delivered g)) le h;
  xpending_lower_pending = λ g s low e.
      IsLeast-holds (s.pending g) (s.last_delivered g) low _
        (lowest-IsLeast (s.pending g) (s.last_delivered g)) e;
  xgroup_create_creates = λ g s.
      if-split (Creation g s) (s.groups g) (λ busy. busy)
        (λ free. (free, new_group-GroupCreated g s));
  xreadgroup_reads = λ g s. refl;
  xautoclaim_claims = λ g start count s. record {
    few = omega (arith, length-take count (pending_from g start s s.entries));
    claimed =
        All-take (λ e. s.pending g e.id ≡ true) count (pending_from g start s s.entries)
          (pending_from-pending g start s s.entries);
    entries = refl;
    kept = λ i there. ground arith;
    shrinks = λ i h. ground arith;
    others = λ h other i. rw other refl;
    last_delivered = λ h. refl;
  };
  xpending_ext_counts = λ g start stop count s. omega arith;
  zcard_length = λ z. refl;
  zadd_inserts = λ score m z. insert-Inserted score m z _ (insert-IsInsertion _ (without m z));
  zrem_removes = λ m z. refl;
  zrem_counts = λ m z. refl;
  zremrangebyrank_removes = λ start stop z. refl;
  zrange_lists = λ start stop z. refl;
  zrange_withscores_lists = λ start stop z. refl;
  zrangebyscore_lists = λ lo hi limit z. refl;
  zrangebyscore_upto_lists = λ hi limit z. refl;
  hset_sets = λ f v h g. refl;
  hincrby_adds = hincrby-adds;
  hdel_deletes = λ f h g. refl;
  set_px_sets = λ v ttl. refl;
  pexpire_none = λ ttl. refl;
  pexpire_some = λ ttl v. refl;
}
