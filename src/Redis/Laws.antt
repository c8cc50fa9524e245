-- ===== src/Redis/Laws.antt =====
-- The documented behaviour of the commands, as hypotheses on them.
use taskmq.Prelude.{
  ℕ, ◌≡◌, ◌≤◌, ◌<◌, Bytes, true, false, ◌&&◌, Option, ◌⊎◌, List, [], ◌∷◌, ◌++◌, ◌==◌, ◌=b◌, length,
  take, drop, if◌then◌else◌, All, none, some,
}
use taskmq.Prelude.Decimal.{decimal}
use taskmq.Prelude.Int.{ℤ, ◌+ℤ◌, IsInt64, pos, pos_part, ltb_ℤ}
use taskmq.Redis.{Entry, Stream, ZSet, Hash, Commands, StringValue}
use taskmq.Redis.Reference.{
  in_ranks, out_of_ranks, without, has, in_scores, upto_score, read_next, members, delete, has_id,
}

-- A member enters at some rank; where it stood before it is taken out.
pub record Inserted (score : ℤ) (m : Bytes) (z z' : ZSet) : Type 0 where
  pub before : ZSet
  pub after : ZSet
  pub rest : without m z ≡ before ++ after
  pub result : z' ≡ before ++ (record { score = score; member = m } ∷ after)

-- An entry is appended with a new id, above all others.
pub record Appended (payload : Bytes) (s s' : Stream) (id : ℕ) : Type 0 where
  pub entries : s'.entries ≡ s.entries ++ (record { id = id; task = payload } ∷ [])
  pub above : All (λ e. e.id < id) s.entries
  pub pending : (g : Bytes) (i : ℕ) → s'.pending g i ≡ s.pending g i
  pub last_delivered : (g : Bytes) → s'.last_delivered g ≡ s.last_delivered g

-- `MAXLEN ~ n` may drop oldest entries, and leaves n at least.
pub record Trimmed (limit : ℤ) (payload : Bytes) (s s' : Stream) (id : ℕ) : Type 0 where
  pub dropped : ℕ
  pub entries : s'.entries ≡ drop dropped (s.entries ++ (record { id = id; task = payload } ∷ []))
  pub kept : (dropped ≡ 0) ⊎ (pos_part limit ≤ length s'.entries)
  pub above : All (λ e. e.id < id) s.entries
  pub pending : (g : Bytes) (i : ℕ) → s'.pending g i ≡ s.pending g i
  pub last_delivered : (g : Bytes) → s'.last_delivered g ≡ s.last_delivered g

-- `MINID ~ m` may drop oldest entries below m, and counts them.
pub record TrimmedBelow (min_id : ℕ) (s s' : Stream) (deleted : ℕ) : Type 0 where
  pub entries : s'.entries ≡ drop deleted s.entries
  pub below : All (λ e. e.id < min_id) (take deleted s.entries)
  pub counted : deleted ≤ length s.entries
  pub pending : (g : Bytes) (i : ℕ) → s'.pending g i ≡ s.pending g i

-- A group is created at the end of a stream: behind all its entries.
pub record GroupCreated (g : Bytes) (s s' : Stream) : Type 0 where
  pub entries : s'.entries ≡ s.entries
  pub groups : (h : Bytes) → s'.groups h ≡ (if g =b h then true else s.groups h)
  pub behind : All (λ e. e.id ≤ s'.last_delivered g) s.entries
  pub last_delivered : (h : Bytes) → (g =b h) ≡ false → s'.last_delivered h ≡ s.last_delivered h
  pub pending : (h : Bytes) (i : ℕ) → s'.pending h i ≡ s.pending h i

-- A claim returns pending entries, and drops pending ids of its group only where their entry is deleted.
pub record Claimed (g : Bytes) (count : ℕ) (s s' : Stream) (es : List Entry) : Type 0 where
  pub few : length es ≤ count
  pub claimed : All (λ e. s.pending g e.id ≡ true) es
  pub entries : s'.entries ≡ s.entries
  pub kept : (i : ℕ) → has_id i s.entries ≡ true → s'.pending g i ≡ s.pending g i
  pub shrinks : (i : ℕ) → s'.pending g i ≡ true → s.pending g i ≡ true
  pub others : (h : Bytes) → (g =b h) ≡ false → (i : ℕ) → s'.pending h i ≡ s.pending h i
  pub last_delivered : (h : Bytes) → s'.last_delivered h ≡ s.last_delivered h

abbrev pub Creation : Bytes → Stream → Option Stream → Type 0
Creation g s none = s.groups g ≡ true
Creation g s (some s') = (s.groups g ≡ false) × GroupCreated g s s'

abbrev pub AtLeast : Option ℕ → ℕ → Type 0
AtLeast none i = ⊥
AtLeast (some low) i = low ≤ i

pub record Laws (c : Commands) : Type 0 where
  pub xlen_length : (s : Stream) → c.xlen s ≡ length s.entries
  pub xadd_appends : (p : Bytes) (s : Stream) → Appended p s (c.xadd p s).0 (c.xadd p s).1
  pub xadd_maxlen_trims :
      (n : ℤ) (p : Bytes) (s : Stream)
      → Trimmed n p s (c.xadd_maxlen n p s).0 (c.xadd_maxlen n p s).1
  pub xack_entries : (g : Bytes) (i : ℕ) (s : Stream) → (c.xack g i s).entries ≡ s.entries
  pub xack_pending :
      (g : Bytes) (i : ℕ) (s : Stream) (h : Bytes) (j : ℕ)
      → (c.xack g i s).pending h j ≡ (if (g =b h) && (i == j) then false else s.pending h j)
  pub xack_last_delivered :
      (g : Bytes) (i : ℕ) (s : Stream) (h : Bytes)
      → (c.xack g i s).last_delivered h ≡ s.last_delivered h
  pub xdel_last_delivered :
      (i : ℕ) (s : Stream) (h : Bytes) → (c.xdel i s).last_delivered h ≡ s.last_delivered h
  pub xdel_entries : (i : ℕ) (s : Stream) → (c.xdel i s).entries ≡ delete i s.entries
  pub xdel_pending :
      (i : ℕ) (s : Stream) (h : Bytes) (j : ℕ) → (c.xdel i s).pending h j ≡ s.pending h j
  pub xtrim_minid_trims :
      (m : ℕ) (limit : ℤ) (s : Stream)
      → TrimmedBelow m s (c.xtrim_minid m limit s).0 (c.xtrim_minid m limit s).1
  pub xpending_lower_bounds :
      (g : Bytes) (s : Stream) (i : ℕ)
      → i ≤ s.last_delivered g
      → s.pending g i ≡ true
      → AtLeast (c.xpending_lower g s) i
  pub xpending_lower_pending :
      (g : Bytes) (s : Stream) (low : ℕ) → c.xpending_lower g s ≡ some low → s.pending g low ≡ true
  pub xgroup_create_creates : (g : Bytes) (s : Stream) → Creation g s (c.xgroup_create g s)
  pub xreadgroup_reads : (g : Bytes) (s : Stream) → c.xreadgroup g s ≡ read_next g s
  pub xautoclaim_claims :
      (g : Bytes) (start count : ℕ) (s : Stream)
      → Claimed g count s (c.xautoclaim g start count s).0 (c.xautoclaim g start count s).1.0
  pub xpending_ext_counts :
      (g : Bytes) (start stop count : ℕ) (s : Stream)
      → length (c.xpending_ext g start stop count s) ≤ count
  pub zcard_length : (z : ZSet) → c.zcard z ≡ length z
  pub zadd_inserts : (score : ℤ) (m : Bytes) (z : ZSet) → Inserted score m z (c.zadd score m z)
  pub zrem_removes : (m : Bytes) (z : ZSet) → (c.zrem m z).0 ≡ without m z
  pub zrem_counts : (m : Bytes) (z : ZSet) → (c.zrem m z).1 ≡ (if has m z then 1 else 0)
  pub zremrangebyrank_removes :
      (start stop : ℤ) (z : ZSet) → c.zremrangebyrank start stop z ≡ out_of_ranks start stop z
  pub zrange_lists :
      (start stop : ℤ) (z : ZSet) → c.zrange start stop z ≡ members (in_ranks start stop z)
  pub zrange_withscores_lists :
      (start stop : ℤ) (z : ZSet) → c.zrange_withscores start stop z ≡ in_ranks start stop z
  pub zrangebyscore_lists :
      (lo hi : ℤ) (limit : ℕ) (z : ZSet)
      → c.zrangebyscore lo hi limit z ≡ members (take limit (in_scores lo hi z))
  pub zrangebyscore_upto_lists :
      (hi : ℤ) (limit : ℕ) (z : ZSet)
      → c.zrangebyscore_upto hi limit z ≡ members (take limit (upto_score hi z))
  pub hset_sets :
      (f v : Bytes) (h : Hash) (g : Bytes) → c.hset f v h g ≡ (if f =b g then some v else h g)
  pub hincrby_adds :
      (f : Bytes) (n d : ℤ) (h : Hash)
      → IsInt64 n
      → IsInt64 (n +ℤ d)
      → (h f ≡ some (decimal n)) ⊎ ((h f ≡ none) × (n ≡ pos 0))
      → c.hincrby f d h ≡ some (c.hset f (decimal (n +ℤ d)) h)
  pub hdel_deletes :
      (f : Bytes) (h : Hash) (g : Bytes) → c.hdel f h g ≡ (if f =b g then none else h g)
  pub set_px_sets :
      (v : Bytes) (ttl : ℤ)
      → c.set_px v ttl
        ≡ (if ltb_ℤ (pos 0) ttl then some (record { value = v; ttl_ms = ttl }) else none)
  pub pexpire_none : (ttl : ℤ) → c.pexpire ttl none ≡ none
  pub pexpire_some :
      (ttl : ℤ) (v : StringValue)
      → c.pexpire ttl (some v)
        ≡ (if ltb_ℤ (pos 0) ttl then some (record v { ttl_ms = ttl }) else none)
