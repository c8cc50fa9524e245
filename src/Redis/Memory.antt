-- ===== src/Redis/Memory.antt =====
-- A server in memory, which has the documented behaviour that `Laws` asks for.
pub mod Facts
pub mod Lawful
use taskmq.Prelude.{
  ℕ, ◌^◌, ◌-◌, ◌⊎◌, ◌∙◌, sym, zero, suc, ◌≡◌, ◌≤◌, ◌<◌, refl, ap, Bytes, false, ◌&&◌, List, [], ◌∷◌,
  ◌++◌, ◌==◌, ◌=b◌, length, length-take, =b_refl, take, drop, max, inl, inr, Bool-cases, ltb, leb,
  subst, ltb→lt, if◌then◌else◌, if-both, if-split, All, Option, none, some, arith, Bool, true,
}
use taskmq.Prelude.Decimal.{decimal}
use taskmq.Prelude.Decimal.Parse.{parse_int64, parse_int64-decimal}
use taskmq.Prelude.Int.{ℤ, ◌+ℤ◌, negsuc, IsInt64, pos, ltb_ℤ, leb_ℤ}
use taskmq.Redis.{Entry, Stream, Member, ZSet, StringValue, Commands, Hash}
use taskmq.Redis.Reference.{
  in_ranks, out_of_ranks, without, has, in_scores, upto_score, read_next, members, delete, has_id,
}
use taskmq.Redis.Laws.{Laws, Inserted, AtLeast, Creation, GroupCreated}

pub next_id : List Entry → ℕ
next_id [] = 0
next_id (e ∷ es) = let rest = next_id es in max (suc e.id) rest

pub xadd : Bytes → Stream → Stream × ℕ
xadd p s = (
  record s { entries = s.entries ++ (record { id = next_id s.entries; task = p } ∷ []) },
  next_id s.entries,
)

-- How many entries stand before the first with an id of m at least.
unfoldable pub leading : ℕ → List Entry → ℕ
leading m [] = 0
leading m (e ∷ es) = let rest = leading m es in if ltb e.id m then suc rest else 0

-- The least number up to n with p.
abbrev pub or_next : Option ℕ → Bool → ℕ → Option ℕ
or_next (some k) b n = some k
or_next none b n = if b then some n else none

pub lowest : (ℕ → Bool) → ℕ → Option ℕ
lowest p zero = if p 0 then some 0 else none
lowest p (suc n) = or_next (lowest p n) (p (suc n)) (suc n)

pub insert : Member → ZSet → ZSet
insert x [] = x ∷ []
insert x (y ∷ z) = let rest = insert x z in if leb_ℤ y.score x.score then y ∷ rest else x ∷ (y ∷ z)

abbrev set_px : Bytes → ℤ → Option StringValue
set_px v ttl = if ltb_ℤ (pos 0) ttl then some (record { value = v; ttl_ms = ttl }) else none

abbrev pexpire : ℤ → Option StringValue → Option StringValue
pexpire ttl none = none
pexpire ttl (some v) = if ltb_ℤ (pos 0) ttl then some (record v { ttl_ms = ttl }) else none

abbrev pub new_group : Bytes → Stream → Stream
new_group g s = record s {
  groups = λ h. if g =b h then true else s.groups h;
  last_delivered = λ h. if g =b h then next_id s.entries else s.last_delivered h;
}

pub pending_from : Bytes → ℕ → Stream → List Entry → List Entry
pending_from g start s [] = []
pending_from g start s (e ∷ es) =
    let rest = pending_from g start s es in
    if leb start e.id && s.pending g e.id then e ∷ rest else rest

-- The pending ids of the group from a start are dropped where their entry is deleted.
abbrev pub claimed_from : Bytes → ℕ → Stream → Stream
claimed_from g start s = record s {
  pending = λ h i.
      if (g =b h) && (leb start i && (if has_id i s.entries then false else true))
      then false
      else s.pending h i;
}

-- Only what `decimal` prints counts as an integer.
abbrev pub in_range : ℤ → Option ℤ
in_range n = if leb_ℤ n (pos (2 ^ 63 - 1)) && leb_ℤ (negsuc (2 ^ 63 - 1)) n then some n else none

abbrev pub number_in : Option Bytes → Option ℤ
number_in none = some (pos 0)
number_in (some v) = let n = parse_int64 v in if decimal n =b v then some n else none

abbrev pub stored : Bytes → Hash → Option ℤ → Option Hash
stored f h none = none
stored f h (some n) = some (λ g. if f =b g then some (decimal n) else h g)

abbrev pub added : Option ℤ → ℤ → Option ℤ
added none d = none
added (some n) d = in_range (n +ℤ d)

abbrev pub hincrby : Bytes → ℤ → Hash → Option Hash
hincrby f d h = stored f h (added (number_in (h f)) d)

unfoldable pub memory : Commands
unfolding next_id xadd insert leading lowest pending_from
memory = record {
  xlen = λ s. length s.entries;
  xadd = xadd;
  xadd_maxlen = λ n p s. xadd p s;
  xack =
      λ g i s. record s { pending = λ h j. if (g =b h) && (i == j) then false else s.pending h j };
  xdel = λ i s. record s { entries = delete i s.entries };
  xtrim_minid = λ m limit s.
      (record s { entries = drop (leading m s.entries) s.entries }, leading m s.entries);
  xpending_lower = λ g s. lowest (s.pending g) (s.last_delivered g);
  xgroup_create = λ g s. if s.groups g then none else some (new_group g s);
  xreadgroup = read_next;
  xautoclaim = λ g start count s.
      (claimed_from g start s, (take count (pending_from g start s s.entries), 0));
  xpending_ext = λ g start stop count s. [];
  zcard = length;
  zadd = λ score m z. insert (record { score = score; member = m }) (without m z);
  zrem = λ m z. (without m z, if has m z then 1 else 0);
  zremrangebyrank = out_of_ranks;
  zrange = λ start stop z. members (in_ranks start stop z);
  zrange_withscores = in_ranks;
  zrangebyscore = λ lo hi limit z. members (take limit (in_scores lo hi z));
  zrangebyscore_upto = λ hi limit z. members (take limit (upto_score hi z));
  hset = λ f v h g. if f =b g then some v else h g;
  hincrby = hincrby;
  hdel = λ f h g. if f =b g then none else h g;
  set_px = set_px;
  pexpire = pexpire;
}
